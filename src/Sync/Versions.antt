-- ===== src/Sync/Versions.antt =====
-- client/src/realtime/projectSyncEngine.ts: version discipline and duplicates of `applyEvent`.
use bahn_project_manager.Prelude.{
  ℕ, ◌+◌, ◌≡◌, ◌≢◌, true, false, Option, none, refl, sym, ◌⊎◌, inl, inr, some, List, arith, get,
  put, del, has, nat_eq, Bool-cases, Option-cases, get-put_self, get-put_ne, get-del_self,
  get-del_ne, get-none-has,
}
use bahn_project_manager.Runtime.{Runtime}
use bahn_project_manager.Event.{DomainEvent, EventType, project_created, project_updated}
use bahn_project_manager.Event.Decide.{
  EventDecision, apply, stale, unknown_aggregate, gap, decide_event, decide_event_iff,
}
use bahn_project_manager.Event.Scopes.{is_project}
use bahn_project_manager.Event.Seen.{seen}
use bahn_project_manager.Project.{ProjectDetail}
use bahn_project_manager.Sync.Engine.{Engine, buffer, new_values}
use bahn_project_manager.Sync.Events.{
  is_removal, merge_event, drop_project, update_project, commit, recover, signal_unseen,
  decide_held, apply_new, apply_event,
}
use bahn_project_manager.Sync.Cells.{version-with_changes}

-- What becomes of the row of the event's project: it is kept, or the event is for its next version
-- and takes it there or, if it is a removal, drops it. A project that is not held stays away.
abbrev pub RowSteps : DomainEvent → Option ProjectDetail → Option ProjectDetail → Type 0
RowSteps e none none = Unit
RowSteps e none (some q) = ⊥
RowSteps e (some p) none = (e.aggregate_version ≡ p.version + 1) × (is_removal e.event_type ≡ true)
RowSteps e (some p) (some q) =
    (q ≡ p)
    ⊎ ((e.aggregate_version ≡ p.version + 1)
        × (is_removal e.event_type ≡ false)
        × (q.version ≡ e.aggregate_version))

-- From `m` to `m'` every other row stays what it is.
pub record StepsTo (of_event : ℕ) (e : DomainEvent) (m m' : List (ℕ × ProjectDetail)) : Type 0 where
  pub others : (id : ℕ) → id ≢ of_event → get id m' ≡ get id m
  pub own : RowSteps e (get of_event m) (get of_event m')

RowSteps-self : (e : DomainEvent) (o : Option ProjectDetail) → RowSteps e o o
RowSteps-self e none = tt
RowSteps-self e (some p) = inl refl

version-merge_event :
    (p : ProjectDetail) (e : DomainEvent) → (merge_event p e).version ≡ e.aggregate_version
unfolding merge_event
version-merge_event p e =
    (version-with_changes (record p { version = e.aggregate_version; updated_at = e.timestamp })
      (new_values e.changes)).0

module _ (e : DomainEvent) (id : ℕ) where
  StepsTo-self : (m : List (ℕ × ProjectDetail)) → StepsTo id e m m
  StepsTo-self m = record { others = λ j n. refl; own = RowSteps-self e (get id m) }

  StepsTo-del :
      (m : List (ℕ × ProjectDetail)) (p : ProjectDetail)
      → get id m ≡ some p
      → e.aggregate_version ≡ p.version + 1
      → is_removal e.event_type ≡ true
      → StepsTo id e m (del id m)
  StepsTo-del m p g v r = record {
    others = λ j n. get-del_ne id j m (λ k. n (sym k));
    own = rw (g, get-del_self id m) (v, r);
  }

  StepsTo-put :
      (m : List (ℕ × ProjectDetail)) (p q : ProjectDetail)
      → get id m ≡ some p
      → e.aggregate_version ≡ p.version + 1
      → is_removal e.event_type ≡ false
      → q.version ≡ e.aggregate_version
      → StepsTo id e m (put id q m)
  StepsTo-put m p q g v r w = record {
    others = λ j n. get-put_ne id j q m (λ k. n (sym k));
    own = rw (g, get-put_self id q m) (inr (v, r, w));
  }

  commit-StepsTo :
      (s : Engine) (p : ProjectDetail)
      → get id s.projects ≡ some p
      → e.aggregate_version ≡ p.version + 1
      → StepsTo id e s.projects (commit id e s).projects
  unfolding commit drop_project update_project
  commit-StepsTo s p g v = elim (Bool-cases (is_removal e.event_type)) [
    | inl r ↦ rw r (StepsTo-del s.projects p g v r)
    | inr r ↦ rw (r, g) (StepsTo-put s.projects p (merge_event p e) g v r (version-merge_event p e))
  ]

  decide_held-StepsTo :
      (s : Engine) (p : ProjectDetail) (d : EventDecision)
      → get id s.projects ≡ some p
      → decide_event (some p.version) e ≡ d
      → StepsTo id e s.projects (decide_held id e d s).0.projects
  unfolding decide_held buffer recover
  decide_held-StepsTo s p apply g d =
      commit-StepsTo s p g ((decide_event_iff p.version e 0 0).0.0 d)
  decide_held-StepsTo s p stale g d = StepsTo-self s.projects
  decide_held-StepsTo s p unknown_aggregate g d = StepsTo-self s.projects
  decide_held-StepsTo s p (gap a b) g d = elim (Bool-cases (has id s.recovering)) [
    | inl r ↦ rw r (StepsTo-self s.projects)
    | inr r ↦ rw r (StepsTo-self s.projects)
  ]

  projects-signal_unseen :
      (t : EventType) (s : Engine) → (signal_unseen id e t s).0.projects ≡ s.projects
  unfolding signal_unseen
  projects-signal_unseen project_created s = refl
  projects-signal_unseen project_updated s = ground arith
  projects-signal_unseen _ s = refl

  apply_new-StepsTo : (s : Engine) → StepsTo id e s.projects (apply_new id e s).0.projects
  unfolding apply_new buffer
  apply_new-StepsTo s = elim (Bool-cases (has id s.recovering)) [
    | inl r ↦ rw r (StepsTo-self s.projects)
    | inr r ↦ elim (Bool-cases (has id s.projects)) [
      | inl b ↦ elim (Option-cases (get id s.projects)) [
        | inl g ↦ absurd (cc (b, get-none-has id s.projects g))
        | inr (p, g) ↦ rw (r, b, g) (decide_held-StepsTo s p _ g refl)
      ]
      | inr b ↦ rw (r, b, projects-signal_unseen e.event_type s) (StepsTo-self s.projects)
    ]
  ]

-- An event that arrives leaves the row of every other project as it is. The row of its own project it
-- keeps, or it is for the next version of that row and takes it to that version or, as a removal,
-- drops it; it adds no row.
pub apply_event-StepsTo :
    (rt : Runtime) (e : DomainEvent) (s : Engine)
    → StepsTo (rt.number_of e.aggregate_id) e s.projects (apply_event rt e s).0.projects
unfolding apply_event
apply_event-StepsTo rt e s = elim (Bool-cases (is_project e.aggregate_type)) [
  | inl b ↦ elim (Bool-cases (seen s.seen_events e.event_id).1) [
    | inl d ↦ rw (b, d) (StepsTo-self e (rt.number_of e.aggregate_id) s.projects)
    | inr d ↦ rw (b, d) (apply_new-StepsTo e (rt.number_of e.aggregate_id) _)
  ]
  | inr b ↦ rw b (StepsTo-self e (rt.number_of e.aggregate_id) s.projects)
]
