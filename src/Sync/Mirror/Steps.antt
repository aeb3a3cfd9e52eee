-- ===== src/Sync/Mirror/Steps.antt =====
-- Every call of client/src/realtime/projectSyncEngine.ts keeps the mirror, as long as events and rows
-- say what the server had.
use bahn_project_manager.Prelude.{
  ℕ, ◌+◌, ◌≡◌, refl, inl, inr, Bool, Option, none, some, List, [], ◌∷◌, if◌then◌else◌, get, put,
  has, nat_eq, Text, All, Bool-cases, Option-cases, get-none-has, truthy,
}
use bahn_project_manager.Runtime.{Runtime}
use bahn_project_manager.Event.{DomainEvent, EventType, project_created, project_updated}
use bahn_project_manager.Event.Decide.{
  EventDecision, apply, stale, unknown_aggregate, gap, decide_event, decide_event_iff,
}
use bahn_project_manager.Event.Order.{sort_by_version}
use bahn_project_manager.Event.Order.Sorted.{All-sort_by_version}
use bahn_project_manager.Event.Scopes.{is_project}
use bahn_project_manager.Event.Seen.{seen}
use bahn_project_manager.Project.{ProjectDetail, Fields, ConflictInfo}
use bahn_project_manager.Sync.Engine.{Engine, list_of, seed, server_version, is_behind}
use bahn_project_manager.Sync.Events.{
  decide_held, replay_held, replay, signal_unseen, apply_new, apply_event,
}
use bahn_project_manager.Sync.Recovery.{
  SyncResult, take_snapshot, take_snapshots, replay_all, mark_and_replay, take_deletion,
  take_deletions, apply_recovery, complete_recovery,
}
use bahn_project_manager.Sync.Edits.{edit_optimistic, adopt_at, drop_pending, confirm, roll_back}
use bahn_project_manager.Sync.Mirror.{
  History, IsGenuine, IsTrueEvent, Mirrors, MirrorsMap-put, drop_project-Mirrors, commit-Mirrors,
  ParkedTrue-del, buffer-Mirrors, recover-Mirrors,
}

decide_apply :
    (known : ℕ) (e : DomainEvent)
    → decide_event (some known) e ≡ apply
    → e.aggregate_version ≡ known + 1
decide_apply known e h = (decide_event_iff known e 0 0).0.0 h

module _ (rt : Runtime) (value : History) where
  pub signal_unseen-Mirrors :
      (id : ℕ) (e : DomainEvent) (t : EventType) (s : Engine)
      → Mirrors rt value s
      → Mirrors rt value (signal_unseen id e t s).0
  unfolding signal_unseen
  signal_unseen-Mirrors id e project_created s m = record { held = m.held; parked = m.parked }
  signal_unseen-Mirrors id e project_updated s m =
      elim (Bool-cases (truthy e.context.workspace_before)) [
        | inl b ↦ rw b (record { held = m.held; parked = m.parked })
        | inr b ↦ rw b (record { held = m.held; parked = m.parked })
      ]
  signal_unseen-Mirrors id e _ s m = record { held = m.held; parked = m.parked }

  module _ (e : DomainEvent) (true_event : IsTrueEvent rt value e) (id : ℕ)
      (of_id : rt.number_of e.aggregate_id ≡ id) where
    pub replay_held-Mirrors :
        (s : Engine) (p : ProjectDetail) (d : EventDecision)
        → get id s.projects ≡ some p
        → decide_event (some p.version) e ≡ d
        → Mirrors rt value s
        → Mirrors rt value (replay_held id e d s)
    unfolding replay_held
    replay_held-Mirrors s p apply h d m =
        commit-Mirrors rt value id e s p m true_event of_id h (decide_apply p.version e d)
    replay_held-Mirrors s p (gap a b) h d m =
        recover-Mirrors rt value id _ (buffer-Mirrors rt value id e s m true_event)
    replay_held-Mirrors s p stale h d m = m
    replay_held-Mirrors s p unknown_aggregate h d m = m

    decide_held-Mirrors :
        (s : Engine) (p : ProjectDetail) (d : EventDecision)
        → get id s.projects ≡ some p
        → decide_event (some p.version) e ≡ d
        → Mirrors rt value s
        → Mirrors rt value (decide_held id e d s).0
    unfolding decide_held
    decide_held-Mirrors s p apply h d m =
        commit-Mirrors rt value id e s p m true_event of_id h (decide_apply p.version e d)
    decide_held-Mirrors s p (gap a b) h d m =
        recover-Mirrors rt value id _
          (buffer-Mirrors rt value id e _ (record { held = m.held; parked = m.parked }) true_event)
    decide_held-Mirrors s p stale h d m = record { held = m.held; parked = m.parked }
    decide_held-Mirrors s p unknown_aggregate h d m = m

    replay_at-Mirrors :
        (s : Engine)
        → Mirrors rt value s
        → Mirrors rt value (
            if has id s.projects
            then replay_held id e (decide_event (server_version s id) e) s
            else (signal_unseen id e e.event_type s).0)
    unfolding server_version
    replay_at-Mirrors s m = elim (Option-cases (get id s.projects)) [
      | inl none_held ↦
          rw (get-none-has id s.projects none_held) (signal_unseen-Mirrors id e e.event_type s m)
      | inr (p, h) ↦ elim (Bool-cases (has id s.projects)) [
        | inl b ↦ rw (b, h) (replay_held-Mirrors s p _ h refl m)
        | inr b ↦ rw b (signal_unseen-Mirrors id e e.event_type s m)
      ]
    ]

    apply_new-Mirrors : (s : Engine) → Mirrors rt value s → Mirrors rt value (apply_new id e s).0
    unfolding apply_new
    apply_new-Mirrors s m = elim (Bool-cases (has id s.recovering)) [
      | inl r ↦ rw r (buffer-Mirrors rt value id e s m true_event)
      | inr r ↦ rw r (go (get id s.projects) refl)
    ]
      where
        go :
            (o : Option ProjectDetail)
            → get id s.projects ≡ o
            → Mirrors rt value
                (if has id s.projects
                  then decide_held id e (decide_event (server_version s id) e) s
                  else signal_unseen id e e.event_type s).0
        go none h = rw (get-none-has id s.projects h) (signal_unseen-Mirrors id e e.event_type s m)
        go (some p) h = elim (Bool-cases (has id s.projects)) [
          | inl b ↦ rw (b, h) (decide_held-Mirrors s p _ h refl m)
          | inr b ↦ rw b (signal_unseen-Mirrors id e e.event_type s m)
        ]

  replay-Mirrors :
      (e : DomainEvent) (s : Engine)
      → IsTrueEvent rt value e
      → Mirrors rt value s
      → Mirrors rt value (replay rt e s)
  unfolding replay
  replay-Mirrors e s t m = replay_at-Mirrors e t (rt.number_of e.aggregate_id) refl s m

  replay_all-Mirrors :
      (es : List DomainEvent) (s : Engine)
      → All (IsTrueEvent rt value) es
      → Mirrors rt value s
      → Mirrors rt value (replay_all rt es s)
  unfolding replay_all
  replay_all-Mirrors [] s t m = m
  replay_all-Mirrors (e ∷ es) s (t, ts) m =
      replay_all-Mirrors es (replay rt e s) ts (replay-Mirrors e s t m)

  mark_and_replay-Mirrors :
      (es : List DomainEvent) (s : Engine)
      → All (IsTrueEvent rt value) es
      → Mirrors rt value s
      → Mirrors rt value (mark_and_replay rt es s)
  unfolding mark_and_replay
  mark_and_replay-Mirrors [] s t m = m
  mark_and_replay-Mirrors (e ∷ es) s (t, ts) m =
      mark_and_replay-Mirrors es _ ts
        (replay-Mirrors e _ t (record { held = m.held; parked = m.parked }))

  store-Mirrors :
      (id : ℕ) (p : ProjectDetail) (s : Engine)
      → Mirrors rt value s
      → IsGenuine value id p
      → Mirrors rt value (record s { projects = put id p s.projects })
  store-Mirrors id p s m g = record {
    held = MirrorsMap-put value id p s.projects m.held g;
    parked = m.parked;
  }

  abbrev AreGenuine : List ProjectDetail → Type 0
  AreGenuine = All (λ p. IsGenuine value p.id p)

  take_snapshots-Mirrors :
      (ps : List ProjectDetail) (s : Engine)
      → AreGenuine ps
      → Mirrors rt value s
      → Mirrors rt value (take_snapshots ps s)
  unfolding take_snapshots
  take_snapshots-Mirrors [] s g m = m
  take_snapshots-Mirrors (p ∷ ps) s (g, gs) m =
      take_snapshots-Mirrors ps (take_snapshot p s) gs
        (elim (Bool-cases (is_behind (server_version s p.id) p.version)) [
          | inl b ↦
              rw (b, take_snapshot)
                (let n = store-Mirrors p.id p s m g in record { held = n.held; parked = n.parked })
          | inr b ↦ rw (b, take_snapshot) (record { held = m.held; parked = m.parked })
        ])

  take_deletions-Mirrors :
      (ids : List ℕ) (s : Engine) → Mirrors rt value s → Mirrors rt value (take_deletions ids s)
  unfolding take_deletions
  take_deletions-Mirrors [] s m = m
  take_deletions-Mirrors (id ∷ ids) s m =
      take_deletions-Mirrors ids (take_deletion id s) (elim (Bool-cases (has id s.projects)) [
        | inl b ↦ rw (b, take_deletion) (drop_project-Mirrors rt value id s m)
        | inr b ↦ rw (b, take_deletion) m
      ])

  -- An answer of the server that holds true events and rows that it had.
  abbrev pub IsTrueAnswer : SyncResult → Type 0
  IsTrueAnswer res = All (IsTrueEvent rt value) res.events × AreGenuine res.snapshots

  pub apply_recovery-Mirrors :
      (res : SyncResult) (s : Engine)
      → IsTrueAnswer res
      → Mirrors rt value s
      → Mirrors rt value (apply_recovery rt res s)
  unfolding apply_recovery
  apply_recovery-Mirrors res s (es, ps) m = take_deletions-Mirrors res.deleted _ (
      mark_and_replay-Mirrors (sort_by_version res.events) _
        (All-sort_by_version (IsTrueEvent rt value) res.events es)
        (take_snapshots-Mirrors res.snapshots s ps m))

  pub complete_recovery-Mirrors :
      (id : ℕ) (res : SyncResult) (s : Engine)
      → IsTrueAnswer res
      → Mirrors rt value s
      → Mirrors rt value (complete_recovery rt id (some res) s)
  unfolding complete_recovery
  complete_recovery-Mirrors id res s t m =
      let after = apply_recovery-Mirrors res s t m in
      let u = apply_recovery rt res s in
      replay_all-Mirrors (sort_by_version (list_of (get id u.buffered))) _
        (All-sort_by_version (IsTrueEvent rt value) (list_of (get id u.buffered)) (after.parked id))
        (record { held = after.held; parked = ParkedTrue-del rt value id u.buffered after.parked })

  pub failed_recovery-Mirrors :
      (id : ℕ) (s : Engine) → Mirrors rt value s → Mirrors rt value (complete_recovery rt id none s)
  unfolding complete_recovery
  failed_recovery-Mirrors id s m = record { held = m.held; parked = m.parked }

  pub apply_event-Mirrors :
      (e : DomainEvent) (s : Engine)
      → IsTrueEvent rt value e
      → Mirrors rt value s
      → Mirrors rt value (apply_event rt e s).0
  unfolding apply_event
  apply_event-Mirrors e s t m = elim (Bool-cases (is_project e.aggregate_type)) [
    | inl b ↦ elim (Bool-cases (seen s.seen_events e.event_id).1) [
      | inl d ↦ rw (b, d) (record { held = m.held; parked = m.parked })
      | inr d ↦
          rw (b, d)
            (apply_new-Mirrors e t (rt.number_of e.aggregate_id) refl _
              (record { held = m.held; parked = m.parked }))
    ]
    | inr b ↦ rw b m
  ]

  pub seed-Mirrors :
      (p : ProjectDetail) (silent : Bool) (s : Engine)
      → IsGenuine value p.id p
      → Mirrors rt value s
      → Mirrors rt value (seed p silent s)
  unfolding seed
  seed-Mirrors p silent s g m =
      let n = store-Mirrors p.id p s m g in
      elim (Bool-cases (is_behind (server_version s p.id) p.version)) [
        | inl b ↦ elim (Bool-cases silent) [
          | inl q ↦ rw (b, q) n
          | inr q ↦ rw (b, q) (record { held = n.held; parked = n.parked })
        ]
        | inr b ↦ rw b m
      ]

  pub edit_optimistic-Mirrors :
      (id : ℕ) (mutation : Text) (changes : Fields) (s : Engine)
      → Mirrors rt value s
      → Mirrors rt value (edit_optimistic id mutation changes s)
  unfolding edit_optimistic
  edit_optimistic-Mirrors id mutation changes s m = elim (Bool-cases (has id s.projects)) [
    | inl b ↦ rw b (record { held = m.held; parked = m.parked })
    | inr b ↦ rw b m
  ]

  drop_pending-Mirrors :
      (id : ℕ) (mutation : Text) (s : Engine)
      → Mirrors rt value s
      → Mirrors rt value (drop_pending id mutation s)
  unfolding drop_pending
  drop_pending-Mirrors id mutation s m = record { held = m.held; parked = m.parked }

  adopt_at-Mirrors :
      (id version : ℕ) (p : ProjectDetail) (s : Engine)
      → IsGenuine value id p
      → Mirrors rt value s
      → Mirrors rt value (adopt_at id version p s)
  adopt_at-Mirrors id version p s g m =
      elim (Bool-cases (is_behind (server_version s id) version)) [
        | inl b ↦ rw b (store-Mirrors id p s m g)
        | inr b ↦ rw b m
      ]

  pub confirm-Mirrors :
      (id : ℕ) (mutation : Text) (p : ProjectDetail) (s : Engine)
      → IsGenuine value id p
      → Mirrors rt value s
      → Mirrors rt value (confirm id mutation p s)
  unfolding confirm
  confirm-Mirrors id mutation p s g m =
      let n = adopt_at-Mirrors id p.version p _ g (drop_pending-Mirrors id mutation s m) in
      record { held = n.held; parked = n.parked }

  -- A refusal that shows a row of the project, or none.
  abbrev pub IsTrueConflict : ℕ → Option ConflictInfo → Type 0
  IsTrueConflict id none = Unit
  IsTrueConflict id (some c) = IsGenuine value id c.current

  pub roll_back-Mirrors :
      (id : ℕ) (mutation : Text) (conflict : Option ConflictInfo) (s : Engine)
      → IsTrueConflict id conflict
      → Mirrors rt value s
      → Mirrors rt value (roll_back id mutation conflict s)
  unfolding roll_back
  roll_back-Mirrors id mutation none s g m =
      let n = drop_pending-Mirrors id mutation s m in record { held = n.held; parked = n.parked }
  roll_back-Mirrors id mutation (some c) s g m =
      let n =
        adopt_at-Mirrors id c.current_version c.current _ g
          (drop_pending-Mirrors id mutation s m) in
      record { held = n.held; parked = n.parked }
