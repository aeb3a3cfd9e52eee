-- ===== src/Sync/Mirror.antt =====
-- The mirror of client/src/realtime/projectSyncEngine.ts against the history of the server: a state
-- in which each project held has the values that the server gave it at the version held.
pub mod Steps
pub mod Reach
use bahn_project_manager.Prelude.{
  ℕ, suc, ◌+◌, ◌≡◌, ◌≢◌, refl, sym, subst, some-injective, ◌∙◌, ◌⊎◌, inl, inr, Bool, true, false,
  Option, none, some, List, [], ◌∷◌, ◌++◌, arith, if◌then◌else◌, get, put, del, has, nat_eq,
  nat_beq_iff, Text, All, All-append, Bool-cases, Option-cases, get-put_self, get-put_ne,
  get-del_self, get-del_ne, nat_beq,
}
use bahn_project_manager.Runtime.{Runtime}
use bahn_project_manager.Event.{DomainEvent}
use bahn_project_manager.Project.{ProjectDetail}
use bahn_project_manager.Sync.Engine.{Engine, list_of, new_values, with_changes, buffer}
use bahn_project_manager.Sync.Events.{
  is_removal, merge_event, drop_project, update_project, commit, recover,
}
use bahn_project_manager.Sync.Cells.{
  Cell, value_at, last_value, value_at-with_changes, version-with_changes, value_at-stamp,
}

-- `value id v c` is what the server holds in cell `c` of project `id` at version `v`.
abbrev pub History : Type 0
History = ℕ → ℕ → Cell → Option Text

-- A row that the server had at its version.
abbrev pub IsGenuine : History → ℕ → ProjectDetail → Type 0
IsGenuine value id p = (c : Cell) → value_at p c ≡ value id p.version c

-- An event that says what its version changed.
abbrev pub IsTrueEvent : Runtime → History → DomainEvent → Type 0
IsTrueEvent rt value e =
    (n : ℕ)
    → e.aggregate_version ≡ n + 1
    → is_removal e.event_type ≡ false
    → (c : Cell)
    → value (rt.number_of e.aggregate_id) (n + 1) c
      ≡ last_value c (new_values e.changes) (value (rt.number_of e.aggregate_id) n c)

abbrev pub MirrorsMap : History → List (ℕ × ProjectDetail) → Type 0
MirrorsMap value m = (id : ℕ) (p : ProjectDetail) → get id m ≡ some p → IsGenuine value id p

abbrev pub ParkedTrue : Runtime → History → List (ℕ × List DomainEvent) → Type 0
ParkedTrue rt value m = (id : ℕ) → All (IsTrueEvent rt value) (list_of (get id m))

pub record Mirrors (rt : Runtime) (value : History) (s : Engine) : Type 0 where
  pub held : MirrorsMap value s.projects
  pub parked : ParkedTrue rt value s.buffered

module _ (value : History) where
  pub MirrorsMap-put :
      (id : ℕ) (p : ProjectDetail) (m : List (ℕ × ProjectDetail))
      → MirrorsMap value m
      → IsGenuine value id p
      → MirrorsMap value (put id p m)
  MirrorsMap-put id p m h g j q e = elim (Bool-cases (nat_beq id j)) [
    | inl same ↦
        let same' : id ≡ j = (nat_beq_iff id j).0 same in
        let e' : some p ≡ some q = sym (get-put_self id p m) ∙ (rw (← same') at e) in
        subst (λ x. IsGenuine value j x) (some-injective p q e')
          (subst (λ k. IsGenuine value k p) same' g)
    | inr other ↦ h j q (sym (get-put_ne id j p m (λ k. ground (arith, nat_beq_iff id j))) ∙ e)
  ]

  pub MirrorsMap-del :
      (id : ℕ) (m : List (ℕ × ProjectDetail)) → MirrorsMap value m → MirrorsMap value (del id m)
  MirrorsMap-del id m h j q e = elim (Bool-cases (nat_beq id j)) [
    | inl same ↦
        let same' : id ≡ j = (nat_beq_iff id j).0 same in absurd (cc (e, get-del_self id m, same'))
    | inr other ↦ h j q (sym (get-del_ne id j m (λ k. ground (arith, nat_beq_iff id j))) ∙ e)
  ]

-- The row after a true event that is next in line is again one that the server had.
pub merge_event-IsGenuine :
    (rt : Runtime) (value : History) (id : ℕ) (p : ProjectDetail) (e : DomainEvent)
    → IsGenuine value id p
    → IsTrueEvent rt value e
    → rt.number_of e.aggregate_id ≡ id
    → is_removal e.event_type ≡ false
    → e.aggregate_version ≡ p.version + 1
    → IsGenuine value id (merge_event p e)
unfolding merge_event
merge_event-IsGenuine rt value id p e g t i r v c =
    let base = record p { version = e.aggregate_version; updated_at = e.timestamp } in
    let cs = new_values e.changes in
    let written = value_at-with_changes base cs c in
    cc (
      written,
      value_at-stamp p e.aggregate_version e.timestamp c,
      g c,
      t p.version v r c,
      (version-with_changes base cs).0,
      i,
      v,
    )

module _ (rt : Runtime) (value : History) where
  pub drop_project-Mirrors :
      (id : ℕ) (s : Engine) → Mirrors rt value s → Mirrors rt value (drop_project id s)
  unfolding drop_project
  drop_project-Mirrors id s m = record {
    held = MirrorsMap-del value id s.projects m.held;
    parked = m.parked;
  }

  update_project-Mirrors :
      (id : ℕ) (e : DomainEvent) (s : Engine) (p : ProjectDetail)
      → Mirrors rt value s
      → IsTrueEvent rt value e
      → rt.number_of e.aggregate_id ≡ id
      → is_removal e.event_type ≡ false
      → get id s.projects ≡ some p
      → e.aggregate_version ≡ p.version + 1
      → Mirrors rt value (update_project id e s)
  unfolding update_project
  update_project-Mirrors id e s p m t i r h v = record {
    held = rw h (
        MirrorsMap-put value id (merge_event p e) s.projects m.held
          (merge_event-IsGenuine rt value id p e (m.held id p h) t i r v));
    parked = m.parked;
  }

  pub commit-Mirrors :
      (id : ℕ) (e : DomainEvent) (s : Engine) (p : ProjectDetail)
      → Mirrors rt value s
      → IsTrueEvent rt value e
      → rt.number_of e.aggregate_id ≡ id
      → get id s.projects ≡ some p
      → e.aggregate_version ≡ p.version + 1
      → Mirrors rt value (commit id e s)
  unfolding commit
  commit-Mirrors id e s p m t i h v = elim (Bool-cases (is_removal e.event_type)) [
    | inl r ↦ rw r (drop_project-Mirrors id _ (record { held = m.held; parked = m.parked }))
    | inr r ↦
        rw r
          (update_project-Mirrors id e _ p (record { held = m.held; parked = m.parked }) t i r h v)
  ]

  ParkedTrue-put :
      (id : ℕ) (es : List DomainEvent) (m : List (ℕ × List DomainEvent))
      → ParkedTrue rt value m
      → All (IsTrueEvent rt value) es
      → ParkedTrue rt value (put id es m)
  ParkedTrue-put id es m h k j = elim (Bool-cases (nat_beq id j)) [
    | inl same ↦
        let same' : id ≡ j = (nat_beq_iff id j).0 same in rw (← same') (rw (get-put_self id es m) k)
    | inr other ↦ rw (get-put_ne id j es m (λ k. ground (arith, nat_beq_iff id j))) (h j)
  ]

  pub ParkedTrue-del :
      (id : ℕ) (m : List (ℕ × List DomainEvent))
      → ParkedTrue rt value m
      → ParkedTrue rt value (del id m)
  ParkedTrue-del id m h j = elim (Bool-cases (nat_beq id j)) [
    | inl same ↦
        let same' : id ≡ j = (nat_beq_iff id j).0 same in rw (← same') (rw (get-del_self id m) tt)
    | inr other ↦ rw (get-del_ne id j m (λ k. ground (arith, nat_beq_iff id j))) (h j)
  ]

  pub buffer-Mirrors :
      (id : ℕ) (e : DomainEvent) (s : Engine)
      → Mirrors rt value s
      → IsTrueEvent rt value e
      → Mirrors rt value (buffer id e s)
  unfolding buffer
  buffer-Mirrors id e s m t = record {
    held = m.held;
    parked = ParkedTrue-put id _ s.buffered m.parked (
        All-append (IsTrueEvent rt value) (list_of (get id s.buffered)) (e ∷ []) (m.parked id)
          (t, tt));
  }

  pub recover-Mirrors : (id : ℕ) (s : Engine) → Mirrors rt value s → Mirrors rt value (recover id s)
  unfolding recover
  recover-Mirrors id s m = elim (Bool-cases (has id s.recovering)) [
    | inl r ↦ rw r m
    | inr r ↦ rw r (record { held = m.held; parked = m.parked })
  ]
