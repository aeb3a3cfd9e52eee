-- ===== src/Sync/Mirror/Reach.antt =====
-- The mirror of client/src/realtime/projectSyncEngine.ts over any run of its calls: whatever arrives
-- in whatever order, as long as events and rows say what the server had.
use bahn_project_manager.Prelude.{
  ℕ, refl, Bool, Option, none, some, Bool-cases, Option-cases, get, has, nat_eq, inl, inr,
  get-none-has, Text,
}
use bahn_project_manager.Runtime.{Runtime}
use bahn_project_manager.Event.{DomainEvent}
use bahn_project_manager.Event.Scopes.{is_project}
use bahn_project_manager.Event.Seen.{seen}
use bahn_project_manager.Project.{ProjectDetail, Fields, ConflictInfo}
use bahn_project_manager.Sync.Engine.{Engine, server_version, seed, init_cursor, new_engine}
use bahn_project_manager.Sync.Events.{apply_event}
use bahn_project_manager.Sync.Recovery.{SyncResult, complete_recovery, apply_recovery}
use bahn_project_manager.Sync.Edits.{edit_optimistic, confirm, roll_back}
use bahn_project_manager.Sync.CatchUp.{feed_event, advance_cursor, clear_buffered}
use bahn_project_manager.Sync.Mirror.{History, IsGenuine, IsTrueEvent, Mirrors}
use bahn_project_manager.Sync.Mirror.Steps.{
  IsTrueAnswer, IsTrueConflict, apply_event-Mirrors, complete_recovery-Mirrors,
  failed_recovery-Mirrors, seed-Mirrors, edit_optimistic-Mirrors, confirm-Mirrors,
  roll_back-Mirrors, apply_recovery-Mirrors, signal_unseen-Mirrors, replay_held-Mirrors,
}

module _ (rt : Runtime) (value : History) where
  feed_event-Mirrors :
      (e : DomainEvent) (s : Engine)
      → IsTrueEvent rt value e
      → Mirrors rt value s
      → Mirrors rt value (feed_event rt e s)
  unfolding feed_event server_version
  feed_event-Mirrors e s h m =
      let id = rt.number_of e.aggregate_id in
      let t = record s { seen_events = (seen s.seen_events e.event_id).0 } in
      let mt : Mirrors rt value t = record { held = m.held; parked = m.parked } in
      elim (Bool-cases (is_project e.aggregate_type)) [
        | inr o ↦ rw o mt
        | inl o ↦ elim (Bool-cases (has id s.projects)) [
          | inr b ↦ elim (Bool-cases (seen s.seen_events e.event_id).1) [
            | inl d ↦ rw (o, b, d) mt
            | inr d ↦ rw (o, b, d) (signal_unseen-Mirrors rt value id e e.event_type t mt)
          ]
          | inl b ↦ elim (Option-cases (get id s.projects)) [
            | inl g ↦ absurd (cc (b, get-none-has id s.projects g))
            | inr (p, g) ↦ rw (o, b, g) (replay_held-Mirrors rt value e h id refl t p _ g refl mt)
          ]
        ]
      ]

  advance_cursor-Mirrors :
      (cursor : ℕ) (s : Engine) → Mirrors rt value s → Mirrors rt value (advance_cursor cursor s)
  unfolding advance_cursor
  advance_cursor-Mirrors cursor s m = elim (Option-cases s.feed_cursor) [
    | inl n ↦ rw n (record { held = m.held; parked = m.parked })
    | inr (c, n) ↦ rw n (record { held = m.held; parked = m.parked })
  ]

  init_cursor-Mirrors :
      (head : ℕ) (s : Engine) → Mirrors rt value s → Mirrors rt value (init_cursor head s)
  unfolding init_cursor
  init_cursor-Mirrors head s m = elim (Option-cases s.feed_cursor) [
    | inl n ↦ rw n (record { held = m.held; parked = m.parked })
    | inr (c, n) ↦ rw n (record { held = m.held; parked = m.parked })
  ]

  clear_buffered-Mirrors : (s : Engine) → Mirrors rt value s → Mirrors rt value (clear_buffered s)
  unfolding clear_buffered get
  clear_buffered-Mirrors s m = record { held = m.held; parked = λ id. tt }

  -- What may happen to an engine: events arrive live or in a page of the feed, recoveries and
  -- reconciliations end, rows are loaded, edits are made, confirmed and refused, in any order and
  -- any number.
  pub data Step (s : Engine) : Engine → Type 0 where
    event_arrives : (e : DomainEvent) → IsTrueEvent rt value e → Step s (apply_event rt e s).0
    recovery_succeeds :
        (id : ℕ) (res : SyncResult)
        → IsTrueAnswer rt value res
        → Step s (complete_recovery rt id (some res) s)
    recovery_fails : (id : ℕ) → Step s (complete_recovery rt id none s)
    row_loads :
        (p : ProjectDetail) (silent : Bool) → IsGenuine value p.id p → Step s (seed p silent s)
    edit_starts :
        (id : ℕ) (mutation : Text) (changes : Fields)
        → Step s (edit_optimistic id mutation changes s)
    edit_succeeds :
        (id : ℕ) (mutation : Text) (p : ProjectDetail)
        → IsGenuine value id p
        → Step s (confirm id mutation p s)
    edit_fails :
        (id : ℕ) (mutation : Text) (conflict : Option ConflictInfo)
        → IsTrueConflict rt value id conflict
        → Step s (roll_back id mutation conflict s)
    list_loads : (feed_head : ℕ) → Step s (init_cursor feed_head s)
    feed_arrives : (e : DomainEvent) → IsTrueEvent rt value e → Step s (feed_event rt e s)
    page_ends : (cursor : ℕ) → Step s (advance_cursor cursor s)
    resync_clears : Step s (clear_buffered s)
    rows_answered :
        (res : SyncResult) → IsTrueAnswer rt value res → Step s (apply_recovery rt res s)

  pub data Reach : Engine → Type 0 where
    start : Reach new_engine
    next : {s t : Engine} → Reach s → Step s t → Reach t

  Step-Mirrors : {s t : Engine} → Step s t → Mirrors rt value s → Mirrors rt value t
  Step-Mirrors {s} (event_arrives e h) m = apply_event-Mirrors rt value e s h m
  Step-Mirrors {s} (recovery_succeeds id res h) m = complete_recovery-Mirrors rt value id res s h m
  Step-Mirrors {s} (recovery_fails id) m = failed_recovery-Mirrors rt value id s m
  Step-Mirrors {s} (row_loads p silent g) m = seed-Mirrors rt value p silent s g m
  Step-Mirrors {s} (edit_starts id mutation changes) m =
      edit_optimistic-Mirrors rt value id mutation changes s m
  Step-Mirrors {s} (edit_succeeds id mutation p g) m = confirm-Mirrors rt value id mutation p s g m
  Step-Mirrors {s} (edit_fails id mutation c g) m = roll_back-Mirrors rt value id mutation c s g m
  Step-Mirrors {s} (list_loads head) m = init_cursor-Mirrors head s m
  Step-Mirrors {s} (feed_arrives e h) m = feed_event-Mirrors e s h m
  Step-Mirrors {s} (page_ends cursor) m = advance_cursor-Mirrors cursor s m
  Step-Mirrors {s} resync_clears m = clear_buffered-Mirrors s m
  Step-Mirrors {s} (rows_answered res h) m = apply_recovery-Mirrors rt value res s h m

  new_engine-Mirrors : Mirrors rt value new_engine
  unfolding new_engine get
  new_engine-Mirrors = record { held = λ id p e. cc; parked = λ id. tt }

  -- Whatever the order in which events, pages, answers and rows arrive, twice or not at all, with
  -- local edits in between: as long as each says what the server had, every project held has, in every
  -- cell, the value that the server gave it at the version held.
  pub Reach-Mirrors : {s : Engine} → Reach s → Mirrors rt value s
  Reach-Mirrors start = new_engine-Mirrors
  Reach-Mirrors (next r st) = Step-Mirrors st (Reach-Mirrors r)
