-- ===== src/Sync/CatchUp.antt =====
-- client/src/realtime/projectSyncEngine.ts: `catchUp` over the change feed, and what `resync` and
-- `syncRows` do with the answers that they wait for. Each wait ends a step: one event of a page, the
-- end of a page, the clearing of parked events, one answer (`apply_recovery`).
use bahn_project_manager.Prelude.{ℕ, none, some, [], max, if◌then◌else◌, has, nat_eq}
use bahn_project_manager.Runtime.{Runtime}
use bahn_project_manager.Event.{DomainEvent}
use bahn_project_manager.Event.Decide.{decide_event}
use bahn_project_manager.Event.Scopes.{is_project}
use bahn_project_manager.Event.Seen.{seen}
use bahn_project_manager.Sync.Engine.{Engine, server_version}
use bahn_project_manager.Sync.Events.{replay_held, signal_unseen}

-- One event of a page; an event of another aggregate is only marked, and handed on.
unfoldable pub feed_event : Runtime → DomainEvent → Engine → Engine
unfolding seen has replay_held signal_unseen server_version decide_event
feed_event rt e s =
    let (seen_events, again) = seen s.seen_events e.event_id in
    let t = record s { seen_events = seen_events } in
    let id = rt.number_of e.aggregate_id in
    if is_project e.aggregate_type
    then if has id s.projects
      then replay_held id e (decide_event (server_version s id) e) t
      else if again
      then t
      else (signal_unseen id e e.event_type t).0
    else t

-- `this.feedCursor = Math.max(this.feedCursor, page.cursor)`, which runs with a cursor only.
unfoldable pub advance_cursor : ℕ → Engine → Engine
advance_cursor cursor s = elim s.feed_cursor [
  | none ↦ s
  | some c ↦ record s { feed_cursor = some (max c cursor) }
]

-- `this.buffered.clear()` of `resync`.
unfoldable pub clear_buffered : Engine → Engine
clear_buffered s = record s { buffered = [] }
