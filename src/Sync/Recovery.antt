-- ===== src/Sync/Recovery.antt =====
-- client/src/realtime/projectSyncEngine.ts: `applyRecovery` and the end of `recover`.
use bahn_project_manager.Prelude.{
  ℕ, ◌+◌, Option, none, some, List, [], ◌∷◌, if◌then◌else◌, get, put, del, has, nat_eq,
}
use bahn_project_manager.Runtime.{Runtime}
use bahn_project_manager.Event.{DomainEvent}
use bahn_project_manager.Event.Order.{sort_by_version}
use bahn_project_manager.Event.Seen.{seen}
use bahn_project_manager.Project.{ProjectDetail}
use bahn_project_manager.Sync.Engine.{
  Engine, upsert, server, emit, list_of, view, server_version, is_behind,
}
use bahn_project_manager.Sync.Events.{replay, drop_project}

pub record SyncResult : Type 0 where
  pub events : List DomainEvent
  pub snapshots : List ProjectDetail
  pub deleted : List ℕ

unfoldable pub take_snapshot : ProjectDetail → Engine → Engine
unfolding server_version put view
take_snapshot p s =
    let t = record s { metrics = record (s.metrics) { snapshots = s.metrics.snapshots + 1 } } in
    if is_behind (server_version t p.id) p.version
    then (let u = record t { projects = put p.id p t.projects } in
        emit (upsert p.id (view u p.id) server) u)
    else t

unfoldable pub take_snapshots : List ProjectDetail → Engine → Engine
unfolding take_snapshot
take_snapshots [] s = s
take_snapshots (p ∷ ps) s = take_snapshots ps (take_snapshot p s)

unfoldable pub replay_all : Runtime → List DomainEvent → Engine → Engine
unfolding replay
replay_all rt [] s = s
replay_all rt (e ∷ es) s = replay_all rt es (replay rt e s)

unfoldable pub mark_and_replay : Runtime → List DomainEvent → Engine → Engine
unfolding seen replay
mark_and_replay rt [] s = s
mark_and_replay rt (e ∷ es) s =
    mark_and_replay rt es
      (replay rt e (record s { seen_events = (seen s.seen_events e.event_id).0 }))

unfoldable pub take_deletion : ℕ → Engine → Engine
unfolding has drop_project
take_deletion id s = if has id s.projects then drop_project id s else s

unfoldable pub take_deletions : List ℕ → Engine → Engine
unfolding take_deletion
take_deletions [] s = s
take_deletions (id ∷ ids) s = take_deletions ids (take_deletion id s)

-- `applyRecovery`.
unfoldable pub apply_recovery : Runtime → SyncResult → Engine → Engine
unfolding take_snapshots mark_and_replay take_deletions sort_by_version
apply_recovery rt res s =
    take_deletions res.deleted
      (mark_and_replay rt (sort_by_version res.events) (take_snapshots res.snapshots s))

-- The answer to a recovery: `none` is a failed request, which leaves the parked events parked.
unfoldable pub complete_recovery : Runtime → ℕ → Option SyncResult → Engine → Engine
unfolding del
complete_recovery rt id none s = record s { recovering = del id s.recovering }
complete_recovery rt id (some res) s =
    let t = apply_recovery rt res s in
    let parked = sort_by_version (list_of (get id t.buffered)) in
    replay_all rt parked
      (record t { recovering = del id t.recovering; buffered = del id t.buffered })
