-- ===== src/Sync/Events.antt =====
-- client/src/realtime/projectSyncEngine.ts: `applyEvent`, `commit`, `recover`, `replay`.
use bahn_project_manager.Prelude.{
  ℕ, ◌+◌, Bool, true, false, Option, none, some, List, [], ◌∷◌, map, if◌then◌else◌, get, put, del,
  has, nat_eq, take, truthy,
}
use bahn_project_manager.Runtime.{Runtime}
use bahn_project_manager.Event.{
  DomainEvent, Changes, EventType, project_created, project_updated, project_deleted,
  project_removed,
}
use bahn_project_manager.Event.Scopes.{is_project}
use bahn_project_manager.Event.Decide.{
  EventDecision, apply, stale, unknown_aggregate, gap, decide_event,
}
use bahn_project_manager.Event.Seen.{seen}
use bahn_project_manager.Project.{ProjectDetail, editable_project_fields}
use bahn_project_manager.Sync.Engine.{
  Engine, ApplyOutcome, applied, duplicate, stale_event, is_recovering, ignored, RecentChange,
  upsert, remove, collection_stale, created, moved_in, server, emit, list_of, view, server_version,
  buffer, with_changes, new_values,
}

abbrev pub is_removal : EventType → Bool
is_removal project_deleted = true
is_removal project_removed = true
is_removal _ = false

abbrev blank_project : ℕ → DomainEvent → ProjectDetail
blank_project id e = record {
  id = id;
  version = e.aggregate_version;
  updated_at = e.timestamp;
  created_at = e.timestamp;
  fields = map (λ f. (f, none)) editable_project_fields;
  reviews = [];
}

abbrev current_or_blank : ℕ → DomainEvent → Option ProjectDetail → ProjectDetail
current_or_blank id e none = blank_project id e
current_or_blank id e (some cur) = cur

-- The row after an event: its version, its time, and its new values.
unfoldable pub merge_event : ProjectDetail → DomainEvent → ProjectDetail
unfolding with_changes new_values
merge_event p e =
    with_changes (record p { version = e.aggregate_version; updated_at = e.timestamp })
      (new_values e.changes)

-- `list.unshift` for each change.
unfoldable pub note_changes : DomainEvent → Changes → List RecentChange → List RecentChange
note_changes e [] known = known
note_changes e ((field, c) ∷ more) known = note_changes e more (
    record {
      field = field;
      from = c.from;
      to = c.to;
      actor_id = e.actor_id;
      actor_name = e.actor_name;
      at = e.timestamp;
    }
    ∷ known)

unfoldable pub drop_project : ℕ → Engine → Engine
unfolding del
drop_project id s =
    emit (remove id) (record s { projects = del id s.projects; pending = del id s.pending })

unfoldable pub update_project : ℕ → DomainEvent → Engine → Engine
unfolding get put merge_event note_changes view
update_project id e s =
    let merged = merge_event (current_or_blank id e (get id s.projects)) e in
    let known = note_changes e e.changes (list_of (get id s.recent)) in
    let t = record s {
      projects = put id merged s.projects;
      recent = put id (take 20 known) s.recent;
    } in
    emit (upsert id (view t id) server) t

-- `commit`.
unfoldable pub commit : ℕ → DomainEvent → Engine → Engine
unfolding drop_project update_project
commit id e s =
    let t = record s { metrics = record (s.metrics) { applied = s.metrics.applied + 1 } } in
    if is_removal e.event_type then drop_project id t else update_project id e t

-- `recover`, up to the request: the version held is sent to the server, once per project.
unfoldable pub recover : ℕ → Engine → Engine
unfolding has put server_version
recover id s = if has id s.recovering then s else record s {
  metrics = record (s.metrics) { recoveries = s.metrics.recoveries + 1 };
  recovering = put id (server_version s id) s.recovering;
}

-- An event of a project that is not held: nothing is patched, listeners are told.
unfoldable pub signal_unseen : ℕ → DomainEvent → EventType → Engine → Engine × ApplyOutcome
signal_unseen id e project_created s = (emit (collection_stale created id) s, applied)
signal_unseen id e project_updated s =
    if truthy e.context.workspace_before
    then (emit (collection_stale moved_in id) s, applied)
    else (s, ignored)
signal_unseen id e project_deleted s = (emit (remove id) s, applied)
signal_unseen id e project_removed s = (emit (remove id) s, applied)
signal_unseen id e _ s = (s, ignored)

-- The switch of `applyEvent`.
unfoldable pub decide_held : ℕ → DomainEvent → EventDecision → Engine → Engine × ApplyOutcome
unfolding commit buffer recover
decide_held id e apply s = (commit id e s, applied)
decide_held id e stale s =
    (record s { metrics = record (s.metrics) { stale = s.metrics.stale + 1 } }, stale_event)
decide_held id e unknown_aggregate s = (s, ignored)
decide_held id e (gap _ _) s =
    let t = record s { metrics = record (s.metrics) { gaps = s.metrics.gaps + 1 } } in
    (recover id (buffer id e t), is_recovering)

-- `applyEvent` behind the duplicate test.
unfoldable pub apply_new : ℕ → DomainEvent → Engine → Engine × ApplyOutcome
unfolding has buffer signal_unseen decide_held server_version decide_event
apply_new id e s =
    if has id s.recovering
    then (buffer id e s, is_recovering)
    else if has id s.projects
    then decide_held id e (decide_event (server_version s id) e) s
    else signal_unseen id e e.event_type s

-- `applyEvent`.
unfoldable pub apply_event : Runtime → DomainEvent → Engine → Engine × ApplyOutcome
unfolding seen apply_new
apply_event rt e s =
    if is_project e.aggregate_type
    then (let (seen_events, again) = seen s.seen_events e.event_id in
        let t = record s { seen_events = seen_events } in
        if again
        then (
          record t { metrics = record (s.metrics) { duplicates = s.metrics.duplicates + 1 } },
          duplicate,
        )
        else apply_new (rt.number_of e.aggregate_id) e t)
    else (s, ignored)

-- The part of `replay` for a project that is held.
unfoldable pub replay_held : ℕ → DomainEvent → EventDecision → Engine → Engine
unfolding commit buffer recover
replay_held id e apply s = commit id e s
replay_held id e (gap _ _) s = recover id (buffer id e s)
replay_held id e _ s = s

-- `replay` and `applyUnseen`, which call each other on the two sides of one test.
unfoldable pub replay : Runtime → DomainEvent → Engine → Engine
unfolding has replay_held signal_unseen server_version decide_event
replay rt e s =
    let id = rt.number_of e.aggregate_id in
    if has id s.projects
    then replay_held id e (decide_event (server_version s id) e) s
    else (signal_unseen id e e.event_type s).0
