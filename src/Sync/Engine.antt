-- ===== src/Sync/Engine.antt =====
-- client/src/realtime/projectSyncEngine.ts: the state, `withChange`, the overlay of local edits, and
-- what the engine does with an event that arrives.
use bahn_project_manager.Prelude.{
  ◌+◌, map, length, ℕ, Bool, true, Option, none, some, List, [], ◌∷◌, ◌++◌, if◌then◌else◌, get, put,
  nat_eq, text_eq, text_beq, Text, ltb,
}
use bahn_project_manager.Event.{DomainEvent, Changes}
use bahn_project_manager.Event.Seen.{SeenEvents, empty_seen}
use bahn_project_manager.Project.{
  ProjectDetail, Review, ReviewField, status, pruefer_name, datum, Fields, parse_review_key,
}

-- `{ ...base, [field]: value }`.
abbrev pub set_review_field : ReviewField → Option Text → Review → Review
set_review_field status v r = record r { status = v }
set_review_field pruefer_name v r = record r { pruefer_name = v }
set_review_field datum v r = record r { datum = v }

-- Edit the first review of the department, or append one.
unfoldable pub edit_review : Text → ReviewField → Option Text → Text → List Review → List Review
edit_review department f v updated_at [] =
    set_review_field f v (record {
      id = 0;
      department = department;
      pruefer_name = none;
      datum = none;
      status = none;
      updated_at = updated_at;
    })
    ∷ []
edit_review department f v updated_at (r ∷ rs) =
    if text_beq r.department department
    then set_review_field f v r ∷ rs
    else r ∷ edit_review department f v updated_at rs

-- The two branches of `withChange`.
unfoldable pub write_change :
    ProjectDetail → Text → Option Text → Option (Text × ReviewField) → ProjectDetail
unfolding edit_review put
write_change p key value none = record p { fields = put key value p.fields }
write_change p key value (some (department, f)) = record p {
  reviews = edit_review department f value p.updated_at p.reviews;
}

unfoldable pub with_change : ProjectDetail → Text → Option Text → ProjectDetail
unfolding write_change
with_change p key value = write_change p key value (parse_review_key key)

unfoldable pub with_changes : ProjectDetail → Fields → ProjectDetail
with_changes p [] = p
with_changes p ((key, value) ∷ more) = with_changes (with_change p key value) more

-- The new values of an event's changes.
unfoldable pub new_values : Changes → Fields
new_values [] = []
new_values ((key, c) ∷ more) = (key, c.to) ∷ new_values more

pub data Source : Type 0 where
  server optimistic rollback : Source

pub data StaleReason : Type 0 where
  created moved_in : StaleReason

pub data ProjectChange : Type 0 where
  upsert : ℕ → Option ProjectDetail → Source → ProjectChange
  remove : ℕ → ProjectChange
  collection_stale : StaleReason → ℕ → ProjectChange

pub data ApplyOutcome : Type 0 where
  applied duplicate stale_event is_recovering ignored : ApplyOutcome

pub record RecentChange : Type 0 where
  pub field : Text
  pub from : Option Text
  pub to : Option Text
  pub actor_id : Text
  pub actor_name : Option Text
  pub at : Text

pub record Pending : Type 0 where
  pub mutation_id : Text
  pub changes : Fields

pub record Metrics : Type 0 where
  pub applied : ℕ
  pub duplicates : ℕ
  pub stale : ℕ
  pub gaps : ℕ
  pub recoveries : ℕ
  pub snapshots : ℕ

pub record Engine : Type 0 where
  pub projects : List (ℕ × ProjectDetail)  -- `server`
  pub pending : List (ℕ × List Pending)
  pub buffered : List (ℕ × List DomainEvent)
  pub recovering : List (ℕ × Option ℕ)  -- with the version that was sent to the server
  pub seen_events : SeenEvents  -- `seen`
  pub feed_cursor : Option ℕ
  pub recent : List (ℕ × List RecentChange)
  pub metrics : Metrics
  pub told : List ProjectChange  -- what the listeners were told, latest first

unfoldable pub new_engine : Engine
unfolding empty_seen
new_engine = record {
  projects = [];
  pending = [];
  buffered = [];
  recovering = [];
  seen_events = empty_seen 4096;
  feed_cursor = none;
  recent = [];
  metrics = record {
    applied = 0;
    duplicates = 0;
    stale = 0;
    gaps = 0;
    recoveries = 0;
    snapshots = 0;
  };
  told = [];
}

abbrev pub emit : ProjectChange → Engine → Engine
emit c s = record s { told = c ∷ s.told }

abbrev pub list_of {ℓ} : {A : Type ℓ} → Option (List A) → List A
list_of none = []
list_of (some xs) = xs

-- The loop over the pending edits of `view`.
unfoldable pub overlay : ProjectDetail → List Pending → ProjectDetail
unfolding with_changes
overlay p [] = p
overlay p (e ∷ more) = overlay (with_changes p e.changes) more

-- `view(id)`: server state and pending edits.
unfoldable pub view : Engine → ℕ → Option ProjectDetail
unfolding get overlay
view s id = elim (get id s.projects) [
  | none ↦ none
  | some base ↦ some (overlay base (list_of (get id s.pending)))
]

abbrev version_in : Option ProjectDetail → Option ℕ
version_in none = none
version_in (some p) = some p.version

-- `serverVersion(id)`.
unfoldable pub server_version : Engine → ℕ → Option ℕ
unfolding get
server_version s id = version_in (get id s.projects)

-- `!cur || cur.version < version`.
abbrev pub is_behind : Option ℕ → ℕ → Bool
is_behind none v = true
is_behind (some w) v = ltb w v

-- `seed`.
unfoldable pub seed : ProjectDetail → Bool → Engine → Engine
unfolding server_version put view
seed p silent s =
    if is_behind (server_version s p.id) p.version
    then (let t = record s { projects = put p.id p s.projects } in
        if silent then t else emit (upsert p.id (view t p.id) server) t)
    else s

-- `initCursor`.
unfoldable pub init_cursor : ℕ → Engine → Engine
init_cursor feed_head s = elim s.feed_cursor [
  | none ↦ record s { feed_cursor = some feed_head }
  | some c ↦ s
]

-- `buffer`.
unfoldable pub buffer : ℕ → DomainEvent → Engine → Engine
unfolding get put
buffer id e s = record s { buffered = put id (list_of (get id s.buffered) ++ e ∷ []) s.buffered }

-- `cursor`: the version held of each project.
unfoldable pub held_versions : Engine → List (ℕ × ℕ)
held_versions s = map (λ e. (e.0, e.1.version)) s.projects

-- `recentChanges`.
unfoldable pub recent_changes : ℕ → Engine → List RecentChange
unfolding get
recent_changes id s = list_of (get id s.recent)

unfoldable pub count_pending : List (ℕ × List Pending) → ℕ
count_pending [] = 0
count_pending (e ∷ es) = length e.1 + count_pending es

-- `pendingCount`.
unfoldable pub pending_count : Engine → ℕ
unfolding count_pending
pending_count s = count_pending s.pending
