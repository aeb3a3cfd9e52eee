-- ===== src/Service.antt =====
-- server/domain/projectService.ts: the write path of projects and the recovery reads. The parts
-- that other code decides come in as `Env`: the canonical form of one value (cleanStr,
-- normalizeBahnhofsmanagement, Date), the hash of a request, random ids, the clock, the text of a
-- notification, and JSON.
pub mod Frame
pub mod Keyed
pub mod Write
pub mod Guards
pub mod Outcomes
pub mod Deletion
pub mod Create
pub mod Reviews
pub mod Reviewed
pub mod ReviewLog
pub mod Within
pub mod Server
pub mod Feed
pub mod Reads
pub mod Refusals
pub mod Missed
use bahn_project_manager.Prelude.{
  ℕ, ◌+◌, Bool, true, false, not, Option, none, some, List, [], ◌∷◌, ◌++◌, map, any, filter,
  if◌then◌else◌, get, put, has, text_eq, Text, text_beq, opt_text_beq, codes, nat_beq, leb, length,
  all, is_digit, take, ◌&&◌,
}
use bahn_project_manager.Runtime.{Runtime}
use bahn_project_manager.Event.{
  DomainEvent, EventType, project, notification, notification_created, FieldChange, Changes,
  Context,
}
use bahn_project_manager.Permissions.{Principal}
use bahn_project_manager.Project.{
  Review, Fields, LastChange, ConflictInfo, editable_project_fields, ProjectDetail,
}
use bahn_project_manager.Store.{
  Db, ProjectRow, AuditRow, AuditAction, AuditEntity, project_entity, NotificationRow, Error,
  conflict, validation, Result, ok, err, ◌>>=◌, append_event, insert_notification, watchers_of,
  events_since, detail, detail_of,
}

-- The text of a notification.
pub record Planned : Type 0 where
  pub kind : Text
  pub title : Text
  pub body : Option Text
  pub link : Text

-- What is hashed of a request.
pub data Request : Type 0 where
  update_request delete_request review_request : ℕ → ℕ → Fields → Request
  create_request : Fields → Request

pub record Env : Type 0 where
  pub rt : Runtime
  pub open rt use {string_of, number_of}
  -- Canonical values; `none` of the outer option is a ValidationError.
  pub clean : Option Text → Option Text
  pub clean_bahnhofsmanagement : Option Text → Option (Option Text)
  pub clean_date : Option Text → Option (Option Text)
  pub request_hash : Text → Request → Text
  pub uuid : ℕ → Text
  pub now : Text
  -- `planNotification` of an event, for a project's id, Projektnummer and station.
  pub plan : DomainEvent → ℕ → Option Text → Option Text → Option Planned
  pub snapshot : Option ProjectDetail → Option Text
  pub by_department : List Review → List Review

-- `value !== undefined ? value : null` of a column.
abbrev pub column : Text → Fields → Option Text
column key fields = elim (get key fields) [ none ↦ none | some v ↦ v ]

abbrev pub workspace_of : ProjectRow → Option Text
workspace_of r = column (codes "bahnhofsmanagement") r.fields

-- The canonical form of one field.
unfoldable pub normalize_field : Env → Text → Option Text → Option (Option Text)
normalize_field env key raw =
    if text_beq key (codes "bahnhofsmanagement")
    then env.clean_bahnhofsmanagement raw
    else if text_beq key (codes "terminProjektvorstellung")
    then env.clean_date raw
    else some (env.clean raw)

-- The loop of `normalizePatch` over the editable fields.
unfoldable pub normalize_from : Env → Fields → List Text → Result Fields
unfolding normalize_field get
normalize_from env patch [] = ok []
normalize_from env patch (key ∷ keys) = elim (get key patch) [
  | none ↦ normalize_from env patch keys
  | some raw ↦ elim (normalize_field env key raw) [
    | none ↦ err validation
    | some v ↦ do more ← normalize_from env patch keys; ok ((key, v) ∷ more)
  ]
]

unfoldable pub normalize_patch : Env → Fields → Result Fields
unfolding normalize_from
normalize_patch env patch = normalize_from env patch editable_project_fields

-- `diffOf`: the fields whose canonical value differs from the column.
unfoldable pub diff_of : Fields → Fields → Changes
unfolding get
diff_of current [] = []
diff_of current ((key, to) ∷ more) =
    let rest = diff_of current more in
    if opt_text_beq (column key current) to
    then rest
    else (key, record { from = column key current; to = to }) ∷ rest

abbrev pub new_fields : Changes → Fields
new_fields changes = map (λ c. (c.0, c.1.to)) changes

-- `buildEvent`, with the random id that is drawn.
unfoldable pub build_event :
    Env → EventType → Principal → Text → ℕ → ℕ → Changes → Context → ℕ → DomainEvent
build_event env event_type p trace id version changes context drawn = record {
  event_id = env.uuid drawn;
  feed_seq = none;
  event_type = event_type;
  aggregate_type = project;
  aggregate_id = env.rt.string_of id;
  aggregate_version = version;
  actor_id = p.id;
  actor_name = p.name;
  timestamp = env.now;
  trace_id = trace;
  changes = changes;
  context = context;
}

abbrev pub or_text : Option Text → Text → Text
or_text none t = t
or_text (some []) t = t
or_text (some (c ∷ s)) t = c ∷ s

-- `principal.name || principal.email || principal.id`.
abbrev pub user_name : Principal → Text
user_name p = or_text p.name (or_text p.email p.id)

-- `actorNumericId`.
abbrev pub actor_numeric_id : Env → Principal → Option ℕ
actor_numeric_id env p =
    if leb 1 (length p.id) && all is_digit p.id then some (env.rt.number_of p.id) else none

abbrev non_empty : Text → Option Text
non_empty [] = none
non_empty (c ∷ s) = some (c ∷ s)

abbrev trimmed : Env → Option Text → Option Text
trimmed env none = none
trimmed env (some s) = non_empty (env.rt.trim s)

abbrev label_from : Option Text → Option Text → Option Text
label_from none none = none
label_from none (some nummer) = some (take 255 nummer)
label_from (some station) nummer = some (take 255 station)

-- `labelOf`.
abbrev pub label_of : Env → Option Text → Option Text → Option Text
label_of env station nummer = label_from (trimmed env station) (trimmed env nummer)

abbrev audit_row : Env → Principal → DomainEvent → AuditAction → Option Text → AuditRow
audit_row env p e action label = record {
  user_id = actor_numeric_id env p;
  user_name = user_name p;
  entity = project_entity;
  entity_id = env.rt.number_of e.aggregate_id;
  action = action;
  field = none;
  old_value = none;
  new_value = none;
  event_id = e.event_id;
  aggregate_version = some e.aggregate_version;
  trace_id = e.trace_id;
  workspace = e.context.workspace;
  entity_label = label;
}

-- `auditRows`.
unfoldable pub audit_rows :
    Env
    → Principal
    → DomainEvent
    → AuditAction
    → Changes
    → Option Text
    → Option Text
    → List AuditRow
audit_rows env p e action [] label snapshot =
    record (audit_row env p e action label) { old_value = snapshot } ∷ []
audit_rows env p e action (c ∷ cs) label snapshot =
    map
      (λ d. record (audit_row env p e action label) {
        field = some d.0;
        old_value = d.1.from;
        new_value = d.1.to;
      })
      (c ∷ cs)

-- The event of one notification.
unfoldable pub notification_event :
    Env → Principal → DomainEvent → Planned → Text → ℕ → ℕ → DomainEvent
notification_event env p e plan user id drawn = record {
  event_id = env.uuid drawn;
  feed_seq = none;
  event_type = notification_created;
  aggregate_type = notification;
  aggregate_id = env.rt.string_of id;
  aggregate_version = 1;
  actor_id = p.id;
  actor_name = p.name;
  timestamp = env.now;
  trace_id = e.trace_id;
  changes =
      (codes "kind", record { from = none; to = some plan.kind })
      ∷ (codes "title", record { from = none; to = some plan.title })
      ∷ (codes "body", record { from = none; to = plan.body })
      ∷ (codes "link", record { from = none; to = some plan.link })
      ∷ (codes "sourceEventId", record { from = none; to = some e.event_id })
      ∷ [];
  context = record {
    workspace = e.context.workspace;
    workspace_before = none;
    recipient = some user;
  };
}

-- A stored notification is announced by an event; a repeated one is not.
abbrev pub announce : Env → Principal → DomainEvent → Planned → Text → Db × Option ℕ → Result Db
announce env p e plan user (db, none) = ok db
announce env p e plan user (db, some n) =
    append_event env.rt (notification_event env p e plan user n db.issued)
      (record db { issued = db.issued + 1 })

abbrev pub notification_row : DomainEvent → Planned → Text → NotificationRow
notification_row e plan user = record {
  user_id = user;
  kind = plan.kind;
  title = plan.title;
  body = plan.body;
  link = plan.link;
  workspace = e.context.workspace;
  event_id = e.event_id;
  dedup_key = codes "event:" ++ e.event_id;
}

-- One round of the loop of `notifyWatchers`.
unfoldable pub notify_one : Env → Principal → DomainEvent → Planned → Text → Db → Result Db
unfolding insert_notification append_event notification_event
notify_one env p e plan user db =
    if text_beq user p.id
    then ok db
    else announce env p e plan user (insert_notification (notification_row e plan user) db)

unfoldable pub notify_each : Env → Principal → DomainEvent → Planned → List Text → Db → Result Db
unfolding notify_one
notify_each env p e plan [] db = ok db
notify_each env p e plan (user ∷ users) db = do
  db' ← notify_one env p e plan user db
  notify_each env p e plan users db'

-- `notifyWatchers`.
unfoldable pub notify_watchers :
    Env → Principal → DomainEvent → ℕ → Option Text → Option Text → Db → Result Db
unfolding notify_each watchers_of
notify_watchers env p e id nummer station db = elim (env.plan e id nummer station) [
  | none ↦ ok db
  | some plan ↦ notify_each env p e plan (watchers_of id db) db
]

-- The merging of the missed changes in `conflict`: the first old value and the last new one.
abbrev first_from : Option FieldChange → FieldChange → Option Text
first_from none c = c.from
first_from (some old) c = elim old.from [ none ↦ c.from | some v ↦ some v ]

unfoldable pub merge_changes : Changes → Changes → Changes
unfolding get put
merge_changes known [] = known
merge_changes known ((f, c) ∷ more) =
    merge_changes (put f (record { from = first_from (get f known) c; to = c.to }) known) more

unfoldable pub changed_since : Changes → List DomainEvent → Changes
unfolding merge_changes
changed_since known [] = known
changed_since known (e ∷ es) = changed_since (merge_changes known e.changes) es

abbrev pub is_empty {ℓ} : {A : Type ℓ} → List A → Bool
is_empty [] = true
is_empty (_ ∷ _) = false

abbrev or_row : ProjectRow → Option ProjectDetail → ProjectDetail
or_row r none = detail_of r []
or_row r (some d) = d

abbrev last_change : List DomainEvent → Option LastChange
last_change [] = none
last_change (e ∷ []) =
    some (record { actor_id = e.actor_id; actor_name = e.actor_name; at = e.timestamp })
last_change (e ∷ d ∷ es) = last_change (d ∷ es)

-- `conflict`.
unfoldable pub conflict_of :
    Env → Db → ProjectRow → ℕ → ℕ → Fields → (Text → Option Text) → ConflictInfo
unfolding events_since changed_since detail has
conflict_of env db current id expected local_values server_value_of =
    let missed = events_since id expected 100 db in
    let since = changed_since [] missed in
    let keys = map (λ f. f.0) local_values in
    let conflicting = filter (λ f. has f since) keys in
    record {
      project_id = id;
      expected_version = expected;
      current_version = current.sync_version;
      server_values = map (λ f. (f, server_value_of f)) keys;
      local_values = local_values;
      conflicting_fields = conflicting;
      changed_since = since;
      last_change = last_change missed;
      disjoint = is_empty conflicting;
      current = or_row current (detail env.by_department id db);
    }
