-- ===== src/Store.antt =====
-- server/infra/mysqlProjectStore.ts behind server/domain/ports.ts: the tables that a project write
-- touches, as lists and maps, and the statements of `txAdapter` as functions of them. A transaction
-- is a function that returns the new tables or an error; an error leaves the tables as they were.
-- Columns hold values in the form in which they travel (a date is its text).
pub mod Log
pub mod Since
use bahn_project_manager.Prelude.{
  ℕ, ◌+◌, Bool, true, false, not, ◌&&◌, ◌||◌, Option, none, some, List, [], ◌∷◌, ◌++◌, map, any,
  find, filter, take, if◌then◌else◌, get, put, del, nat_eq, text_eq, nat_beq, Text, text_beq,
  text_beq_iff, ltb, length, Eq, arith, ◌≡◌, ◌↔◌,
}
use bahn_project_manager.Runtime.{Runtime}
use bahn_project_manager.Event.{
  DomainEvent, AggregateType, project, presence, notification, checklist, booking,
}
use bahn_project_manager.Event.Order.{sort_by_version}
use bahn_project_manager.Booking.Contract.{AggregateConflict}
use bahn_project_manager.Project.{ProjectDetail, Review, ReviewField, Fields, ConflictInfo}

pub record ProjectRow : Type 0 where
  pub id : ℕ
  pub sync_version : ℕ
  pub fields : Fields
  pub created_at : Text
  pub updated_at : Text

pub record ReviewRow : Type 0 where
  pub project_id : ℕ
  pub review : Review

pub data AuditAction : Type 0 where
  create update delete : AuditAction

pub data AuditEntity : Type 0 where
  project_entity pruefbericht_entity booking_entity : AuditEntity

pub record AuditRow : Type 0 where
  pub user_id : Option ℕ
  pub user_name : Text
  pub entity : AuditEntity
  pub entity_id : ℕ
  pub action : AuditAction
  pub field : Option Text
  pub old_value : Option Text
  pub new_value : Option Text
  pub event_id : Text
  pub aggregate_version : Option ℕ
  pub trace_id : Text
  pub workspace : Option Text
  pub entity_label : Option Text

-- A row of `domain_events`: the numeric id of its aggregate, and the envelope.
pub record EventRow : Type 0 where
  pub aggregate : ℕ
  pub event : DomainEvent

pub record MutationResult : Type 0 where
  pub project : Option ProjectDetail
  pub event_id : Text
  pub replayed : Bool

pub record KeyRow : Type 0 where
  pub operation : Text
  pub request_hash : Text
  pub response : Option MutationResult

pub record NotificationRow : Type 0 where
  pub user_id : Text
  pub kind : Text
  pub title : Text
  pub body : Option Text
  pub link : Text
  pub workspace : Option Text
  pub event_id : Text
  pub dedup_key : Text

-- A Prüfbericht, as far as a project's deletion touches it: its label is "year / number".
pub record ReportRow : Type 0 where
  pub id : ℕ
  pub project_id : Option ℕ
  pub link_source : Option Text
  pub linked_at : Option Text
  pub version : ℕ
  pub label : Text

pub record Db : Type 0 where
  pub projects : List (ℕ × ProjectRow)
  pub reviews : List ReviewRow
  pub audit : List AuditRow
  pub events : List EventRow
  pub keys : List ((Text × Text) × KeyRow)  -- by actor and idempotency key
  pub notifications : List NotificationRow
  pub watchers : List (ℕ × Text)
  pub reports : List ReportRow
  pub next_project : ℕ  -- AUTO_INCREMENT
  pub next_review : ℕ
  pub issued : ℕ  -- how many random ids have been drawn

pub data Error : Type 0 where
  not_found forbidden validation idempotency_key_reuse duplicate_event no_response lost_lock : Error
  conflict : ConflictInfo → Error
  aggregate_conflict : AggregateConflict → Error

pub data Result {ℓ} (A : Type ℓ) : Type ℓ where
  ok : A → Result A
  err : Error → Result A

infixl 5 ◌>>=◌
abbrev pub ◌>>=◌ {ℓ κ} : {A : Type ℓ} {B : Type κ} → Result A → (A → Result B) → Result B
ok a >>= f = f a
err e >>= f = err e

-- `SELECT … WHERE id = ? FOR UPDATE`.
unfoldable pub lock_project : ℕ → Db → Option ProjectRow
unfolding get
lock_project id db = get id db.projects

-- `{ ...columns, ...set }`.
unfoldable pub set_fields : Fields → Fields → Fields
unfolding put
set_fields [] fields = fields
set_fields ((key, v) ∷ more) fields = set_fields more (put key v fields)

abbrev versioned : ℕ → Fields → Option ProjectRow → Option ProjectRow
versioned expected set none = none
versioned expected set (some r) =
    if nat_beq r.sync_version expected
    then some (record r { sync_version = expected + 1; fields = set_fields set r.fields })
    else none

abbrev stored : ℕ → Option ProjectRow → Db → Db × Bool
stored id none db = (db, false)
stored id (some r) db = (record db { projects = put id r db.projects }, true)

-- `UPDATE … SET …, syncVersion = expected + 1 WHERE id = ? AND syncVersion = expected`.
unfoldable pub update_versioned : ℕ → ℕ → Fields → Db → Db × Bool
unfolding get put set_fields
update_versioned id expected set db = stored id (versioned expected set (get id db.projects)) db

-- `INSERT INTO projects`.
unfoldable pub insert_project : Fields → Text → Db → Db × ℕ
unfolding put
insert_project fields at db =
    let row : ProjectRow = record {
      id = db.next_project;
      sync_version = 1;
      fields = fields;
      created_at = at;
      updated_at = at;
    } in
    (
      record db {
        projects = put db.next_project row db.projects;
        next_project = db.next_project + 1;
      },
      db.next_project,
    )

-- `SELECT … FROM department_reviews WHERE projectId = ? AND department = ? FOR UPDATE`.
unfoldable pub lock_review : ℕ → Text → Db → Option ReviewRow
lock_review project_id department db =
    find (λ r. nat_beq r.project_id project_id && text_beq r.review.department department)
      db.reviews

-- `INSERT INTO department_reviews`.
unfoldable pub insert_review : ℕ → Review → Db → Db
insert_review project_id v db = record db {
  reviews =
      db.reviews
      ++ record { project_id = project_id; review = record v { id = db.next_review } } ∷ [];
  next_review = db.next_review + 1;
}

-- `UPDATE department_reviews SET … WHERE id = ?`.
unfoldable pub update_review : ℕ → (Review → Review) → Db → Db
update_review id f db = record db {
  reviews =
      map (λ r. if nat_beq r.review.id id then record r { review = f r.review } else r) db.reviews;
}

-- `deleteProject`: the row, its reviews and its watchers.
unfoldable pub delete_project : ℕ → Db → Db
unfolding del
delete_project id db = record db {
  projects = del id db.projects;
  reviews = filter (λ r. not (nat_beq r.project_id id)) db.reviews;
  watchers = filter (λ w. not (nat_beq w.0 id)) db.watchers;
}

abbrev is_linked : ℕ → ReportRow → Bool
is_linked id r = elim r.project_id [ none ↦ false | some linked ↦ nat_beq linked id ]

abbrev without_link : ReportRow → ReportRow
without_link r = record r {
  project_id = none;
  link_source = none;
  linked_at = none;
  version = r.version + 1;
}

-- `unlinkPruefberichteOf`: the reports of the project, and the tables without the links.
unfoldable pub unlink_reports : ℕ → Db → List ReportRow × Db
unlink_reports id db = (
  filter (is_linked id) db.reports,
  record db { reports = map (λ r. if is_linked id r then without_link r else r) db.reports },
)

unfoldable pub watchers_of : ℕ → Db → List Text
watchers_of id db = map (λ w. w.1) (filter (λ w. nat_beq w.0 id) db.watchers)

abbrev pub detail_of : ProjectRow → List Review → ProjectDetail
detail_of r reviews = record {
  id = r.id;
  version = r.sync_version;
  updated_at = r.updated_at;
  created_at = r.created_at;
  fields = r.fields;
  reviews = reviews;
}

abbrev reviews_of : ℕ → List ReviewRow → List Review
reviews_of id rows = map (λ r. r.review) (filter (λ r. nat_beq r.project_id id) rows)

abbrev pub detail_from : List Review → Option ProjectRow → Option ProjectDetail
detail_from reviews none = none
detail_from reviews (some r) = some (detail_of r reviews)

-- `loadDetail`; the collation that orders the departments is the database's.
unfoldable pub detail : (List Review → List Review) → ℕ → Db → Option ProjectDetail
unfolding get
detail by_department id db =
    detail_from (by_department (reviews_of id db.reviews)) (get id db.projects)

unfoldable pub append_audit : List AuditRow → Db → Db
append_audit rows db = record db { audit = db.audit ++ rows }

abbrev pub same_type : AggregateType → AggregateType → Bool
same_type project project = true
same_type presence presence = true
same_type notification notification = true
same_type checklist checklist = true
same_type booking booking = true
same_type _ _ = false

-- The two unique indexes of `domain_events`.
abbrev pub collides : EventRow → EventRow → Bool
collides a b =
    text_beq a.event.event_id b.event.event_id
    || (same_type a.event.aggregate_type b.event.aggregate_type
        && nat_beq a.aggregate b.aggregate
        && nat_beq a.event.aggregate_version b.event.aggregate_version)

-- `appendEvent`.
unfoldable pub append_event : Runtime → DomainEvent → Db → Result Db
append_event rt e db =
    let row : EventRow = record { aggregate = rt.number_of e.aggregate_id; event = e } in
    if any (collides row) db.events
    then err duplicate_event
    else ok (record db { events = db.events ++ row ∷ [] })

-- `loadEventsSince`: the events of one project behind a version, in the order of their versions.
abbrev pub is_since : ℕ → ℕ → EventRow → Bool
is_since id after r =
    same_type r.event.aggregate_type project
    && nat_beq r.aggregate id
    && ltb after r.event.aggregate_version

unfoldable pub events_since : ℕ → ℕ → ℕ → Db → List DomainEvent
unfolding sort_by_version
events_since id after limit db =
    take limit (sort_by_version (map (λ r. r.event) (filter (is_since id after) db.events)))

pub data Claim : Type 0 where
  fresh mismatch : Claim
  replay : Option MutationResult → Claim

abbrev pub key_beq : Text × Text → Text × Text → Bool
key_beq a b = text_beq a.0 b.0 && text_beq a.1 b.1

pub key_beq_iff : (a b : Text × Text) → (key_beq a b ≡ true) ↔ (a ≡ b)
key_beq_iff a b = ground (arith, text_beq_iff a.0 b.0, text_beq_iff a.1 b.1)

instance abbrev pub key_eq : Eq (Text × Text)
key_eq = record { beq = key_beq; beq_iff = key_beq_iff }

abbrev pub new_key : Text → Text → KeyRow
new_key operation request_hash = record {
  operation = operation;
  request_hash = request_hash;
  response = none;
}

abbrev pub claimed : Text → Text → Text → Text → Option KeyRow → Db → Db × Claim
claimed actor key operation request_hash none db =
    (record db { keys = put (actor, key) (new_key operation request_hash) db.keys }, fresh)
claimed actor key operation request_hash (some row) db = (
  db,
  (if not (text_beq row.request_hash request_hash) || not (text_beq row.operation operation)
      then mismatch
      else replay row.response),
)

-- `claimIdempotency`: INSERT IGNORE, then the row of the holder.
unfoldable pub claim_idempotency : Text → Text → Text → Text → Db → Db × Claim
unfolding get put
claim_idempotency actor key operation request_hash db =
    claimed actor key operation request_hash (get (actor, key) db.keys) db

abbrev pub completed : Text → Text → MutationResult → Option KeyRow → Db → Db
completed actor key response none db = db
completed actor key response (some row) db = record db {
  keys = put (actor, key) (record row { response = some response }) db.keys;
}

-- `completeIdempotency`.
unfoldable pub complete_idempotency : Text → Text → MutationResult → Db → Db
unfolding get put
complete_idempotency actor key response db =
    completed actor key response (get (actor, key) db.keys) db

-- `insertNotification`: null, here false, when the recipient holds one with this dedup key. The
-- id that MySQL gives is the position in the table.
unfoldable pub insert_notification : NotificationRow → Db → Db × Option ℕ
insert_notification row db =
    if any (λ r. text_beq r.user_id row.user_id && text_beq r.dedup_key row.dedup_key)
      db.notifications
    then (db, none)
    else (
      record db { notifications = db.notifications ++ row ∷ [] },
      some (length db.notifications + 1),
    )
