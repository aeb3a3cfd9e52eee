-- ===== src/Service/Reviews.antt =====
-- server/domain/projectService.ts: `updateReview` and `createReview`, edits of the review of one
-- department through the version, the events and the keys of its project.
use bahn_project_manager.Prelude.{
  ℕ, ◌+◌, Bool, true, false, not, Option, none, some, List, [], ◌∷◌, map, if◌then◌else◌, nat_eq,
  text_eq, nat_beq, Text, opt_text_beq, codes, split_at,
}
use bahn_project_manager.Event.{DomainEvent, Changes, FieldChange, project_updated}
use bahn_project_manager.Permissions.{Principal, can_view_project, can_approve_review}
use bahn_project_manager.Project.{Fields, Review, ReviewField, review_change_key, review_field_of}
use bahn_project_manager.Sync.Engine.{set_review_field}
use bahn_project_manager.Store.{
  Db, ProjectRow, ReviewRow, Result, ok, err, ◌>>=◌, not_found, forbidden, validation, conflict,
  lock_project, lock_review, insert_review, update_review, update_versioned, detail,
}
use bahn_project_manager.Service.{
  Env, review_request, column, workspace_of, build_event, conflict_of,
}
use bahn_project_manager.Service.Write.{Answer, publish, keyed, routed, or_current}

-- The fields of a review that a request names, with canonical values.
abbrev pub ReviewFields : Type 0
ReviewFields = List (ReviewField × Option Text)

unfoldable pub clean_review_field : Env → ReviewField → Option Text → Option (Option Text)
clean_review_field env ReviewField.datum v = env.clean_date v
clean_review_field env _ v = some (env.clean v)

unfoldable pub clean_review : Env → ReviewFields → Result ReviewFields
unfolding clean_review_field
clean_review env [] = ok []
clean_review env ((f, v) ∷ more) = elim (clean_review_field env f v) [
  | none ↦ err validation
  | some w ↦ do rest ← clean_review env more; ok ((f, w) ∷ rest)
]

-- `reviewWire`.
abbrev pub review_wire : ReviewField → Review → Option Text
review_wire ReviewField.status r = r.status
review_wire ReviewField.pruefer_name r = r.pruefer_name
review_wire ReviewField.datum r = r.datum

-- The fields that change, under their keys.
unfoldable pub review_diff : Text → Review → ReviewFields → Changes
review_diff department r [] = []
review_diff department r ((f, to) ∷ more) =
    let rest = review_diff department r more in
    if opt_text_beq (review_wire f r) to
    then rest
    else (review_change_key department f, record { from = review_wire f r; to = to }) ∷ rest

abbrev pub local_review_values : Text → ReviewFields → Fields
local_review_values department norm = map (λ c. (review_change_key department c.0, c.1)) norm

unfoldable pub set_review : ReviewFields → Review → Review
set_review [] r = r
set_review ((f, v) ∷ more) r = set_review more (set_review_field f v r)

abbrev behind_dot : Option (Text × Text) → Text
behind_dot none = []
behind_dot (some parts) = parts.1

abbrev before_dot : Text → Option (Text × Text) → Text
before_dot s none = s
before_dot s (some parts) = parts.0

-- `key.split(".")[2]`.
unfoldable pub third_segment : Text → Text
unfolding split_at
third_segment key =
    let rest = behind_dot (split_at b'.' (behind_dot (split_at b'.' key))) in
    before_dot rest (split_at b'.' rest)

-- `reviewValueOf`.
abbrev pub review_value_of : Review → Text → Option Text
review_value_of r key = elim (review_field_of (third_segment key)) [
  | none ↦ none
  | some f ↦ review_wire f r
]

pub record ReviewInput : Type 0 where
  pub project_id : ℕ
  pub department : Text
  pub expected_version : ℕ
  pub fields : ReviewFields
  pub key : Text

unfoldable pub reviewed_event :
    Env → Principal → Text → ReviewInput → ProjectRow → Changes → ℕ → DomainEvent
unfolding build_event
reviewed_event env p trace input current changes drawn =
    build_event env project_updated p trace input.project_id (input.expected_version + 1) changes
      (routed (workspace_of current) none) drawn

-- The end of both writes, after the guarded UPDATE of the project's version.
unfoldable pub after_review :
    Env
    → Principal
    → Text
    → ReviewInput
    → ProjectRow
    → Changes
    → Fields
    → (Text → Option Text)
    → Db × Bool
    → Answer
unfolding reviewed_event publish lock_project conflict_of
after_review env p trace input current changes local_values value_of (written, true) =
    publish env p (reviewed_event env p trace input current changes written.issued) input.project_id
      current changes (column (codes "station") current.fields) written
after_review env p trace input current changes local_values value_of (written, false) = err (
    conflict (
      conflict_of env written (or_current current (lock_project input.project_id written))
        input.project_id input.expected_version local_values value_of))

unfoldable pub write_review :
    Env
    → Principal
    → Text
    → ReviewInput
    → ReviewFields
    → ProjectRow
    → Review
    → Changes
    → Db
    → Answer
unfolding update_review set_review update_versioned after_review detail
write_review env p trace input norm current review [] db = ok (
  record {
    project = detail env.by_department input.project_id db;
    event_id = [];
    replayed = false;
  },
  db,
)
write_review env p trace input norm current review (c ∷ cs) db =
    after_review env p trace input current (c ∷ cs) (local_review_values input.department norm)
      (review_value_of review)
      (update_versioned input.project_id input.expected_version []
        (update_review review.id (set_review norm) db))

-- The guards of `updateReview`, in their order.
unfoldable pub update_review_row :
    Env
    → Principal
    → Text
    → ReviewInput
    → ReviewFields
    → ProjectRow
    → Option ReviewRow
    → Db
    → Answer
unfolding write_review review_diff conflict_of can_view_project can_approve_review
update_review_row env p trace input norm current found db =
    if not (can_view_project env.rt p (workspace_of current))
    then err not_found
    else if not (can_approve_review env.rt p (workspace_of current) input.department)
    then err forbidden
    else elim found [
      | none ↦ err not_found
      | some r ↦
          if not (nat_beq current.sync_version input.expected_version)
          then err (
              conflict (
                conflict_of env db current input.project_id input.expected_version
                  (local_review_values input.department norm) (review_value_of r.review)))
          else write_review env p trace input norm current r.review
              (review_diff input.department r.review norm) db
    ]

abbrev pub update_review_found :
    Env → Principal → Text → ReviewInput → ReviewFields → Option ProjectRow → Db → Answer
update_review_found env p trace input norm none db = err not_found
update_review_found env p trace input norm (some current) db =
    update_review_row env p trace input norm current
      (lock_review input.project_id input.department db) db

abbrev pub request_fields : Text → ReviewFields → Fields
request_fields department norm =
    (codes "department", some department) ∷ local_review_values department norm

-- `updateReview`.
unfoldable pub update_review_by : Env → Principal → ReviewInput → Text → Db → Answer
unfolding clean_review keyed update_review_row lock_project lock_review
update_review_by env p input trace db = do
  norm ← clean_review env input.fields
  keyed p.id input.key (codes "project.updateReview")
      (env.request_hash (codes "project.updateReview") (
        review_request input.project_id input.expected_version
          (request_fields input.department norm)))
      (λ d. update_review_found env p trace input norm (lock_project input.project_id d) d) db

-- `norm[f] ?? null`.
unfoldable pub named_value : ReviewField → ReviewFields → Option Text
named_value f [] = none
named_value f ((g, v) ∷ more) =
    let rest = named_value f more in
    elim f [
      | ReviewField.status ↦ elim g [ ReviewField.status ↦ v | _ ↦ rest ]
      | ReviewField.pruefer_name ↦ elim g [ ReviewField.pruefer_name ↦ v | _ ↦ rest ]
      | ReviewField.datum ↦ elim g [ ReviewField.datum ↦ v | _ ↦ rest ]
    ]

abbrev from_null : Text → ReviewFields → ReviewField → Text × FieldChange
from_null department norm f =
    (review_change_key department f, record { from = none; to = named_value f norm })

-- The three changes of a new review.
abbrev pub new_review_changes : Text → ReviewFields → Changes
new_review_changes department norm =
    from_null department norm ReviewField.status
    ∷ from_null department norm ReviewField.pruefer_name
    ∷ from_null department norm ReviewField.datum
    ∷ []

abbrev pub new_review : Env → Text → ReviewFields → Review
new_review env department norm = record {
  id = 0;
  department = department;
  pruefer_name = named_value ReviewField.pruefer_name norm;
  datum = named_value ReviewField.datum norm;
  status = named_value ReviewField.status norm;
  updated_at = env.now;
}

abbrev pub is_held {ℓ} : {A : Type ℓ} → Option A → Bool
is_held none = false
is_held (some _) = true

-- The guards of `createReview`, in their order, and its writes.
unfoldable pub create_review_row :
    Env → Principal → Text → ReviewInput → ReviewFields → ProjectRow → Db → Answer
unfolding insert_review update_versioned after_review conflict_of lock_review can_view_project
    can_approve_review named_value
create_review_row env p trace input norm current db =
    let changes = new_review_changes input.department norm in
    let local_values = map (λ c. (c.0, c.1.to)) changes in
    if not (can_view_project env.rt p (workspace_of current))
    then err not_found
    else if not (can_approve_review env.rt p (workspace_of current) input.department)
    then err forbidden
    else if not (nat_beq current.sync_version input.expected_version)
    then err (
        conflict (
          conflict_of env db current input.project_id input.expected_version local_values
            (λ key. none)))
    else if is_held (lock_review input.project_id input.department db)
    then err validation
    else after_review env p trace input current changes local_values (λ key. none)
        (update_versioned input.project_id input.expected_version []
          (insert_review input.project_id (new_review env input.department norm) db))

abbrev pub create_review_found :
    Env → Principal → Text → ReviewInput → ReviewFields → Option ProjectRow → Db → Answer
create_review_found env p trace input norm none db = err not_found
create_review_found env p trace input norm (some current) db =
    create_review_row env p trace input norm current db

-- `createReview`.
unfoldable pub create_review_by : Env → Principal → ReviewInput → Text → Db → Answer
unfolding clean_review keyed create_review_row lock_project
create_review_by env p input trace db = do
  norm ← clean_review env input.fields
  keyed p.id input.key (codes "project.createReview")
      (env.request_hash (codes "project.createReview") (
        review_request input.project_id input.expected_version
          (request_fields input.department norm)))
      (λ d. create_review_found env p trace input norm (lock_project input.project_id d) d) db
