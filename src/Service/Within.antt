-- ===== src/Service/Within.antt =====
-- server/domain/projectService.ts: `updateWithin`, the update that an import makes inside its own
-- transaction, of fields and of reviews at once. The row is locked by the caller.
use bahn_project_manager.Prelude.{
  ℕ, ◌+◌, Bool, true, false, not, Option, none, some, List, [], ◌∷◌, filter, if◌then◌else◌, put,
  has, nat_eq, text_eq, Text, opt_text_beq, codes, starts_with,
}
use bahn_project_manager.Event.{DomainEvent, Changes, project_updated}
use bahn_project_manager.Permissions.{Principal}
use bahn_project_manager.Project.{Fields, ReviewField, review_change_key}
use bahn_project_manager.Store.{
  Db, ProjectRow, ReviewRow, Result, ok, err, ◌>>=◌, lost_lock, lock_review, insert_review,
  update_review, update_versioned, append_audit, append_event, update,
}
use bahn_project_manager.Service.{
  Env, normalize_patch, diff_of, new_fields, build_event, column, audit_rows, label_of,
  notify_watchers,
}
use bahn_project_manager.Service.Write.{routed, left_workspace, changed_or}
use bahn_project_manager.Service.Reviews.{
  ReviewFields, clean_review, review_wire, set_review, new_review,
}

-- The review of one department in a change: the fields that it names, in the order of the code's
-- loop, status, prueferName, datum.
pub record ReviewChange : Type 0 where
  pub department : Text
  pub fields : ReviewFields

-- The value of a field of the review that is there, or null.
abbrev pub value_before : Option ReviewRow → ReviewField → Option Text
value_before none f = none
value_before (some r) f = review_wire f r.review

-- `delta`: the fields of a review that change.
unfoldable pub review_delta : Option ReviewRow → ReviewFields → ReviewFields
review_delta existing [] = []
review_delta existing ((f, v) ∷ more) =
    let rest = review_delta existing more in
    if opt_text_beq (value_before existing f) v then rest else (f, v) ∷ rest

-- The changes that a delta is recorded as.
unfoldable pub record_delta : Text → Option ReviewRow → ReviewFields → Changes → Changes
unfolding put
record_delta department existing [] known = known
record_delta department existing ((f, v) ∷ more) known =
    record_delta department existing more (
      put (review_change_key department f) (record { from = value_before existing f; to = v })
        known)

-- A write of one review that waits until all changes are known.
pub record ReviewWrite : Type 0 where
  pub department : Text
  pub existing : Option ReviewRow
  pub delta : ReviewFields

abbrev pub waiting : Text → Option ReviewRow → ReviewFields → List ReviewWrite → List ReviewWrite
waiting department existing [] more = more
waiting department existing (c ∷ cs) more =
    record { department = department; existing = existing; delta = c ∷ cs } ∷ more

-- The loop over the reviews: the changes, and the writes to make.
unfoldable pub plan_reviews :
    Env → ℕ → Db → List ReviewChange → Changes → Result (Changes × List ReviewWrite)
unfolding clean_review lock_review review_delta record_delta
plan_reviews env id db [] known = ok (known, [])
plan_reviews env id db (r ∷ more) known = do
  let existing = lock_review id r.department db
  to ← clean_review env r.fields
  let delta = review_delta existing to
  rest ← plan_reviews env id db more (record_delta r.department existing delta known)
  ok (rest.0, waiting r.department existing delta rest.1)

unfoldable pub write_reviews : Env → ℕ → List ReviewWrite → Db → Db
unfolding update_review insert_review set_review
write_reviews env id [] db = db
write_reviews env id (w ∷ more) db = elim w.existing [
  | none ↦ write_reviews env id more (insert_review id (new_review env w.department w.delta) db)
  | some r ↦ write_reviews env id more (update_review r.review.id (set_review w.delta) db)
]

-- The changes of fields, without those of reviews.
unfoldable pub field_changes : Changes → Changes
unfolding starts_with
field_changes changes = filter (λ c. not (starts_with c.0 (codes "review."))) changes

unfoldable pub within_event : Env → Principal → Text → ProjectRow → Changes → ℕ → DomainEvent
unfolding build_event has
within_event env p trace current changes drawn =
    let workspace = changed_or (codes "bahnhofsmanagement") (new_fields changes) current in
    build_event env project_updated p trace current.id (current.sync_version + 1) changes
      (routed workspace (left_workspace workspace current)) drawn

-- The writes behind the guarded UPDATE; a lost lock is an internal error.
unfoldable pub after_within :
    Env → Principal → Text → ProjectRow → Changes → Db × Bool → Result (Option (Text × ℕ) × Db)
unfolding within_event audit_rows append_audit append_event notify_watchers has
after_within env p trace current changes (written, false) = err lost_lock
after_within env p trace current changes (written, true) = do
  let e = within_event env p trace current changes written.issued
  let station = changed_or (codes "station") (new_fields changes) current
  let nummer = column (codes "projektnummer") current.fields
  let rows = audit_rows env p e update changes (label_of env station nummer) none
  logged ←
      append_event env.rt e (append_audit rows (record written { issued = written.issued + 1 }))
  told ← notify_watchers env p e current.id nummer station logged
  ok (some (e.event_id, current.sync_version + 1), told)

unfoldable pub write_within :
    Env
    → Principal
    → Text
    → ProjectRow
    → Changes
    → List ReviewWrite
    → Db
    → Result (Option (Text × ℕ) × Db)
unfolding write_reviews field_changes update_versioned after_within
write_within env p trace current [] writes db = ok (none, db)
write_within env p trace current (c ∷ cs) writes db = after_within env p trace current (c ∷ cs) (
    update_versioned current.id current.sync_version (new_fields (field_changes (c ∷ cs)))
      (write_reviews env current.id writes db))

-- `updateWithin`; `none` is the answer null, nothing to write.
unfoldable pub update_within :
    Env
    → Principal
    → Text
    → ProjectRow
    → Fields
    → List ReviewChange
    → Db
    → Result (Option (Text × ℕ) × Db)
unfolding normalize_patch diff_of plan_reviews write_within
update_within env p trace current fields reviews db = do
  norm ← normalize_patch env fields
  planned ← plan_reviews env current.id db reviews (diff_of current.fields norm)
  write_within env p trace current planned.0 planned.1 db
