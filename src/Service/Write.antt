-- ===== src/Service/Write.antt =====
-- server/domain/projectService.ts: `update` and `delete`.
-- Each is one transaction: it returns the answer with the new tables, or an error.
use bahn_project_manager.Prelude.{
  ℕ, ◌+◌, Bool, true, false, not, ◌&&◌, Option, none, some, List, [], ◌∷◌, map, if◌then◌else◌, has,
  text_eq, Text, opt_text_beq, codes, nat_beq,
}
use bahn_project_manager.Event.{DomainEvent, project_updated, project_deleted, Changes, Context}
use bahn_project_manager.Permissions.{
  Principal, can_view_project, can_edit_project, can_delete_project,
}
use bahn_project_manager.Project.{Fields}
use bahn_project_manager.Store.{
  Db, AuditRow, ReportRow, pruefbericht_entity, unlink_reports, ProjectRow, MutationResult, update,
  delete, not_found, forbidden, idempotency_key_reuse, no_response, conflict, Result, ok, err,
  ◌>>=◌, Claim, fresh, mismatch, replay, claim_idempotency, complete_idempotency, lock_project,
  update_versioned, delete_project, detail, append_audit, append_event,
}
use bahn_project_manager.Service.{
  Env, actor_numeric_id, user_name, update_request, delete_request, column, workspace_of,
  normalize_patch, diff_of, new_fields, build_event, audit_rows, label_of, notify_watchers,
  conflict_of,
}

abbrev pub Answer : Type 0
Answer = Result (MutationResult × Db)

abbrev pub replayed_answer : Db → Option MutationResult → Answer
replayed_answer db none = err no_response
replayed_answer db (some r) = ok (record r { replayed = true }, db)

abbrev stored_answer : Text → Text → MutationResult × Db → Answer
stored_answer actor key (r, db) = ok (r, complete_idempotency actor key r db)

abbrev pub after_claim : Text → Text → (Db → Answer) → Db × Claim → Answer
after_claim actor key body (claimed, mismatch) = err idempotency_key_reuse
after_claim actor key body (claimed, replay response) = replayed_answer claimed response
after_claim actor key body (claimed, fresh) = body claimed >>= stored_answer actor key

-- The frame of every write: claim the key; a claimed one is answered from the stored response, or
-- refused; otherwise the body runs and its response is stored.
unfoldable pub keyed : Text → Text → Text → Text → (Db → Answer) → Db → Answer
unfolding claim_idempotency complete_idempotency
keyed actor key operation hash body db =
    after_claim actor key body (claim_idempotency actor key operation hash db)

pub record UpdateInput : Type 0 where
  pub id : ℕ
  pub expected_version : ℕ
  pub changes : Fields
  pub key : Text

-- `"bahnhofsmanagement" in norm ? norm.bahnhofsmanagement : current.bahnhofsmanagement`.
abbrev pub new_workspace : Fields → ProjectRow → Option Text
new_workspace norm current =
    if has (codes "bahnhofsmanagement") norm
    then column (codes "bahnhofsmanagement") norm
    else workspace_of current

abbrev pub left_workspace : Option Text → ProjectRow → Option Text
left_workspace new current =
    if opt_text_beq new (workspace_of current) then none else workspace_of current

abbrev pub changed_or : Text → Fields → ProjectRow → Option Text
changed_or key changed current =
    if has key changed then column key changed else column key current.fields

abbrev pub routed : Option Text → Option Text → Context
routed workspace before = record {
  workspace = workspace;
  workspace_before = before;
  recipient = none;
}

abbrev pub or_current : ProjectRow → Option ProjectRow → ProjectRow
or_current current none = current
or_current current (some r) = r

-- What `update`, `updateReview` and `createReview` do once the row has its new version: audit rows,
-- the event, notifications, and the answer.
unfoldable pub publish :
    Env → Principal → DomainEvent → ℕ → ProjectRow → Changes → Option Text → Db → Answer
unfolding audit_rows append_audit append_event notify_watchers detail
publish env p e id current changes station db = do
  let nummer = column (codes "projektnummer") current.fields
  let rows = audit_rows env p e update changes (label_of env station nummer) none
  logged ← append_event env.rt e (append_audit rows (record db { issued = db.issued + 1 }))
  told ← notify_watchers env p e id nummer station logged
  ok (
    record { project = detail env.by_department id told; event_id = e.event_id; replayed = false },
    told,
  )

-- The event of an update; it leaves a workspace when the Bahnhofsmanagement changes.
unfoldable pub updated_event :
    Env → Principal → Text → UpdateInput → Fields → ProjectRow → Changes → ℕ → DomainEvent
unfolding build_event
updated_event env p trace input norm current changes drawn =
    let workspace = new_workspace norm current in
    build_event env project_updated p trace input.id (input.expected_version + 1) changes
      (routed workspace (left_workspace workspace current)) drawn

-- After the guarded UPDATE: the shared end of the write, or a conflict if the row has moved on.
unfoldable pub after_update :
    Env → Principal → Text → UpdateInput → Fields → ProjectRow → Changes → Db × Bool → Answer
unfolding lock_project conflict_of updated_event publish
after_update env p trace input norm current changes (written, true) =
    publish env p (updated_event env p trace input norm current changes written.issued) input.id
      current changes (changed_or (codes "station") (new_fields changes) current) written
after_update env p trace input norm current changes (written, false) = err (
    conflict (
      conflict_of env written (or_current current (lock_project input.id written)) input.id
        input.expected_version norm (λ key. column key current.fields)))

unfoldable pub write_update :
    Env → Principal → Text → UpdateInput → Fields → ProjectRow → Changes → Db → Answer
unfolding update_versioned after_update detail
write_update env p trace input norm current [] db =
    ok (
      record { project = detail env.by_department input.id db; event_id = []; replayed = false },
      db,
    )
write_update env p trace input norm current (c ∷ cs) db =
    after_update env p trace input norm current (c ∷ cs)
      (update_versioned input.id input.expected_version (new_fields (c ∷ cs)) db)

-- The guards of `update`, in their order.
unfoldable pub update_row : Env → Principal → Text → UpdateInput → Fields → ProjectRow → Db → Answer
unfolding write_update diff_of conflict_of can_view_project can_edit_project
update_row env p trace input norm current db =
    let workspace = new_workspace norm current in
    if not (can_view_project env.rt p (workspace_of current))
    then err not_found
    else if not (can_edit_project env.rt p (workspace_of current))
    then err forbidden
    else if not (opt_text_beq workspace (workspace_of current))
        && not (can_edit_project env.rt p workspace)
    then err forbidden
    else if not (nat_beq current.sync_version input.expected_version)
    then err (
        conflict (
          conflict_of env db current input.id input.expected_version norm
            (λ key. column key current.fields)))
    else write_update env p trace input norm current (diff_of current.fields norm) db

abbrev pub update_found :
    Env → Principal → Text → UpdateInput → Fields → Option ProjectRow → Db → Answer
update_found env p trace input norm none db = err not_found
update_found env p trace input norm (some current) db = update_row env p trace input norm current db

unfoldable pub update_fresh : Env → Principal → Text → UpdateInput → Fields → Db → Answer
unfolding lock_project
update_fresh env p trace input norm db =
    update_found env p trace input norm (lock_project input.id db) db

-- `update`.
unfoldable pub update_project : Env → Principal → UpdateInput → Text → Db → Answer
unfolding normalize_patch keyed update_fresh
update_project env p input trace db = do
  norm ← normalize_patch env input.changes
  keyed p.id input.key (codes "project.update")
      (env.request_hash (codes "project.update")
        (update_request input.id input.expected_version norm))
      (update_fresh env p trace input norm) db

pub record DeleteInput : Type 0 where
  pub id : ℕ
  pub expected_version : ℕ
  pub key : Text

unfoldable pub deleted_event : Env → Principal → Text → ProjectRow → DeleteInput → ℕ → DomainEvent
unfolding build_event
deleted_event env p trace current input drawn =
    build_event env project_deleted p trace input.id (current.sync_version + 1) []
      (routed (workspace_of current) none) drawn

abbrev pub deletion_rows : Env → Principal → DomainEvent → ProjectRow → Option Text → List AuditRow
deletion_rows env p e current snapshot =
    audit_rows env p e delete []
      (label_of env (column (codes "station") current.fields)
        (column (codes "projektnummer") current.fields))
      snapshot

-- The audit row of a report that loses its project.
abbrev unlinked_row : Env → Principal → DomainEvent → ℕ → ReportRow → AuditRow
unlinked_row env p e id r = record {
  user_id = actor_numeric_id env p;
  user_name = user_name p;
  entity = pruefbericht_entity;
  entity_id = r.id;
  action = update;
  field = some (codes "projectId");
  old_value = some (env.rt.string_of id);
  new_value = none;
  event_id = e.event_id;
  aggregate_version = none;
  trace_id = e.trace_id;
  workspace = none;
  entity_label = some r.label;
}

-- Reports lose their link to the project, and each loss is audited.
unfoldable pub unlink : Env → Principal → DomainEvent → ℕ → Db → Db
unfolding unlink_reports append_audit
unlink env p e id db =
    let (reports, unlinked) = unlink_reports id db in
    append_audit (map (unlinked_row env p e id) reports) unlinked

-- The body of `delete` behind its guards.
unfoldable pub write_delete : Env → Principal → Text → ProjectRow → DeleteInput → Db → Answer
unfolding deleted_event notify_watchers unlink delete_project audit_rows append_audit append_event
    detail
write_delete env p trace current input db = do
  let nummer = column (codes "projektnummer") current.fields
  let station = column (codes "station") current.fields
  let e = deleted_event env p trace current input db.issued
  let rows = deletion_rows env p e current (env.snapshot (detail env.by_department input.id db))
  told ← notify_watchers env p e input.id nummer station (record db { issued = db.issued + 1 })
  logged ←
      append_event env.rt e
        (append_audit rows (delete_project input.id (unlink env p e input.id told)))
  ok (record { project = none; event_id = e.event_id; replayed = false }, logged)

unfoldable pub delete_row : Env → Principal → Text → ProjectRow → DeleteInput → Db → Answer
unfolding write_delete conflict_of can_view_project can_delete_project
delete_row env p trace current input db =
    if not (can_view_project env.rt p (workspace_of current))
    then err not_found
    else if not (can_delete_project p (workspace_of current))
    then err forbidden
    else if not (nat_beq current.sync_version input.expected_version)
    then err (
        conflict (
          conflict_of env db current input.id input.expected_version []
            (λ key. column key current.fields)))
    else write_delete env p trace current input db

unfoldable pub delete_fresh : Env → Principal → Text → DeleteInput → Db → Answer
unfolding lock_project delete_row
delete_fresh env p trace input db = elim (lock_project input.id db) [
  | none ↦ err not_found
  | some current ↦ delete_row env p trace current input db
]

-- `delete`.
unfoldable pub delete_project_by : Env → Principal → DeleteInput → Text → Db → Answer
unfolding keyed delete_fresh
delete_project_by env p input trace db =
    keyed p.id input.key (codes "project.delete")
      (env.request_hash (codes "project.delete")
        (delete_request input.id input.expected_version []))
      (delete_fresh env p trace input) db
