-- ===== src/Service/Deletion.antt =====
-- server/domain/projectService.ts: `delete` as a whole.
use bahn_project_manager.Prelude.{
  ◌+◌, ◌≡◌, refl, sym, ap, ◌∙◌, true, false, not, none, some, inl, inr, [], ◌∷◌, ◌++◌, arith, get,
  del, get-del_self, nat_eq, nat_beq, nat_beq_iff, Text, codes, Option-cases,
}
use bahn_project_manager.Runtime.{RuntimeLaws}
use bahn_project_manager.Event.{DomainEvent}
use bahn_project_manager.Permissions.{Principal, can_view_project, can_delete_project}
use bahn_project_manager.Store.{
  Db, ProjectRow, MutationResult, ok, lock_project, delete_project, append_audit, append_event,
  detail, unlink_reports,
}
use bahn_project_manager.Store.Log.{
  bind-ok, ok-injective, guard-ok, err-ne-ok, Keeps, Gapless, Gapless-Keeps, Gapless-del, event_row,
  append_event-ok, is_of, versions,
}
use bahn_project_manager.Service.{Env, delete_request, workspace_of, column, notify_watchers}
use bahn_project_manager.Service.Frame.{notify_watchers-Keeps}
use bahn_project_manager.Service.Keyed.{
  Outcome, repeated, first, keyed-Outcome, keyed-again, KeepsKeys,
}
use bahn_project_manager.Service.Guards.{not-false}
use bahn_project_manager.Service.Outcomes.{Gapless-complete, projects-complete_idempotency}
use bahn_project_manager.Service.Write.{
  DeleteInput, deleted_event, deletion_rows, unlink, write_delete, delete_row, delete_fresh,
  delete_project_by,
}

-- What a fresh `delete` that succeeded was allowed to do, and did.
pub record Deleted (env : Env) (p : Principal) (input : DeleteInput) (db : Db)
    (r : MutationResult × Db) : Type 0 where
  pub current : ProjectRow
  pub held : get input.id db.projects ≡ some current
  pub up_to_date : current.sync_version ≡ input.expected_version
  pub may_delete : can_delete_project p (workspace_of current) ≡ true
  pub told : Db
  pub told_Keeps : Keeps db told
  pub event : DomainEvent
  pub event_id_eq : event.aggregate_id ≡ env.rt.string_of input.id
  pub event_of_project :
      is_of (env.rt.number_of (env.rt.string_of input.id)) (event_row env.rt event) ≡ true
  pub written :
      Keeps
        (record told {
          projects = del input.id told.projects;
          events = told.events ++ event_row env.rt event ∷ [];
        })
        r.1
  pub is_fresh : r.0.replayed ≡ false

delete_row-Deleted :
    (env : Env) (p : Principal) (trace : Text) (current : ProjectRow) (input : DeleteInput)
    (db : Db)
    → (r : MutationResult × Db) → get input.id db.projects ≡ some current
    → delete_row env p trace current input db ≡ ok r
    → Deleted env p input db r
unfolding delete_row write_delete delete_project deleted_event append_audit unlink unlink_reports
delete_row-Deleted env p trace current input db r h u =
    let now = workspace_of current in
    let (view, u1) = guard-ok (not (can_view_project env.rt p now)) _ _ r u in
    let (may, u2) = guard-ok (not (can_delete_project p now)) _ _ r u1 in
    let (fresh, u3) =
      guard-ok (not (nat_beq current.sync_version input.expected_version)) _ _ r u2 in
    let nummer = column (codes "projektnummer") current.fields in
    let station = column (codes "station") current.fields in
    let e = deleted_event env p trace current input db.issued in
    let rows =
      deletion_rows env p e current (env.snapshot (detail env.by_department input.id db)) in
    let start = record db { issued = db.issued + 1 } in
    let (told, one, u4) = bind-ok (notify_watchers env p e input.id nummer station start) _ r u3 in
    let last = append_audit rows (delete_project input.id (unlink env p e input.id told)) in
    let (logged, two, u5) = bind-ok (append_event env.rt e last) _ r u4 in
    let same = append_event-ok env.rt e last logged two in
    let keeps = notify_watchers-Keeps env p e input.id nummer station start told one in
    let answer = ok-injective _ r u5 in
    let back : r.1 ≡ logged = ap (λ q. q.1) (sym answer) in
    record {
      current = current;
      held = h;
      up_to_date = (nat_beq_iff current.sync_version input.expected_version).0 (not-false _ fresh);
      may_delete = not-false _ may;
      told = told;
      told_Keeps = record {
        projects_eq = keeps.projects_eq;
        keys_eq = keeps.keys_eq;
        next_eq = keeps.next_eq;
        versions_eq = keeps.versions_eq;
      };
      event = e;
      event_id_eq = refl;
      event_of_project = (nat_beq_iff (env.rt.number_of (env.rt.string_of input.id)) _).1 refl;
      written = record {
        projects_eq = ap (λ d. d.projects) back ∙ ap (λ d. d.projects) same;
        keys_eq = ap (λ d. d.keys) back ∙ ap (λ d. d.keys) same;
        next_eq = ap (λ d. d.next_project) back ∙ ap (λ d. d.next_project) same;
        versions_eq =
            λ id. ap (λ d. versions id d.events) back ∙ ap (λ d. versions id d.events) same;
      };
      is_fresh = ap (λ q. q.0.replayed) (sym answer);
    }

delete_fresh-Deleted :
    (env : Env) (p : Principal) (trace : Text) (input : DeleteInput) (db : Db)
    → (r : MutationResult × Db) → delete_fresh env p trace input db ≡ ok r
    → Deleted env p input db r
unfolding delete_fresh lock_project
delete_fresh-Deleted env p trace input db r u = elim (Option-cases (get input.id db.projects)) [
  | inl n ↦ absurd (err-ne-ok _ r (rw (n, delete_fresh, lock_project) at u))
  | inr (current, h) ↦
      delete_row-Deleted env p trace current input db r h (rw (h, delete_fresh, lock_project) at u)
]

pub delete_fresh-KeepsKeys :
    (env : Env) (p : Principal) (trace : Text) (input : DeleteInput)
    → KeepsKeys (delete_fresh env p trace input)
delete_fresh-KeepsKeys env p trace input db r h =
    let d = delete_fresh-Deleted env p trace input db r h in
    d.written.keys_eq ∙ d.told_Keeps.keys_eq

-- A `delete` that succeeded, sent again under its key: the answer is the stored one, marked as
-- repeated, and the tables stay as they are, although the project is gone.
pub delete_project_by-again :
    (env : Env) (p : Principal) (input : DeleteInput) (trace trace' : Text) (db : Db)
    → (r : MutationResult × Db) → delete_project_by env p input trace db ≡ ok r
    → delete_project_by env p input trace' r.1 ≡ ok (record (r.0) { replayed = true }, r.1)
unfolding delete_project_by
delete_project_by-again env p input trace trace' db r h =
    keyed-again p.id input.key (codes "project.delete") _ (delete_fresh env p trace input)
      (delete_fresh-KeepsKeys env p trace input) db r (delete_fresh env p trace' input) h

delete_project_by-Outcome :
    (env : Env) (p : Principal) (input : DeleteInput) (trace : Text) (db : Db)
    → (r : MutationResult × Db) → delete_project_by env p input trace db ≡ ok r
    → Outcome p.id input.key
        (codes "project.delete")
        (env.request_hash
          (codes "project.delete")
          (delete_request input.id input.expected_version []))
        (delete_fresh env p trace input)
        db
        r
unfolding delete_project_by
delete_project_by-Outcome env p input trace db r h =
    keyed-Outcome p.id input.key (codes "project.delete") _ (delete_fresh env p trace input)
      (delete_fresh-KeepsKeys env p trace input) db r h

-- A `delete` that succeeds and is not a repetition was made by someone who may delete the project,
-- against the version that its row had; the row is gone afterwards.
pub delete_project_by-removes :
    (env : Env) (p : Principal) (input : DeleteInput) (trace : Text) (db : Db)
    → (r : MutationResult × Db) → delete_project_by env p input trace db ≡ ok r
    → r.0.replayed ≡ false
    → (current : ProjectRow) × (get input.id db.projects ≡ some current)
      × (current.sync_version ≡ input.expected_version)
      × (can_delete_project p (workspace_of current) ≡ true)
      × (lock_project input.id r.1 ≡ none)
unfolding lock_project
delete_project_by-removes env p input trace db r h f =
    elim (delete_project_by-Outcome env p input trace db r h) [
      | repeated s stored e ↦ absurd (ground (arith, sym (ap (λ q. q.0.replayed) e) ∙ f))
      | first b done e found ↦
          let d = delete_fresh-Deleted env p trace input _ b done in
          (
            d.current,
            d.held,
            d.up_to_date,
            d.may_delete,
            ap (λ q. get input.id q.1.projects) e
                ∙ ap (get input.id)
                    (projects-complete_idempotency p.id input.key b.0 b.1 ∙ d.written.projects_eq)
                ∙ get-del_self input.id d.told.projects,
          )
    ]

-- Whatever `delete` does, a log that holds every version of every project stays one.
pub delete_project_by-Gapless :
    (env : Env) (p : Principal) (input : DeleteInput) (trace : Text) (db : Db)
    → (r : MutationResult × Db) → RuntimeLaws env.rt
    → Gapless db
    → delete_project_by env p input trace db ≡ ok r
    → Gapless r.1
delete_project_by-Gapless env p input trace db r laws g h =
    elim (delete_project_by-Outcome env p input trace db r h) [
      | repeated s stored e ↦ rw e g
      | first b done e found ↦
          let d = delete_fresh-Deleted env p trace input _ b done in
          let mid =
            Gapless-Keeps _ d.told d.told_Keeps
              (record { complete = g.complete; unused = g.unused }) in
          rw e (
            Gapless-complete p.id input.key b.0 b.1 (
              Gapless-Keeps _ b.1 d.written (
                Gapless-del d.told input.id d.current (event_row env.rt d.event) mid
                  (ap (get input.id) d.told_Keeps.projects_eq ∙ d.held)
                  (rw (laws.number_of-string_of input.id) at d.event_of_project))))
    ]
