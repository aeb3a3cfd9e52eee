-- ===== src/Service/Outcomes.antt =====
-- server/domain/projectService.ts: `update` as a whole, with its key, its guards and its log.
use bahn_project_manager.Prelude.{
  ℕ, ◌+◌, ◌≡◌, refl, sym, ap, ◌∙◌, inl, inr, true, false, some, arith, get, nat_eq, nat_beq_iff,
  Text, codes, Option-cases,
}
use bahn_project_manager.Runtime.{RuntimeLaws}
use bahn_project_manager.Permissions.{Principal, can_edit_project}
use bahn_project_manager.Project.{Fields}
use bahn_project_manager.Store.{Db, ProjectRow, MutationResult, ok, key_eq, complete_idempotency}
use bahn_project_manager.Store.Log.{bind-ok, Gapless, Gapless-Keeps, Gapless-next, event_row, is_of}
use bahn_project_manager.Service.{Env, update_request, normalize_patch, workspace_of}
use bahn_project_manager.Service.Keyed.{
  Outcome, repeated, first, keyed-Outcome, keyed-again, KeepsKeys,
}
use bahn_project_manager.Service.Guards.{Updates, unchanged, next_version, update_fresh-Allowed}
use bahn_project_manager.Service.Write.{UpdateInput, update_fresh, update_project, new_workspace}

pub Updates-keys :
    (env : Env) (id expected : ℕ) (db db' : Db)
    → Updates env id expected db db'
    → db'.keys ≡ db.keys
Updates-keys env id expected db db' (unchanged k) = k.keys_eq
Updates-keys env id expected db db' (next_version _ _ _ _ _ _ _ _ _ k) = k.keys_eq

pub update_fresh-KeepsKeys :
    (env : Env) (p : Principal) (trace : Text) (input : UpdateInput) (norm : Fields)
    → KeepsKeys (update_fresh env p trace input norm)
update_fresh-KeepsKeys env p trace input norm db r h =
    Updates-keys env input.id input.expected_version db r.1
      ((update_fresh-Allowed env p trace input norm db r h).updates)

-- An `update` that succeeded, sent again under its key: the answer is the stored one, marked as
-- repeated, and the tables stay as they are.
pub update_project-again :
    (env : Env) (p : Principal) (input : UpdateInput) (trace trace' : Text) (db : Db)
    → (r : MutationResult × Db) → update_project env p input trace db ≡ ok r
    → update_project env p input trace' r.1 ≡ ok (record (r.0) { replayed = true }, r.1)
unfolding update_project
update_project-again env p input trace trace' db r h =
    let (norm, n, k) = bind-ok (normalize_patch env input.changes) _ r h in
    rw n (
      keyed-again p.id input.key (codes "project.update") _ (update_fresh env p trace input norm)
        (update_fresh-KeepsKeys env p trace input norm) db r (update_fresh env p trace' input norm)
        k)

-- The outcome of `update` behind the canonical form of its changes.
abbrev UpdateOutcome :
    Env → Principal → UpdateInput → Text → Fields → Db → MutationResult × Db → Type 0
UpdateOutcome env p input trace norm db r =
    Outcome p.id input.key (codes "project.update")
      (env.request_hash (codes "project.update")
        (update_request input.id input.expected_version norm))
      (update_fresh env p trace input norm) db r

update_project-Outcome :
    (env : Env) (p : Principal) (input : UpdateInput) (trace : Text) (db : Db)
    → (r : MutationResult × Db) → update_project env p input trace db ≡ ok r
    → (norm : Fields) × (normalize_patch env input.changes ≡ ok norm)
      × UpdateOutcome env p input trace norm db r
unfolding update_project
update_project-Outcome env p input trace db r h =
    let (norm, n, k) = bind-ok (normalize_patch env input.changes) _ r h in
    (
      norm,
      n,
      keyed-Outcome p.id input.key (codes "project.update") _ (update_fresh env p trace input norm)
          (update_fresh-KeepsKeys env p trace input norm) db r k,
    )

-- What the row and the rights must have been.
pub record Permitted (env : Env) (p : Principal) (input : UpdateInput) (norm : Fields) (db : Db)
    : Type 0 where
  pub current : ProjectRow
  pub held : get input.id db.projects ≡ some current
  pub up_to_date : current.sync_version ≡ input.expected_version
  pub may_edit : can_edit_project env.rt p (workspace_of current) ≡ true
  pub may_move : can_edit_project env.rt p (new_workspace norm current) ≡ true

-- An `update` that succeeds and is not a repetition was made by someone who may edit the project in
-- the workspace where it was and in the one where it is put, against the version that the row had.
pub update_project-Permitted :
    (env : Env) (p : Principal) (input : UpdateInput) (trace : Text) (db : Db)
    → (r : MutationResult × Db) → update_project env p input trace db ≡ ok r
    → r.0.replayed ≡ false
    → (norm : Fields) × (normalize_patch env input.changes ≡ ok norm)
      × Permitted env p input norm db
update_project-Permitted env p input trace db r h f =
    let (norm, n, o) = update_project-Outcome env p input trace db r h in
    elim o [
      | repeated s stored e ↦ absurd (ground (arith, sym (ap (λ q. q.0.replayed) e) ∙ f))
      | first b done e found ↦
          let a = update_fresh-Allowed env p trace input norm _ b done in
          (
            norm,
            n,
            record {
              current = a.current;
              held = a.held;
              up_to_date = a.up_to_date;
              may_edit = a.may_edit;
              may_move = a.may_move;
            },
          )
    ]

pub Gapless-Updates :
    (env : Env) (id expected : ℕ) (db db' : Db)
    → RuntimeLaws env.rt
    → Gapless db
    → Updates env id expected db db'
    → Gapless db'
Gapless-Updates env id expected db db' laws g (unchanged k) = Gapless-Keeps db db' k g
Gapless-Updates env id expected db db' laws g (next_version old new e held o n v i t k) =
    let of_id : env.rt.number_of e.aggregate_id ≡ id =
      ap env.rt.number_of i ∙ laws.number_of-string_of id in
    let row = event_row env.rt e in
    let is_its : is_of id row ≡ true = rw (t, of_id) ((nat_beq_iff id id).1 refl) in
    Gapless-Keeps _ db' k
      (Gapless-next db id old new row g held (n ∙ ap (λ m. m + 1) (sym o)) is_its (v ∙ sym n))

pub projects-complete_idempotency :
    (actor key : Text) (r : MutationResult) (db : Db)
    → (complete_idempotency actor key r db).projects ≡ db.projects
unfolding complete_idempotency
projects-complete_idempotency actor key r db = elim (Option-cases (get (actor, key) db.keys)) [
  | inl n ↦ rw n
  | inr (row, s) ↦ rw s
]

-- Only the keys change when an answer is stored.
pub Gapless-complete :
    (actor key : Text) (r : MutationResult) (db : Db)
    → Gapless db
    → Gapless (complete_idempotency actor key r db)
unfolding complete_idempotency
Gapless-complete actor key r db g = elim (Option-cases (get (actor, key) db.keys)) [
  | inl n ↦ rw n g
  | inr (row, s) ↦ rw s (record { complete = g.complete; unused = g.unused })
]

-- Whatever `update` does, a log that holds every version of every project stays one.
pub update_project-Gapless :
    (env : Env) (p : Principal) (input : UpdateInput) (trace : Text) (db : Db)
    → (r : MutationResult × Db) → RuntimeLaws env.rt
    → Gapless db
    → update_project env p input trace db ≡ ok r
    → Gapless r.1
update_project-Gapless env p input trace db r laws g h =
    let (norm, n, o) = update_project-Outcome env p input trace db r h in
    elim o [
      | repeated s stored e ↦ rw e g
      | first b done e found ↦
          let a = update_fresh-Allowed env p trace input norm _ b done in
          rw e (
            Gapless-complete p.id input.key b.0 b.1 (
              Gapless-Updates env input.id input.expected_version _ b.1 laws
                (record { complete = g.complete; unused = g.unused }) a.updates))
    ]
