-- ===== src/Service/Refusals.antt =====
-- server/domain/projectService.ts: the answers of `update` that refuse it.
use bahn_project_manager.Prelude.{
  ℕ, ◌≡◌, ◌≢◌, refl, ap, ◌∙◌, true, false, Option, none, some, arith, get, nat_eq, nat_beq,
  nat_beq_iff, Text, opt_text_beq, opt_text_beq_iff, codes, Bool-cases, inl, inr,
}
use bahn_project_manager.Permissions.{Principal, can_view_project, can_edit_project}
use bahn_project_manager.Project.{Fields, ConflictInfo}
use bahn_project_manager.Store.{
  Db, ProjectRow, ok, err, Error, key_eq, not_found, forbidden, conflict, claimed,
  claim_idempotency, lock_project,
}
use bahn_project_manager.Service.{
  Env, update_request, normalize_patch, workspace_of, conflict_of, column,
}
use bahn_project_manager.Service.Write.{
  Answer, UpdateInput, update_row, update_found, update_fresh, update_project, new_workspace, keyed,
}

conflict_of-says :
    (env : Env) (db : Db) (current : ProjectRow) (id expected : ℕ) (norm : Fields)
    → (value_of : Text → Option Text)
    → let c = conflict_of env db current id expected norm value_of in
      (c.current_version ≡ current.sync_version)
      × (c.expected_version ≡ expected)
      × (c.local_values ≡ norm)
unfolding conflict_of
conflict_of-says env db current id expected norm value_of = (refl, refl, refl)

update_fresh-held :
    (env : Env) (p : Principal) (trace : Text) (input : UpdateInput) (norm : Fields) (db : Db)
    → (current : ProjectRow) → lock_project input.id db ≡ some current
    → update_fresh env p trace input norm db ≡ update_row env p trace input norm current db
unfolding update_fresh
update_fresh-held env p trace input norm db current h =
    ap (λ found. update_found env p trace input norm found db) h

update_fresh-none :
    (env : Env) (p : Principal) (trace : Text) (input : UpdateInput) (norm : Fields) (db : Db)
    → lock_project input.id db ≡ none
    → update_fresh env p trace input norm db ≡ err not_found
unfolding update_fresh
update_fresh-none env p trace input norm db h =
    ap (λ found. update_found env p trace input norm found db) h

keyed-err :
    (actor key operation hash : Text) (body : Db → Answer) (db : Db) (e : Error)
    → get (actor, key) db.keys ≡ none
    → body (claimed actor key operation hash none db).0 ≡ err e
    → keyed actor key operation hash body db ≡ err e
unfolding keyed claim_idempotency
keyed-err actor key operation hash body db e n h = rw (n, h)

edit-view :
    (env : Env) (p : Principal) (ws : Option Text)
    → can_edit_project env.rt p ws ≡ true
    → can_view_project env.rt p ws ≡ true
unfolding can_edit_project
edit-view env p ws h = ground arith

module _ (env : Env) (p : Principal) (input : UpdateInput) (trace : Text) (norm : Fields)
    (current : ProjectRow) (db : Db) where
  abbrev RowRefused : Error → Type 0
  RowRefused e = update_row env p trace input norm current db ≡ err e

  view_refused : can_view_project env.rt p (workspace_of current) ≡ false → RowRefused not_found
  unfolding update_row
  view_refused h = rw h

  edit_refused :
      can_view_project env.rt p (workspace_of current) ≡ true
      → can_edit_project env.rt p (workspace_of current) ≡ false
      → RowRefused forbidden
  unfolding update_row
  edit_refused v h = rw (h, v)

  differ :
      can_edit_project env.rt p (workspace_of current) ≡ true
      → can_edit_project env.rt p (new_workspace norm current) ≡ false
      → opt_text_beq (new_workspace norm current) (workspace_of current) ≡ false
  differ e n =
      elim (Bool-cases (opt_text_beq (new_workspace norm current) (workspace_of current))) [
        | inl b ↦
            let same = (opt_text_beq_iff (new_workspace norm current) (workspace_of current)).0 b in
            absurd (cc (e, n, same))
        | inr b ↦ b
      ]

  move_refused :
      can_edit_project env.rt p (workspace_of current) ≡ true
      → can_edit_project env.rt p (new_workspace norm current) ≡ false
      → RowRefused forbidden
  unfolding update_row
  move_refused e n = rw (e, n, edit-view env p (workspace_of current) e, differ e n)

  -- The conflict that a stale version is answered with.
  abbrev stale_conflict : ConflictInfo
  stale_conflict =
      conflict_of env db current input.id input.expected_version norm
        (λ key. column key current.fields)

  stale_refused :
      can_edit_project env.rt p (workspace_of current) ≡ true
      → can_edit_project env.rt p (new_workspace norm current) ≡ true
      → current.sync_version ≢ input.expected_version
      → RowRefused (conflict stale_conflict)
  unfolding update_row
  stale_refused e n s =
      let b : nat_beq current.sync_version input.expected_version ≡ false =
        ground (arith, nat_beq_iff current.sync_version input.expected_version) in
      elim (Bool-cases (opt_text_beq (new_workspace norm current) (workspace_of current))) [
        | inl o ↦ rw (e, edit-view env p (workspace_of current) e, o, b)
        | inr o ↦ rw (e, n, edit-view env p (workspace_of current) e, o, b)
      ]

-- How `update` refuses a request whose key is new: a project that does not exist and one that the
-- sender may not see are both not found; one that they may see and not edit is forbidden, and so is
-- a move into a workspace where they may not edit; an old version is a conflict, which names the
-- version of the row and the values sent.
pub update_project-refused :
    (env : Env) (p : Principal) (input : UpdateInput) (trace : Text) (norm : Fields) (db : Db)
    → normalize_patch env input.changes ≡ ok norm
    → get (p.id, input.key) db.keys ≡ none
    → (lock_project input.id db ≡ none → update_project env p input trace db ≡ err not_found)
      × ((current : ProjectRow)
          → lock_project input.id db ≡ some current
          → (can_view_project env.rt p (workspace_of current) ≡ false
              → update_project env p input trace db ≡ err not_found)
            × (can_view_project env.rt p (workspace_of current) ≡ true
                → can_edit_project env.rt p (workspace_of current) ≡ false
                → update_project env p input trace db ≡ err forbidden)
            × (can_edit_project env.rt p (workspace_of current) ≡ true
                → can_edit_project env.rt p (new_workspace norm current) ≡ false
                → update_project env p input trace db ≡ err forbidden)
            × (can_edit_project env.rt p (workspace_of current) ≡ true
                → can_edit_project env.rt p (new_workspace norm current) ≡ true
                → current.sync_version ≢ input.expected_version
                → (c : ConflictInfo) × (update_project env p input trace db ≡ err (conflict c))
                  × (c.current_version ≡ current.sync_version)
                  × (c.expected_version ≡ input.expected_version)
                  × (c.local_values ≡ norm)))
unfolding update_project lock_project
update_project-refused env p input trace norm db n k =
    let hash =
      env.request_hash (codes "project.update")
        (update_request input.id input.expected_version norm) in
    let start = (claimed p.id input.key (codes "project.update") hash none db).0 in
    let refuse : (e : Error)
        → update_fresh env p trace input norm start ≡ err e
        → update_project env p input trace db ≡ err e =
      λ e h. rw n (
        keyed-err p.id input.key (codes "project.update") hash (update_fresh env p trace input norm)
          db e k h) in
    let held_by : (current : ProjectRow)
        → lock_project input.id db ≡ some current
        → update_fresh env p trace input norm start
          ≡ update_row env p trace input norm current start =
      λ current held. update_fresh-held env p trace input norm start current held in
    (
      λ none_held. refuse not_found (update_fresh-none env p trace input norm start none_held),
      λ current held. (
        λ v.
            refuse not_found
              (held_by current held ∙ (view_refused env p input trace norm current start v)),
        λ v h.
            refuse forbidden
              (held_by current held ∙ (edit_refused env p input trace norm current start v h)),
        λ e h.
            refuse forbidden
              (held_by current held ∙ (move_refused env p input trace norm current start e h)),
        λ e m s.
            let (a, b, c) =
              conflict_of-says env start current input.id input.expected_version norm
                (λ key. column key current.fields) in
            (
              stale_conflict env p input trace norm current start,
              refuse _ (
                  held_by current held
                  ∙ (stale_refused env p input trace norm current start e m s)),
              a,
              b,
              c,
            ),
      ),
    )
