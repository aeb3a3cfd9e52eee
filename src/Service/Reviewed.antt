-- ===== src/Service/Reviewed.antt =====
-- server/domain/projectService.ts: what `updateReview` and `createReview` require, and what they
-- leave behind: the same version, the same log and the same keys as any edit of the project.
use bahn_project_manager.Prelude.{
  ◌+◌, ◌≡◌, refl, sym, ap, ◌∙◌, true, false, not, Option, none, some, [], ◌∷◌, ◌++◌, get, put,
  nat_eq, nat_beq, nat_beq_iff, Text, codes, map,
}
use bahn_project_manager.Event.{Changes}
use bahn_project_manager.Permissions.{Principal, can_view_project, can_approve_review}
use bahn_project_manager.Project.{Fields, Review}
use bahn_project_manager.Store.{
  Db, ProjectRow, ReviewRow, MutationResult, ok, lock_review, insert_review, update_review,
  update_versioned, set_fields,
}
use bahn_project_manager.Store.Log.{
  ok-injective, guard-ok, err-ne-ok, Keeps-self, event_row, versions,
}
use bahn_project_manager.Service.{Env, column, workspace_of, build_event}
use bahn_project_manager.Service.Frame.{publish-Keeps}
use bahn_project_manager.Service.Guards.{
  Updates, unchanged, next_version, update_versioned-ok, not-false,
}
use bahn_project_manager.Service.Reviews.{
  ReviewInput, ReviewFields, review_diff, set_review, after_review, reviewed_event, write_review,
  update_review_row, update_review_found, create_review_row, create_review_found,
  local_review_values, review_value_of, new_review_changes, new_review, is_held,
}

-- The guarded UPDATE and the end of the write, on tables `db'` that differ from `db` in reviews.
after_review-Updates :
    (env : Env) (p : Principal) (trace : Text) (input : ReviewInput) (current : ProjectRow)
    → (changes : Changes) (local_values : Fields) (value_of : Text → Option Text) (reviewed db : Db)
    → (r : MutationResult × Db)
    → reviewed ≡ record db { reviews = reviewed.reviews; next_review = reviewed.next_review }
    → get input.project_id db.projects ≡ some current
    → current.sync_version ≡ input.expected_version
    → after_review env p trace input current changes local_values value_of
        (update_versioned input.project_id input.expected_version [] reviewed)
      ≡ ok r
    → Updates env input.project_id input.expected_version db r.1 × (r.0.replayed ≡ false)
unfolding after_review reviewed_event build_event
after_review-Updates env p trace input current changes local_values value_of reviewed db r same h v
      w =
    let id = input.project_id in
    let new : ProjectRow = record current {
      sync_version = input.expected_version + 1;
      fields = set_fields [] current.fields;
    } in
    let h' : get id reviewed.projects ≡ some current = ap (λ d. get id d.projects) same ∙ h in
    let written = update_versioned-ok id input.expected_version [] reviewed current h' v in
    let e = reviewed_event env p trace input current changes reviewed.issued in
    let (k, f) =
      publish-Keeps env p e id current changes (column (codes "station") current.fields)
        (record reviewed { projects = put id new reviewed.projects }) r
        (sym (ap (after_review env p trace input current changes local_values value_of) written)
          ∙ w) in
    (
      next_version current new e h v refl refl refl refl (record {
        projects_eq = k.projects_eq ∙ ap (λ d. put id new d.projects) same;
        keys_eq = k.keys_eq ∙ ap (λ d. d.keys) same;
        next_eq = k.next_eq ∙ ap (λ d. d.next_project) same;
        versions_eq =
            λ j. k.versions_eq j ∙ ap (λ d. versions j (d.events ++ event_row env.rt e ∷ [])) same;
      }),
      f,
    )

write_review-Updates :
    (env : Env) (p : Principal) (trace : Text) (input : ReviewInput) (norm : ReviewFields)
    → (current : ProjectRow) (review : Review) (changes : Changes) (db : Db)
      (r : MutationResult × Db)
    → get input.project_id db.projects ≡ some current
    → current.sync_version ≡ input.expected_version
    → write_review env p trace input norm current review changes db ≡ ok r
    → Updates env input.project_id input.expected_version db r.1 × (r.0.replayed ≡ false)
unfolding write_review update_review
write_review-Updates env p trace input norm current review [] db r h v w =
    let answer = ok-injective _ r w in (unchanged (rw (← answer) (Keeps-self db)), rw (← answer))
write_review-Updates env p trace input norm current review (c ∷ cs) db r h v w =
    after_review-Updates env p trace input current (c ∷ cs)
      (local_review_values input.department norm) (review_value_of review)
      (update_review review.id (set_review norm) db) db r refl h v w

-- What a fresh write of a review that succeeded was allowed to do, and did.
pub record Reviewed (env : Env) (p : Principal) (input : ReviewInput) (db : Db)
    (r : MutationResult × Db) : Type 0 where
  pub current : ProjectRow
  pub held : get input.project_id db.projects ≡ some current
  pub up_to_date : current.sync_version ≡ input.expected_version
  pub may_approve : can_approve_review env.rt p (workspace_of current) input.department ≡ true
  pub updates : Updates env input.project_id input.expected_version db r.1
  pub is_fresh : r.0.replayed ≡ false

update_review_row-Reviewed :
    (env : Env) (p : Principal) (trace : Text) (input : ReviewInput) (norm : ReviewFields)
    → (current : ProjectRow) (found : Option ReviewRow) (db : Db) (r : MutationResult × Db)
    → get input.project_id db.projects ≡ some current
    → update_review_row env p trace input norm current found db ≡ ok r
    → Reviewed env p input db r
unfolding update_review_row
update_review_row-Reviewed env p trace input norm current none db r h u =
    let now = workspace_of current in
    let (view, u1) = guard-ok (not (can_view_project env.rt p now)) _ _ r u in
    let (may, u2) = guard-ok (not (can_approve_review env.rt p now input.department)) _ _ r u1 in
    absurd (err-ne-ok _ r u2)
update_review_row-Reviewed env p trace input norm current (some found) db r h u =
    let now = workspace_of current in
    let (view, u1) = guard-ok (not (can_view_project env.rt p now)) _ _ r u in
    let (may, u2) = guard-ok (not (can_approve_review env.rt p now input.department)) _ _ r u1 in
    let (fresh, u3) =
      guard-ok (not (nat_beq current.sync_version input.expected_version)) _ _ r u2 in
    let v = (nat_beq_iff current.sync_version input.expected_version).0 (not-false _ fresh) in
    let (done, f) =
      write_review-Updates env p trace input norm current found.review
        (review_diff input.department found.review norm) db r h v u3 in
    record {
      current = current;
      held = h;
      up_to_date = v;
      may_approve = not-false _ may;
      updates = done;
      is_fresh = f;
    }

-- The lookup in front of the guards.
pub update_review_found-Reviewed :
    (env : Env) (p : Principal) (trace : Text) (input : ReviewInput) (norm : ReviewFields)
    → (db : Db) (r : MutationResult × Db) (found : Option ProjectRow)
    → get input.project_id db.projects ≡ found
    → update_review_found env p trace input norm found db ≡ ok r
    → Reviewed env p input db r
update_review_found-Reviewed env p trace input norm db r none h u = absurd (err-ne-ok _ r u)
update_review_found-Reviewed env p trace input norm db r (some current) h u =
    update_review_row-Reviewed env p trace input norm current
      (lock_review input.project_id input.department db) db r h u

create_review_row-Reviewed :
    (env : Env) (p : Principal) (trace : Text) (input : ReviewInput) (norm : ReviewFields)
    → (current : ProjectRow) (db : Db) (r : MutationResult × Db)
    → get input.project_id db.projects ≡ some current
    → create_review_row env p trace input norm current db ≡ ok r
    → Reviewed env p input db r
unfolding create_review_row insert_review
create_review_row-Reviewed env p trace input norm current db r h u =
    let now = workspace_of current in
    let (view, u1) = guard-ok (not (can_view_project env.rt p now)) _ _ r u in
    let (may, u2) = guard-ok (not (can_approve_review env.rt p now input.department)) _ _ r u1 in
    let (fresh, u3) =
      guard-ok (not (nat_beq current.sync_version input.expected_version)) _ _ r u2 in
    let (absent, u4) =
      guard-ok (is_held (lock_review input.project_id input.department db)) _ _ r u3 in
    let v = (nat_beq_iff current.sync_version input.expected_version).0 (not-false _ fresh) in
    let changes = new_review_changes input.department norm in
    let (done, f) =
      after_review-Updates env p trace input current changes (map (λ c. (c.0, c.1.to)) changes)
        (λ key. none) (insert_review input.project_id (new_review env input.department norm) db) db
        r refl h v u4 in
    record {
      current = current;
      held = h;
      up_to_date = v;
      may_approve = not-false _ may;
      updates = done;
      is_fresh = f;
    }

-- The lookup in front of the guards.
pub create_review_found-Reviewed :
    (env : Env) (p : Principal) (trace : Text) (input : ReviewInput) (norm : ReviewFields)
    → (db : Db) (r : MutationResult × Db) (found : Option ProjectRow)
    → get input.project_id db.projects ≡ found
    → create_review_found env p trace input norm found db ≡ ok r
    → Reviewed env p input db r
create_review_found-Reviewed env p trace input norm db r none h u = absurd (err-ne-ok _ r u)
create_review_found-Reviewed env p trace input norm db r (some current) h u =
    create_review_row-Reviewed env p trace input norm current db r h u
