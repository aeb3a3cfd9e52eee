-- ===== src/Service/ReviewLog.antt =====
-- server/domain/projectService.ts: `updateReview` and `createReview` as a whole, with their keys and
-- the log.
use bahn_project_manager.Prelude.{
  ◌≡◌, refl, sym, ap, ◌∙◌, true, false, some, arith, get, nat_eq, Text, codes,
}
use bahn_project_manager.Runtime.{RuntimeLaws}
use bahn_project_manager.Permissions.{Principal, can_approve_review}
use bahn_project_manager.Store.{Db, ProjectRow, MutationResult, ok, lock_project}
use bahn_project_manager.Store.Log.{bind-ok, Gapless}
use bahn_project_manager.Service.{Env, workspace_of}
use bahn_project_manager.Service.Keyed.{repeated, first, keyed-Outcome, keyed-again, KeepsKeys}
use bahn_project_manager.Service.Outcomes.{Updates-keys, Gapless-Updates, Gapless-complete}
use bahn_project_manager.Service.Write.{Answer, keyed}
use bahn_project_manager.Service.Reviews.{
  ReviewInput, ReviewFields, clean_review, update_review_found, update_review_by,
  create_review_found, create_review_by,
}
use bahn_project_manager.Service.Reviewed.{
  Reviewed, update_review_found-Reviewed, create_review_found-Reviewed,
}

-- The person and the project version behind a write of a review.
pub record Approved (env : Env) (p : Principal) (input : ReviewInput) (db : Db) : Type 0 where
  pub current : ProjectRow
  pub held : get input.project_id db.projects ≡ some current
  pub up_to_date : current.sync_version ≡ input.expected_version
  pub may_approve : can_approve_review env.rt p (workspace_of current) input.department ≡ true

-- A keyed write whose body is a write of a review.
module _ (env : Env) (p : Principal) (input : ReviewInput) (operation hash : Text)
    (body : Db → Answer)
    (reviewed : (d : Db) (b : MutationResult × Db) → body d ≡ ok b → Reviewed env p input d b)
    (db : Db) (r : MutationResult × Db)
    (done_ok : keyed p.id input.key operation hash body db ≡ ok r) where
  body-KeepsKeys : KeepsKeys body
  body-KeepsKeys d b h =
      Updates-keys env input.project_id input.expected_version d b.1 ((reviewed d b h).updates)

  review-again :
      (again : Db → Answer)
      → keyed p.id input.key operation hash again r.1 ≡ ok (record (r.0) { replayed = true }, r.1)
  review-again again =
      keyed-again p.id input.key operation hash body body-KeepsKeys db r again done_ok

  review-Approved : r.0.replayed ≡ false → Approved env p input db
  review-Approved f =
      elim (keyed-Outcome p.id input.key operation hash body body-KeepsKeys db r done_ok) [
        | repeated s stored e ↦ absurd (ground (arith, sym (ap (λ q. q.0.replayed) e) ∙ f))
        | first b done e found ↦
            let a = reviewed _ b done in
            record {
              current = a.current;
              held = a.held;
              up_to_date = a.up_to_date;
              may_approve = a.may_approve;
            }
      ]

  review-Gapless : RuntimeLaws env.rt → Gapless db → Gapless r.1
  review-Gapless laws g =
      elim (keyed-Outcome p.id input.key operation hash body body-KeepsKeys db r done_ok) [
        | repeated s stored e ↦ rw e g
        | first b done e found ↦
            let a = reviewed _ b done in
            rw e (
              Gapless-complete p.id input.key b.0 b.1 (
                Gapless-Updates env input.project_id input.expected_version _ b.1 laws
                  (record { complete = g.complete; unused = g.unused }) a.updates))
      ]

-- The bodies of the two writes.
abbrev pub update_body : Env → Principal → Text → ReviewInput → ReviewFields → Db → Answer
update_body env p trace input norm d =
    update_review_found env p trace input norm (lock_project input.project_id d) d

abbrev pub create_body : Env → Principal → Text → ReviewInput → ReviewFields → Db → Answer
create_body env p trace input norm d =
    create_review_found env p trace input norm (lock_project input.project_id d) d

pub update_body-Reviewed :
    (env : Env) (p : Principal) (trace : Text) (input : ReviewInput) (norm : ReviewFields)
    → (d : Db) (b : MutationResult × Db) → update_body env p trace input norm d ≡ ok b
    → Reviewed env p input d b
unfolding lock_project
update_body-Reviewed env p trace input norm d b h =
    update_review_found-Reviewed env p trace input norm d b (get input.project_id d.projects) refl h

pub create_body-Reviewed :
    (env : Env) (p : Principal) (trace : Text) (input : ReviewInput) (norm : ReviewFields)
    → (d : Db) (b : MutationResult × Db) → create_body env p trace input norm d ≡ ok b
    → Reviewed env p input d b
unfolding lock_project
create_body-Reviewed env p trace input norm d b h =
    create_review_found-Reviewed env p trace input norm d b (get input.project_id d.projects) refl h

-- A review that is edited, and not by repetition, is edited by someone who may approve for its
-- department in the workspace of the project, against the version of the project's row.
pub update_review_by-Approved :
    (env : Env) (p : Principal) (input : ReviewInput) (trace : Text) (db : Db)
    → (r : MutationResult × Db) → update_review_by env p input trace db ≡ ok r
    → r.0.replayed ≡ false
    → Approved env p input db
unfolding update_review_by
update_review_by-Approved env p input trace db r h =
    let (norm, n, k) = bind-ok (clean_review env input.fields) _ r h in
    review-Approved env p input (codes "project.updateReview") _
      (update_body env p trace input norm) (update_body-Reviewed env p trace input norm) db r k

-- Whatever `updateReview` does, a log that holds every version of every project stays one.
pub update_review_by-Gapless :
    (env : Env) (p : Principal) (input : ReviewInput) (trace : Text) (db : Db)
    → (r : MutationResult × Db) → RuntimeLaws env.rt
    → Gapless db
    → update_review_by env p input trace db ≡ ok r
    → Gapless r.1
unfolding update_review_by
update_review_by-Gapless env p input trace db r laws g h =
    let (norm, n, k) = bind-ok (clean_review env input.fields) _ r h in
    review-Gapless env p input (codes "project.updateReview") _ (update_body env p trace input norm)
      (update_body-Reviewed env p trace input norm) db r k laws g

-- A review that was edited, sent again under its key: the answer is the stored one, marked as
-- repeated, and the tables stay as they are.
pub update_review_by-again :
    (env : Env) (p : Principal) (input : ReviewInput) (trace trace' : Text) (db : Db)
    → (r : MutationResult × Db) → update_review_by env p input trace db ≡ ok r
    → update_review_by env p input trace' r.1 ≡ ok (record (r.0) { replayed = true }, r.1)
unfolding update_review_by
update_review_by-again env p input trace trace' db r h =
    let (norm, n, k) = bind-ok (clean_review env input.fields) _ r h in
    rw n (
      review-again env p input (codes "project.updateReview") _ (update_body env p trace input norm)
        (update_body-Reviewed env p trace input norm) db r k (update_body env p trace' input norm))

-- A review that is created, and not by repetition, is created by someone who may approve for its
-- department in the workspace of the project, against the version of the project's row.
pub create_review_by-Approved :
    (env : Env) (p : Principal) (input : ReviewInput) (trace : Text) (db : Db)
    → (r : MutationResult × Db) → create_review_by env p input trace db ≡ ok r
    → r.0.replayed ≡ false
    → Approved env p input db
unfolding create_review_by
create_review_by-Approved env p input trace db r h =
    let (norm, n, k) = bind-ok (clean_review env input.fields) _ r h in
    review-Approved env p input (codes "project.createReview") _
      (create_body env p trace input norm) (create_body-Reviewed env p trace input norm) db r k

-- Whatever `createReview` does, a log that holds every version of every project stays one.
pub create_review_by-Gapless :
    (env : Env) (p : Principal) (input : ReviewInput) (trace : Text) (db : Db)
    → (r : MutationResult × Db) → RuntimeLaws env.rt
    → Gapless db
    → create_review_by env p input trace db ≡ ok r
    → Gapless r.1
unfolding create_review_by
create_review_by-Gapless env p input trace db r laws g h =
    let (norm, n, k) = bind-ok (clean_review env input.fields) _ r h in
    review-Gapless env p input (codes "project.createReview") _ (create_body env p trace input norm)
      (create_body-Reviewed env p trace input norm) db r k laws g

-- A review that was created, sent again under its key: the answer is the stored one, marked as
-- repeated, and the tables stay as they are.
pub create_review_by-again :
    (env : Env) (p : Principal) (input : ReviewInput) (trace trace' : Text) (db : Db)
    → (r : MutationResult × Db) → create_review_by env p input trace db ≡ ok r
    → create_review_by env p input trace' r.1 ≡ ok (record (r.0) { replayed = true }, r.1)
unfolding create_review_by
create_review_by-again env p input trace trace' db r h =
    let (norm, n, k) = bind-ok (clean_review env input.fields) _ r h in
    rw n (
      review-again env p input (codes "project.createReview") _ (create_body env p trace input norm)
        (create_body-Reviewed env p trace input norm) db r k (create_body env p trace' input norm))
