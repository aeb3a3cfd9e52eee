-- ===== src/Service/Server/Keys.antt =====
-- server/domain/projectService.ts with `claimIdempotency`: the answers that are stored under keys.
use bahn_project_manager.Prelude.{
  ◌≡◌, ◌≢◌, refl, sym, ap, ◌∙◌, inl, inr, true, Option, none, some, List, [], ◌∷◌, codes, get, Text,
  Option-cases, text_beq, Bool-cases, get-put_ne,
}
use bahn_project_manager.Store.{
  Db, KeyRow, MutationResult, ok, key_eq, claim_idempotency, complete_idempotency, claimed, new_key,
}
use bahn_project_manager.Store.Log.{bind-ok, ok-injective, err-ne-ok, Result-cases}
use bahn_project_manager.Service.{
  Env, normalize_patch, update_request, delete_request, create_request, review_request,
}
use bahn_project_manager.Service.Write.{
  Answer, keyed, after_claim, replayed_answer, update_project, delete_project_by, update_fresh,
  delete_fresh,
}
use bahn_project_manager.Service.Keyed.{
  Stored, KeepsKeys, keyed-Outcome, repeated, first, complete-Stored,
}
use bahn_project_manager.Service.Outcomes.{update_fresh-KeepsKeys, Updates-keys}
use bahn_project_manager.Service.Deletion.{delete_fresh-KeepsKeys}
use bahn_project_manager.Service.Create.{create_project, create_within, create_within-KeepsKeys}
use bahn_project_manager.Service.Reviews.{
  clean_review, request_fields, update_review_by, create_review_by,
}
use bahn_project_manager.Service.ReviewLog.{
  update_body, create_body, update_body-Reviewed, create_body-Reviewed,
}
use bahn_project_manager.Service.Server.{
  Request, update_request_of, delete_request_of, create_request_of, review_update_of,
  review_create_of, perform, kept_tables, serve,
}

-- A write that is a keyed one, whatever its trace.
pub record KeyedWrite (actor key operation hash : Text) (w : Text → Db → Answer) : Type 0 where
  pub body : Text → Db → Answer
  pub keeps : (trace : Text) → KeepsKeys (body trace)
  pub same : (trace : Text) (db : Db) → w trace db ≡ keyed actor key operation hash (body trace) db

different_keys :
    (a b : Text × Text) (row : KeyRow) (db : Db)
    → get a db.keys ≡ none
    → get b db.keys ≡ some row
    → a ≢ b
different_keys a b row db unknown held q = absurd (cc (q, unknown, held))

-- Storing an answer under one key leaves what is stored under another.
other_key :
    (a b : Text × Text) (row : KeyRow) (r : MutationResult) (db : Db)
    → a ≢ b
    → get b db.keys ≡ some row
    → get b (complete_idempotency a.0 a.1 r db).keys ≡ some row
unfolding complete_idempotency
other_key a b row r db ne h = elim (Option-cases (get a db.keys)) [
  | inl n ↦ rw n h
  | inr (old, s) ↦ rw s (get-put_ne a b (record old { response = some r }) db.keys ne ∙ h)
]

-- A key that is known is answered from its row, or refused.
answered :
    (db : Db) (response : Option MutationResult) (r : MutationResult × Db)
    → replayed_answer db response ≡ ok r
    → r.1 ≡ db
answered db none r h = absurd (err-ne-ok _ r h)
answered db (some s) r h = ap (λ q. q.1) (sym (ok-injective _ r h))

known_key :
    (actor key operation hash : Text) (body : Db → Answer) (db : Db) (r : MutationResult × Db)
    (row : KeyRow)
    → after_claim actor key body (claimed actor key operation hash (some row) db) ≡ ok r
    → r.1 ≡ db
known_key actor key operation hash body db r row h =
    elim (Bool-cases (text_beq row.request_hash hash)) [
      | inr n ↦ absurd (err-ne-ok _ r (rw n at h))
      | inl y ↦ elim (Bool-cases (text_beq row.operation operation)) [
        | inr n ↦ absurd (err-ne-ok _ r (rw (y, n) at h))
        | inl z ↦ answered db row.response r (rw (y, z) at h)
      ]
    ]

-- What is stored under a key stays when a keyed write succeeds.
keyed_keeps_Stored :
    (a b k l o p g h : Text) (s : MutationResult) (body : Db → Answer) (db : Db)
    → (r : MutationResult × Db) → KeepsKeys body
    → Stored a k o g s db
    → keyed b l p h body db ≡ ok r
    → Stored a k o g s r.1
unfolding keyed claim_idempotency
keyed_keeps_Stored a b k l o p g h s body db r keeps (row, held, o_eq, g_eq, s_eq) done =
    elim (keyed-Outcome b l p h body keeps db r done) [
      | repeated t stored e ↦ rw e (row, held, o_eq, g_eq, s_eq)
      | first c ran e found ↦ elim (Option-cases (get (b, l) db.keys)) [
        | inl unknown ↦
            let ne = different_keys (b, l) (a, k) row db unknown held in
            let start : Db = (claimed b l p h none db).0 in
            let kept : get (a, k) c.1.keys ≡ some row =
              ap (λ m. get (a, k) m) (keeps start c ran)
              ∙ get-put_ne (b, l) (a, k) (new_key p h) db.keys ne
              ∙ held in
            rw e (row, other_key (b, l) (a, k) row c.0 c.1 ne kept, o_eq, g_eq, s_eq)
        | inr (old, known) ↦
            rw (known_key b l p h body db r old (rw known at done)) (row, held, o_eq, g_eq, s_eq)
      ]
    ]

-- After a keyed write its answer is stored.
pub keyed_stores :
    (actor key operation hash : Text) (body : Db → Answer) (db : Db) (r : MutationResult × Db)
    → KeepsKeys body
    → keyed actor key operation hash body db ≡ ok r
    → (s : MutationResult) × Stored actor key operation hash s r.1
      × (record s { replayed = true } ≡ record (r.0) { replayed = true })
keyed_stores actor key operation hash body db r keeps done =
    elim (keyed-Outcome actor key operation hash body keeps db r done) [
      | repeated s stored e ↦ rw e (s, stored, refl)
      | first b ran e found ↦
          rw e (b.0, complete-Stored actor key operation hash b.0 b.1 found, refl)
    ]

-- A request that succeeds is a keyed write.
pub record IsKeyed (w : Text → Db → Answer) : Type 0 where
  pub actor : Text
  pub key : Text
  pub operation : Text
  pub hash : Text
  pub write : KeyedWrite actor key operation hash w

pub perform-IsKeyed :
    (env : Env) (q : Request) (trace : Text) (db : Db) (r : MutationResult × Db)
    → perform env q trace db ≡ ok r
    → IsKeyed (perform env q)
unfolding perform update_project delete_project_by create_project update_review_by create_review_by
perform-IsKeyed env (update_request_of p input) trace db r h =
    let (norm, n, k) = bind-ok (normalize_patch env input.changes) _ r h in
    record {
      actor = p.id;
      key = input.key;
      operation = codes "project.update";
      hash =
          env.request_hash (codes "project.update")
            (update_request input.id input.expected_version norm);
      write = record {
        body = λ t. update_fresh env p t input norm;
        keeps = λ t. update_fresh-KeepsKeys env p t input norm;
        same = λ t d. rw n;
      };
    }
perform-IsKeyed env (delete_request_of p input) trace db r h = record {
  actor = p.id;
  key = input.key;
  operation = codes "project.delete";
  hash =
      env.request_hash (codes "project.delete") (delete_request input.id input.expected_version []);
  write = record {
    body = λ t. delete_fresh env p t input;
    keeps = λ t. delete_fresh-KeepsKeys env p t input;
    same = λ t d. refl;
  };
}
perform-IsKeyed env (create_request_of p fields key) trace db r h =
    let (norm, n, k) = bind-ok (normalize_patch env fields) _ r h in
    record {
      actor = p.id;
      key = key;
      operation = codes "project.create";
      hash = env.request_hash (codes "project.create") (create_request norm);
      write = record {
        body = λ t. create_within env p t norm [];
        keeps = λ t. create_within-KeepsKeys env p t norm [];
        same = λ t d. rw n;
      };
    }
perform-IsKeyed env (review_update_of p input) trace db r h =
    let (norm, n, k) = bind-ok (clean_review env input.fields) _ r h in
    record {
      actor = p.id;
      key = input.key;
      operation = codes "project.updateReview";
      hash = env.request_hash (codes "project.updateReview") (
          review_request input.project_id input.expected_version
            (request_fields input.department norm));
      write = record {
        body = λ t. update_body env p t input norm;
        keeps = λ t d b ran.
            Updates-keys env input.project_id input.expected_version d b.1
              ((update_body-Reviewed env p t input norm d b ran).updates);
        same = λ t d. rw n;
      };
    }
perform-IsKeyed env (review_create_of p input) trace db r h =
    let (norm, n, k) = bind-ok (clean_review env input.fields) _ r h in
    record {
      actor = p.id;
      key = input.key;
      operation = codes "project.createReview";
      hash = env.request_hash (codes "project.createReview") (
          review_request input.project_id input.expected_version
            (request_fields input.department norm));
      write = record {
        body = λ t. create_body env p t input norm;
        keeps = λ t d b ran.
            Updates-keys env input.project_id input.expected_version d b.1
              ((create_body-Reviewed env p t input norm d b ran).updates);
        same = λ t d. rw n;
      };
    }

-- What is stored under a key stays, whatever else is asked for.
pub serve_keeps_Stored :
    (env : Env) (requests : List (Request × Text)) (db : Db) (a k o g : Text) (s : MutationResult)
    → Stored a k o g s db
    → Stored a k o g s (serve env requests db)
unfolding serve
serve_keeps_Stored env [] db a k o g s held = held
serve_keeps_Stored env ((q, trace) ∷ more) db a k o g s held =
    serve_keeps_Stored env more (kept_tables db (perform env q trace db)) a k o g s
      (elim (Result-cases (perform env q trace db)) [
        | inl (r, h) ↦
            let w = perform-IsKeyed env q trace db r h in
            rw h (
              keyed_keeps_Stored a w.actor k w.key o w.operation g w.hash s (w.write.body trace) db
                r (w.write.keeps trace) held (sym (w.write.same trace db) ∙ h))
        | inr (e, h) ↦ rw h held
      ])
