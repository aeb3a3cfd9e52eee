-- ===== src/Service/Keyed.antt =====
-- Idempotency keys: `claimIdempotency` and `completeIdempotency` of
-- server/infra/mysqlProjectStore.ts around the writes of server/domain/projectService.ts.
use bahn_project_manager.Prelude.{
  ◌≡◌, refl, sym, inl, inr, true, Option, none, some, get, Text, text_beq, text_beq_iff, Bool-cases,
  get-put_self,
}
use bahn_project_manager.Store.{
  Db, KeyRow, MutationResult, key_eq, ok, claim_idempotency, complete_idempotency, claimed, new_key,
}
use bahn_project_manager.Store.Log.{bind-ok, ok-injective, err-ne-ok}
use bahn_project_manager.Service.Write.{Answer, keyed, after_claim, replayed_answer}

-- The stored answer of a key, for this operation and this request.
abbrev pub Stored : Text → Text → Text → Text → MutationResult → Db → Type 0
Stored actor key operation hash r db =
    (row : KeyRow) × (get (actor, key) db.keys ≡ some row)
    × (row.operation ≡ operation)
    × (row.request_hash ≡ hash)
    × (row.response ≡ some r)

text_beq_self : (t : Text) → text_beq t t ≡ true
text_beq_self t = (text_beq_iff t t).1 refl

-- Once an answer is stored, the key gives it back, and changes nothing.
pub keyed-Stored :
    (actor key operation hash : Text) (r : MutationResult) (db : Db) (body : Db → Answer)
    → Stored actor key operation hash r db
    → keyed actor key operation hash body db ≡ ok (record r { replayed = true }, db)
unfolding keyed claim_idempotency
keyed-Stored actor key operation hash r db body (row, g, o, h, s) =
    rw (g, o, h, text_beq_self operation, text_beq_self hash, s)

pub complete-Stored :
    (actor key operation hash : Text) (r : MutationResult) (db : Db)
    → get (actor, key) db.keys ≡ some (new_key operation hash)
    → Stored actor key operation hash r (complete_idempotency actor key r db)
unfolding complete_idempotency
complete-Stored actor key operation hash r db g = (
  record (new_key operation hash) { response = some r },
  rw g (get-put_self (actor, key) (record (new_key operation hash) { response = some r }) db.keys),
  refl,
  refl,
  refl,
)

-- A body that succeeds leaves the keys as they were.
abbrev pub KeepsKeys : (Db → Answer) → Type 0
KeepsKeys body = (db : Db) (r : MutationResult × Db) → body db ≡ ok r → r.1.keys ≡ db.keys

-- How a keyed write succeeds: with the answer that was stored, or by its body, whose answer is then
-- stored.
pub data Outcome (actor key operation hash : Text) (body : Db → Answer) (db : Db)
    (r : MutationResult × Db) : Type 0 where
  repeated :
      (s : MutationResult)
      → Stored actor key operation hash s db
      → r ≡ (record s { replayed = true }, db)
      → Outcome actor key operation hash body db r
  first :
      (b : MutationResult × Db)
      → body (claimed actor key operation hash none db).0 ≡ ok b
      → r ≡ (b.0, complete_idempotency actor key b.0 b.1)
      → get (actor, key) b.1.keys ≡ some (new_key operation hash)
      → Outcome actor key operation hash body db r

module _ (actor key operation hash : Text) (body : Db → Answer) (k : KeepsKeys body) where
  repeated-Outcome :
      (db : Db) (r : MutationResult × Db) (row : KeyRow) (response : Option MutationResult)
      → get (actor, key) db.keys ≡ some row
      → row.operation ≡ operation
      → row.request_hash ≡ hash
      → row.response ≡ response
      → replayed_answer db response ≡ ok r
      → Outcome actor key operation hash body db r
  repeated-Outcome db r row none g o h s a = absurd (err-ne-ok _ r a)
  repeated-Outcome db r row (some t) g o h s a =
      repeated t (row, g, o, h, s) (sym (ok-injective _ r a))

  claimed-Outcome :
      (db : Db) (r : MutationResult × Db) (found : Option KeyRow)
      → get (actor, key) db.keys ≡ found
      → after_claim actor key body (claimed actor key operation hash found db) ≡ ok r
      → Outcome actor key operation hash body db r
  claimed-Outcome db r none g h =
      let start = (claimed actor key operation hash none db).0 in
      let (b, done, stored) = bind-ok (body start) _ r h in
      first b done (sym (ok-injective _ r stored))
        (rw (k start b done) (get-put_self (actor, key) (new_key operation hash) db.keys))
  claimed-Outcome db r (some row) g h = elim (Bool-cases (text_beq row.request_hash hash)) [
    | inr n ↦ absurd (err-ne-ok _ r (rw n at h))
    | inl y ↦ elim (Bool-cases (text_beq row.operation operation)) [
      | inr n ↦ absurd (err-ne-ok _ r (rw (y, n) at h))
      | inl z ↦
          repeated-Outcome db r row row.response g ((text_beq_iff row.operation operation).0 z)
            ((text_beq_iff row.request_hash hash).0 y) refl (rw (y, z) at h)
    ]
  ]

  -- A keyed write succeeds in one of the two ways.
  pub keyed-Outcome :
      (db : Db) (r : MutationResult × Db)
      → keyed actor key operation hash body db ≡ ok r
      → Outcome actor key operation hash body db r
  unfolding keyed claim_idempotency
  keyed-Outcome db r h = claimed-Outcome db r (get (actor, key) db.keys) refl h

  -- The same request again is answered by the stored answer, whatever the body would do now.
  pub keyed-again :
      (db : Db) (r : MutationResult × Db) (again : Db → Answer)
      → keyed actor key operation hash body db ≡ ok r
      → keyed actor key operation hash again r.1 ≡ ok (record (r.0) { replayed = true }, r.1)
  keyed-again db r again h = elim (keyed-Outcome db r h) [
    | repeated s stored e ↦ rw e (keyed-Stored actor key operation hash s db again stored)
    | first b done e found ↦ rw e (
        keyed-Stored actor key operation hash b.0 _ again
          (complete-Stored actor key operation hash b.0 b.1 found))
  ]
