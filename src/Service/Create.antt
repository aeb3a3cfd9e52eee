-- ===== src/Service/Create.antt =====
-- server/domain/projectService.ts: `create`, which is `createWithin` under a key, and the log.
use bahn_project_manager.Prelude.{
  ℕ, ◌+◌, ◌≡◌, refl, sym, ap, ◌∙◌, true, false, not, Option, none, some, List, [], ◌∷◌, ◌++◌,
  if◌then◌else◌, put, nat_eq, nat_beq_iff, Text, codes, text_eq,
}
use bahn_project_manager.Runtime.{RuntimeLaws}
use bahn_project_manager.Event.{DomainEvent, Changes, project_created}
use bahn_project_manager.Permissions.{Principal, can_create_project}
use bahn_project_manager.Project.{Fields, ReviewField, review_change_key}
use bahn_project_manager.Store.{
  Db, ProjectRow, MutationResult, create, ok, err, ◌>>=◌, forbidden, insert_project, insert_review,
  append_audit, append_event, detail,
}
use bahn_project_manager.Store.Log.{
  bind-ok, ok-injective, guard-ok, Keeps, Keeps-self, Gapless-insert, Gapless, Gapless-Keeps,
  versions, is_of, event_row, append_event-ok,
}
use bahn_project_manager.Service.{
  Env, create_request, normalize_patch, column, build_event, audit_rows, label_of,
}
use bahn_project_manager.Service.Keyed.{repeated, first, keyed-Outcome, keyed-again, KeepsKeys}
use bahn_project_manager.Service.Guards.{not-false}
use bahn_project_manager.Service.Outcomes.{Gapless-complete}
use bahn_project_manager.Service.Write.{Answer, keyed, routed}

-- An initial review, with a date in wire form.
pub record NewReview : Type 0 where
  pub department : Text
  pub status : Option Text
  pub pruefer_name : Option Text
  pub datum : Option Text

-- The fields that are not null, recorded as changes from null.
unfoldable pub created_fields : Changes → Fields → Changes
unfolding put
created_fields known [] = known
created_fields known ((key, none) ∷ more) = created_fields known more
created_fields known ((key, some v) ∷ more) =
    created_fields (put key (record { from = none; to = some v }) known) more

unfoldable pub created_reviews : Changes → List NewReview → Changes
unfolding created_fields
created_reviews known [] = known
created_reviews known (r ∷ more) =
    created_reviews
      (created_fields known (
        (review_change_key r.department ReviewField.status, r.status)
        ∷ (review_change_key r.department ReviewField.pruefer_name, r.pruefer_name)
        ∷ (review_change_key r.department ReviewField.datum, r.datum)
        ∷ []))
      more

unfoldable pub insert_reviews : Env → ℕ → List NewReview → Db → Db
unfolding insert_review
insert_reviews env id [] db = db
insert_reviews env id (r ∷ more) db = insert_reviews env id more (
    insert_review id
      (record {
        id = 0;
        department = r.department;
        pruefer_name = r.pruefer_name;
        datum = r.datum;
        status = r.status;
        updated_at = env.now;
      })
      db)

unfoldable pub created_event :
    Env → Principal → Text → Fields → List NewReview → ℕ → ℕ → DomainEvent
unfolding build_event created_fields created_reviews
created_event env p trace norm reviews id drawn =
    build_event env project_created p trace id 1 (created_reviews (created_fields [] norm) reviews)
      (routed (column (codes "bahnhofsmanagement") norm) none) drawn

-- The steps of `createWithin` behind its guard.
unfoldable pub write_create : Env → Principal → Text → Fields → List NewReview → Db → Answer
unfolding insert_project insert_reviews created_event audit_rows append_audit append_event detail
write_create env p trace norm reviews db = do
  let (inserted, id) = insert_project norm env.now db
  let filled = insert_reviews env id reviews inserted
  let e = created_event env p trace norm reviews id filled.issued
  let label = label_of env (column (codes "station") norm) (column (codes "projektnummer") norm)
  let rows = audit_rows env p e create e.changes label none
  logged ← append_event env.rt e (append_audit rows (record filled { issued = filled.issued + 1 }))
  ok (
    record {
      project = detail env.by_department id logged;
      event_id = e.event_id;
      replayed = false;
    },
    logged,
  )

-- `createWithin`.
unfoldable pub create_within : Env → Principal → Text → Fields → List NewReview → Db → Answer
unfolding write_create can_create_project
create_within env p trace norm reviews db =
    if not (can_create_project env.rt p (column (codes "bahnhofsmanagement") norm))
    then err forbidden
    else write_create env p trace norm reviews db

-- `create`.
unfoldable pub create_project : Env → Principal → Fields → Text → Text → Db → Answer
unfolding normalize_patch keyed create_within
create_project env p fields key trace db = do
  norm ← normalize_patch env fields
  keyed p.id key (codes "project.create")
      (env.request_hash (codes "project.create") (create_request norm))
      (create_within env p trace norm []) db

-- The rows of reviews are a table of their own.
insert_reviews-Keeps :
    (env : Env) (id : ℕ) (reviews : List NewReview) (db : Db)
    → Keeps db (insert_reviews env id reviews db)
      × ((insert_reviews env id reviews db).events ≡ db.events)
unfolding insert_reviews insert_review
insert_reviews-Keeps env id [] db = (Keeps-self db, refl)
insert_reviews-Keeps env id (r ∷ more) db =
    let (k, e) = insert_reviews-Keeps env id more _ in
    (
      record {
        projects_eq = k.projects_eq;
        keys_eq = k.keys_eq;
        next_eq = k.next_eq;
        versions_eq = k.versions_eq;
      },
      e,
    )

-- What a fresh creation that succeeded was allowed to do, and did.
pub record Created (env : Env) (p : Principal) (norm : Fields) (db : Db) (r : MutationResult × Db)
    : Type 0 where
  pub may_create : can_create_project env.rt p (column (codes "bahnhofsmanagement") norm) ≡ true
  pub row : ProjectRow
  pub row_version : row.sync_version ≡ 1
  pub event : DomainEvent
  pub event_version : event.aggregate_version ≡ 1
  pub event_of_project :
      is_of (env.rt.number_of (env.rt.string_of db.next_project)) (event_row env.rt event) ≡ true
  pub written :
      Keeps
        (record db {
          projects = put db.next_project row db.projects;
          events = db.events ++ event_row env.rt event ∷ [];
          next_project = db.next_project + 1;
        })
        r.1
  pub is_fresh : r.0.replayed ≡ false

create_within-Created :
    (env : Env) (p : Principal) (trace : Text) (norm : Fields) (reviews : List NewReview) (db : Db)
    → (r : MutationResult × Db) → create_within env p trace norm reviews db ≡ ok r
    → Created env p norm db r
unfolding create_within write_create insert_project created_event append_audit
create_within-Created env p trace norm reviews db r u =
    let may = can_create_project env.rt p (column (codes "bahnhofsmanagement") norm) in
    let (allowed, u1) = guard-ok (not may) _ _ r u in
    let id = db.next_project in
    let row : ProjectRow = record {
      id = id;
      sync_version = 1;
      fields = norm;
      created_at = env.now;
      updated_at = env.now;
    } in
    let inserted = record db { projects = put id row db.projects; next_project = id + 1 } in
    let filled = insert_reviews env id reviews inserted in
    let (k, es) = insert_reviews-Keeps env id reviews inserted in
    let e = created_event env p trace norm reviews id filled.issued in
    let label =
      label_of env (column (codes "station") norm) (column (codes "projektnummer") norm) in
    let rows = audit_rows env p e create e.changes label none in
    let last = append_audit rows (record filled { issued = filled.issued + 1 }) in
    let (logged, one, u2) = bind-ok (append_event env.rt e last) _ r u1 in
    let same = append_event-ok env.rt e last logged one in
    let answer = ok-injective _ r u2 in
    let back : r.1 ≡ logged = ap (λ q. q.1) (sym answer) in
    record {
      may_create = not-false may allowed;
      row = row;
      row_version = refl;
      event = e;
      event_version = refl;
      event_of_project = (nat_beq_iff (env.rt.number_of (env.rt.string_of id)) _).1 refl;
      written = record {
        projects_eq = ap (λ d. d.projects) (back ∙ same) ∙ k.projects_eq;
        keys_eq = ap (λ d. d.keys) (back ∙ same) ∙ k.keys_eq;
        next_eq = ap (λ d. d.next_project) (back ∙ same) ∙ k.next_eq;
        versions_eq = λ j.
            ap (λ d. versions j d.events) (back ∙ same)
            ∙ ap (λ rs. versions j (rs ++ event_row env.rt e ∷ [])) es;
      };
      is_fresh = ap (λ q. q.0.replayed) (sym answer);
    }

pub create_within-KeepsKeys :
    (env : Env) (p : Principal) (trace : Text) (norm : Fields) (reviews : List NewReview)
    → KeepsKeys (create_within env p trace norm reviews)
create_within-KeepsKeys env p trace norm reviews db r h =
    (create_within-Created env p trace norm reviews db r h).written.keys_eq

-- A creation that succeeded, sent again under its key: the answer is the stored one, marked as
-- repeated, and no second project appears.
pub create_project-again :
    (env : Env) (p : Principal) (fields : Fields) (key trace trace' : Text) (db : Db)
    → (r : MutationResult × Db) → create_project env p fields key trace db ≡ ok r
    → create_project env p fields key trace' r.1 ≡ ok (record (r.0) { replayed = true }, r.1)
unfolding create_project
create_project-again env p fields key trace trace' db r h =
    let (norm, n, k) = bind-ok (normalize_patch env fields) _ r h in
    rw n (
      keyed-again p.id key (codes "project.create") _ (create_within env p trace norm [])
        (create_within-KeepsKeys env p trace norm []) db r (create_within env p trace' norm []) k)

-- Whatever `create` does, a log that holds every version of every project stays one: a new project
-- has an id that was never used, and its log begins with version 1.
pub create_project-Gapless :
    (env : Env) (p : Principal) (fields : Fields) (key trace : Text) (db : Db)
    → (r : MutationResult × Db) → RuntimeLaws env.rt
    → Gapless db
    → create_project env p fields key trace db ≡ ok r
    → Gapless r.1
unfolding create_project
create_project-Gapless env p fields key trace db r laws g h =
    let (norm, n, k) = bind-ok (normalize_patch env fields) _ r h in
    let body = create_within env p trace norm [] in
    let o =
      keyed-Outcome p.id key (codes "project.create") _ body
        (create_within-KeepsKeys env p trace norm []) db r k in
    elim o [
      | repeated s stored e ↦ rw e g
      | first b done e found ↦
          let c = create_within-Created env p trace norm [] _ b done in
          rw e (
            Gapless-complete p.id key b.0 b.1 (
              Gapless-Keeps _ b.1 c.written (
                Gapless-insert _ c.row (event_row env.rt c.event)
                  (record { complete = g.complete; unused = g.unused }) c.row_version
                  (rw (laws.number_of-string_of db.next_project) at c.event_of_project)
                  c.event_version)))
    ]
