-- ===== src/Service/Server/Runs.antt =====
-- server/domain/projectService.ts as a whole: what holds of the tables after any sequence of
-- requests, and of a request that is sent again later.
use bahn_project_manager.Prelude.{
  ◌≡◌, sym, ap, ◌∙◌, inl, inr, true, List, [], ◌∷◌, get, nat_eq, Text,
}
use bahn_project_manager.Runtime.{RuntimeLaws}
use bahn_project_manager.Store.{Db, MutationResult, ok}
use bahn_project_manager.Store.Log.{Gapless, versions, Result-cases}
use bahn_project_manager.Service.{Env}
use bahn_project_manager.Service.Keyed.{keyed-Stored}
use bahn_project_manager.Service.Outcomes.{update_project-Gapless}
use bahn_project_manager.Service.Deletion.{delete_project_by-Gapless}
use bahn_project_manager.Service.Create.{create_project-Gapless}
use bahn_project_manager.Service.ReviewLog.{update_review_by-Gapless, create_review_by-Gapless}
use bahn_project_manager.Service.Server.{
  Request, update_request_of, delete_request_of, create_request_of, review_update_of,
  review_create_of, perform, kept_tables, serve,
}
use bahn_project_manager.Service.Server.Keys.{perform-IsKeyed, serve_keeps_Stored, keyed_stores}

perform-Gapless :
    (env : Env) (q : Request) (trace : Text) (db : Db) (r : MutationResult × Db)
    → RuntimeLaws env.rt
    → Gapless db
    → perform env q trace db ≡ ok r
    → Gapless r.1
unfolding perform
perform-Gapless env (update_request_of p input) = update_project-Gapless env p input
perform-Gapless env (delete_request_of p input) = delete_project_by-Gapless env p input
perform-Gapless env (create_request_of p fields key) = create_project-Gapless env p fields key
perform-Gapless env (review_update_of p input) = update_review_by-Gapless env p input
perform-Gapless env (review_create_of p input) = create_review_by-Gapless env p input

-- Tables without projects and events.
pub record IsEmpty (db : Db) : Type 0 where
  pub no_projects : db.projects ≡ []
  pub no_events : db.events ≡ []

IsEmpty-Gapless : (db : Db) → IsEmpty db → Gapless db
unfolding versions get
IsEmpty-Gapless db e = record {
  complete = λ id r h. absurd (cc (rw e.no_projects at h));
  unused = λ id h. (rw e.no_projects, rw e.no_events);
}

serve_keeps_Gapless :
    (env : Env) (requests : List (Request × Text)) (db : Db)
    → RuntimeLaws env.rt
    → Gapless db
    → Gapless (serve env requests db)
unfolding serve
serve_keeps_Gapless env [] db laws g = g
serve_keeps_Gapless env ((q, trace) ∷ more) db laws g =
    serve_keeps_Gapless env more (kept_tables db (perform env q trace db)) laws
      (elim (Result-cases (perform env q trace db)) [
        | inl (r, h) ↦ rw h (perform-Gapless env q trace db r laws g h)
        | inr (e, h) ↦ rw h g
      ])

-- Whatever is asked of a server that began without projects, and whatever of it is refused, the log
-- of events holds every version of every project that exists once and in order, up to the version of
-- its row; an id that was not given out has neither a row nor events.
pub serve-Gapless :
    (env : Env) (requests : List (Request × Text)) (db : Db)
    → RuntimeLaws env.rt
    → IsEmpty db
    → Gapless (serve env requests db)
serve-Gapless env requests db laws e =
    serve_keeps_Gapless env requests db laws (IsEmpty-Gapless db e)

-- A request that succeeded and comes again after any others, under another trace: the answer is the
-- first one, marked as repeated, and the tables stay as they are.
pub perform-once :
    (env : Env) (q : Request) (trace trace' : Text) (others : List (Request × Text)) (db : Db)
    → (r : MutationResult × Db) → perform env q trace db ≡ ok r
    → perform env q trace' (serve env others r.1)
      ≡ ok (record (r.0) { replayed = true }, serve env others r.1)
perform-once env q trace trace' others db r h =
    let w = perform-IsKeyed env q trace db r h in
    let (s, stored, same) =
      keyed_stores w.actor w.key w.operation w.hash (w.write.body trace) db r (w.write.keeps trace)
        (sym (w.write.same trace db) ∙ h) in
    let later = serve_keeps_Stored env others r.1 w.actor w.key w.operation w.hash s stored in
    w.write.same trace' (serve env others r.1)
    ∙ keyed-Stored w.actor w.key w.operation w.hash s (serve env others r.1) (w.write.body trace')
        later
    ∙ ap (λ m. ok (m, serve env others r.1)) same
