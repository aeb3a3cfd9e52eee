-- ===== src/Service/Server.antt =====
-- server/domain/projectService.ts as a whole: its five writes as requests, and what a sequence of
-- requests leaves in the tables. A request that fails is rolled back.
pub mod Keys
pub mod Runs
use bahn_project_manager.Prelude.{ℕ, List, [], ◌∷◌, Text}
use bahn_project_manager.Permissions.{Principal}
use bahn_project_manager.Project.{Fields}
use bahn_project_manager.Store.{Db, MutationResult, Result, ok, err}
use bahn_project_manager.Service.{Env}
use bahn_project_manager.Service.Write.{
  Answer, UpdateInput, DeleteInput, update_project, delete_project_by,
}
use bahn_project_manager.Service.Create.{create_project}
use bahn_project_manager.Service.Reviews.{ReviewInput, update_review_by, create_review_by}

pub data Request : Type 0 where
  update_request_of : Principal → UpdateInput → Request
  delete_request_of : Principal → DeleteInput → Request
  create_request_of : Principal → Fields → Text → Request
  review_update_of review_create_of : Principal → ReviewInput → Request

-- The write that a request asks for.
unfoldable pub perform : Env → Request → Text → Db → Answer
unfolding update_project delete_project_by create_project update_review_by create_review_by
perform env (update_request_of p input) trace db = update_project env p input trace db
perform env (delete_request_of p input) trace db = delete_project_by env p input trace db
perform env (create_request_of p fields key) trace db = create_project env p fields key trace db
perform env (review_update_of p input) trace db = update_review_by env p input trace db
perform env (review_create_of p input) trace db = create_review_by env p input trace db

-- The tables after a transaction: those of its answer, or those before it.
abbrev pub kept_tables : Db → Answer → Db
kept_tables db (ok (r, after)) = after
kept_tables db (err e) = db

-- Requests, each with the id of its trace, one after the other.
unfoldable pub serve : Env → List (Request × Text) → Db → Db
unfolding perform
serve env [] db = db
serve env ((q, trace) ∷ more) db = serve env more (kept_tables db (perform env q trace db))
