-- ===== src/Examples/Server.antt =====
-- Requests to a server that begins empty, and one that is repeated after another.
use bahn_project_manager.Prelude.{◌≡◌, refl, true, some, List, [], ◌∷◌, Text, codes}
use bahn_project_manager.Runtime.{plain_runtime-laws}
use bahn_project_manager.Event.Slug.{slugify}
use bahn_project_manager.Project.{Fields}
use bahn_project_manager.Store.{Db, MutationResult, ok}
use bahn_project_manager.Store.Log.{Gapless}
use bahn_project_manager.Service.Write.{UpdateInput, DeleteInput, update_row}
use bahn_project_manager.Service.Server.{
  Request, update_request_of, delete_request_of, create_request_of, perform, serve,
}
use bahn_project_manager.Service.Server.Runs.{IsEmpty, serve-Gapless, perform-once}
use bahn_project_manager.Examples.{anna, chief, ulm}
use bahn_project_manager.Examples.Writes.{plain_env, tables, or_tables}

abbrev no_tables : Db
no_tables = record tables {
  projects = [];
  events = [];
  watchers = [];
  reports = [];
  next_project = 1;
}

no_tables-IsEmpty : IsEmpty no_tables
no_tables-IsEmpty = record { no_projects = refl; no_events = refl }

abbrev new_project : Fields
new_project = (codes "bahnhofsmanagement", ulm) ∷ (codes "station", some (codes "Ulm Hbf")) ∷ []

abbrev new_kommentar : UpdateInput
new_kommentar = record {
  id = 1;
  expected_version = 1;
  changes = (codes "kommentar", some (codes "b")) ∷ [];
  key = codes "k1";
}

abbrev removal : DeleteInput
removal = record { id = 1; expected_version = 2; key = codes "k2" }

abbrev requests : List (Request × Text)
requests =
    (create_request_of anna new_project (codes "k0"), codes "x")
    ∷ (update_request_of anna new_kommentar, codes "y")
    ∷ []

serve-Gapless_example : Gapless (serve plain_env requests no_tables)
serve-Gapless_example =
    serve-Gapless plain_env requests no_tables plain_runtime-laws no_tables-IsEmpty

abbrev updated : MutationResult × Db
updated = or_tables (perform plain_env (update_request_of anna new_kommentar) (codes "x") tables)

updated_ok :
    perform plain_env (update_request_of anna new_kommentar) (codes "x") tables ≡ ok updated
unfolding perform update_row slugify
updated_ok = refl

abbrev removed : List (Request × Text)
removed = (delete_request_of chief removal, codes "z") ∷ []

perform-once_example :
    perform plain_env
      (update_request_of anna new_kommentar)
      (codes "y")
      (serve plain_env removed updated.1)
    ≡ ok (record (updated.0) { replayed = true }, serve plain_env removed updated.1)
perform-once_example =
    perform-once plain_env (update_request_of anna new_kommentar) (codes "x") (codes "y") removed
      tables updated updated_ok
