-- ===== src/Examples/Reads.antt =====
-- A client that holds version 0 of a project, and one that asks for a project that is not there.
use bahn_project_manager.Prelude.{◌≡◌, refl, inl, some, none, true, arith, get, nat_eq}
use bahn_project_manager.Event.Slug.{slugify}
use bahn_project_manager.Permissions.{can_view_project}
use bahn_project_manager.Store.{lock_project}
use bahn_project_manager.Service.{workspace_of}
use bahn_project_manager.Service.Reads.{sync_one, gone, BringsUp, sync_one-BringsUp, sync_one-gone}
use bahn_project_manager.Examples.{anna}
use bahn_project_manager.Examples.Writes.{plain_env, tables, row}

row_held : lock_project 1 tables ≡ some row
unfolding lock_project
row_held = refl

row_seen : can_view_project plain_env.rt anna (workspace_of row) ≡ true
unfolding can_view_project slugify get
row_seen = refl

sync_one-BringsUp_example :
    BringsUp plain_env anna 1 0 row tables (sync_one plain_env anna (1, 0) tables)
sync_one-BringsUp_example =
    sync_one-BringsUp plain_env anna 1 0 row tables row_held row_seen (omega arith)

not_held : lock_project 9 tables ≡ none
unfolding lock_project
not_held = refl

sync_one-gone_example : sync_one plain_env anna (9, 1) tables ≡ gone 9
sync_one-gone_example = sync_one-gone plain_env anna 9 1 tables (inl not_held)
