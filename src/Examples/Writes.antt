-- ===== src/Examples/Writes.antt =====
-- Updates and a deletion on tables with one project and one watcher.
use bahn_project_manager.Prelude.{
  List, ℕ, ◌≡◌, ◌≢◌, refl, subst, ◌↔◌, true, false, none, some, [], ◌∷◌, ◌++◌, map, filter, any,
  has, arith, codes, get, nat_eq, text_eq, some-injective, nat_beq, nat_beq_iff, Bool-cases, inl,
  inr,
}
use bahn_project_manager.Runtime.{tally, plain_runtime}
use bahn_project_manager.Event.{project, project_created, DomainEvent}
use bahn_project_manager.Event.Slug.{slugify}
use bahn_project_manager.Permissions.{can_view_project, can_edit_project, can_delete_project}
use bahn_project_manager.Project.{Fields, ConflictInfo}
use bahn_project_manager.Store.{
  Db, ProjectRow, MutationResult, ok, err, not_found, forbidden, conflict, key_eq, lock_project,
}
use bahn_project_manager.Store.Log.{Gapless, versions, upto}
use bahn_project_manager.Store.Since.{Since}
use bahn_project_manager.Service.{Env, normalize_patch, workspace_of, conflict_of}
use bahn_project_manager.Service.Write.{
  Answer, UpdateInput, DeleteInput, update_row, delete_row, update_project, delete_project_by,
  new_workspace,
}
use bahn_project_manager.Service.Outcomes.{Permitted, update_project-Permitted}
use bahn_project_manager.Service.Deletion.{delete_project_by-removes}
use bahn_project_manager.Service.Refusals.{update_project-refused}
use bahn_project_manager.Service.Missed.{conflicting_fields_lem}
use bahn_project_manager.Examples.{anna, chief, ulm, event_of}

abbrev pub plain_env : Env
plain_env = record {
  rt = plain_runtime;
  clean = λ v. v;
  clean_bahnhofsmanagement = λ v. some v;
  clean_date = λ v. some v;
  request_hash = λ operation request. operation;
  uuid = λ n. codes "u" ++ tally n;
  now = codes "t";
  plan = λ e id nummer station.
      some (record { kind = codes "watch"; title = codes "T"; body = none; link = codes "/1" });
  snapshot = λ d. none;
  by_department = λ reviews. reviews;
}

abbrev pub row : ProjectRow
row = record {
  id = 1;
  sync_version = 1;
  fields = (codes "bahnhofsmanagement", ulm) ∷ (codes "kommentar", some (codes "a")) ∷ [];
  created_at = codes "t";
  updated_at = codes "t";
}

abbrev created : DomainEvent
created = record (event_of project project_created ulm none) { aggregate_version = 1 }

abbrev pub tables : Db
tables = record {
  projects = (1, row) ∷ [];
  reviews = [];
  audit = [];
  events = record { aggregate = 1; event = created } ∷ [];
  keys = [];
  notifications = [];
  watchers = (1, codes "8") ∷ [];
  reports =
      record {
        id = 5;
        project_id = some 1;
        link_source = none;
        linked_at = none;
        version = 1;
        label = codes "2024 / 1";
      }
      ∷ [];
  next_project = 2;
  next_review = 1;
  issued = 0;
}

-- The entries of a map with one key.
held_in_tables : (id : ℕ) (r : ProjectRow) → get id tables.projects ≡ some r → (1 ≡ id) × (row ≡ r)
unfolding get
held_in_tables id r h = elim (Bool-cases (nat_beq 1 id)) [
  | inl b ↦ ((nat_beq_iff 1 id).0 b, some-injective row r (rw b at h))
  | inr b ↦ absurd (cc (rw b at h))
]

pub tables-Gapless : Gapless tables
unfolding versions upto get
tables-Gapless = record {
  complete = λ id r h.
      let (one, same) = held_in_tables id r h in
      subst (λ k. versions k tables.events ≡ upto r.sync_version) one (rw (← same));
  unused = λ id h. let b : nat_beq 1 id ≡ false = ground (arith, nat_beq_iff 1 id) in (rw b, rw b);
}

abbrev new_kommentar : UpdateInput
new_kommentar = record {
  id = 1;
  expected_version = 1;
  changes = (codes "kommentar", some (codes "b")) ∷ [];
  key = codes "k1";
}

abbrev pub or_tables : Answer → MutationResult × Db
or_tables (ok r) = r
or_tables (err e) = (record { project = none; event_id = []; replayed = true }, tables)

abbrev updated : MutationResult × Db
updated = or_tables (update_project plain_env anna new_kommentar (codes "x") tables)

updated_ok : update_project plain_env anna new_kommentar (codes "x") tables ≡ ok updated
unfolding update_project update_row slugify
updated_ok = refl

updated_fresh : updated.0.replayed ≡ false
unfolding update_project update_row slugify
updated_fresh = refl

update_project-Permitted_example :
    (norm : Fields) × (normalize_patch plain_env new_kommentar.changes ≡ ok norm)
    × Permitted plain_env anna new_kommentar norm tables
update_project-Permitted_example =
    update_project-Permitted plain_env anna new_kommentar (codes "x") tables updated updated_ok
      updated_fresh

normalized : normalize_patch plain_env new_kommentar.changes ≡ ok new_kommentar.changes
unfolding normalize_patch
normalized = refl

key_is_new : get (anna.id, new_kommentar.key) tables.keys ≡ none
unfolding get
key_is_new = refl

update_project-refused_example :
    (lock_project 1 tables ≡ none
      → update_project plain_env anna new_kommentar (codes "x") tables ≡ err not_found)
    × ((current : ProjectRow)
        → lock_project 1 tables ≡ some current
        → (can_view_project plain_runtime anna (workspace_of current) ≡ false
            → update_project plain_env anna new_kommentar (codes "x") tables ≡ err not_found)
          × (can_view_project plain_runtime anna (workspace_of current) ≡ true
              → can_edit_project plain_runtime anna (workspace_of current) ≡ false
              → update_project plain_env anna new_kommentar (codes "x") tables ≡ err forbidden)
          × (can_edit_project plain_runtime anna (workspace_of current) ≡ true
              → can_edit_project plain_runtime anna (new_workspace new_kommentar.changes current)
                ≡ false
              → update_project plain_env anna new_kommentar (codes "x") tables ≡ err forbidden)
          × (can_edit_project plain_runtime anna (workspace_of current) ≡ true
              → can_edit_project plain_runtime anna (new_workspace new_kommentar.changes current)
                ≡ true
              → current.sync_version ≢ 1
              → (c : ConflictInfo) × (update_project plain_env anna new_kommentar (codes "x") tables
                  ≡ err (conflict c))
                × (c.current_version ≡ current.sync_version)
                × (c.expected_version ≡ 1)
                × (c.local_values ≡ new_kommentar.changes)))
update_project-refused_example =
    update_project-refused plain_env anna new_kommentar (codes "x") new_kommentar.changes tables
      normalized key_is_new

abbrev removal : DeleteInput
removal = record { id = 1; expected_version = 1; key = codes "k2" }

abbrev removed : MutationResult × Db
removed = or_tables (delete_project_by plain_env chief removal (codes "x") tables)

removed_ok : delete_project_by plain_env chief removal (codes "x") tables ≡ ok removed
unfolding delete_project_by delete_row slugify
removed_ok = refl

removed_fresh : removed.0.replayed ≡ false
unfolding delete_project_by delete_row slugify
removed_fresh = refl

delete_project_by-removes_example :
    (current : ProjectRow) × (get 1 tables.projects ≡ some current)
    × (current.sync_version ≡ 1)
    × (can_delete_project chief (workspace_of current) ≡ true)
    × (lock_project 1 removed.1 ≡ none)
delete_project_by-removes_example =
    delete_project_by-removes plain_env chief removal (codes "x") tables removed removed_ok
      removed_fresh

conflicting_fields_lem_example :
    let c = conflict_of plain_env updated.1 row 1 1 new_kommentar.changes (λ f. none) in
    (missed : List DomainEvent) × Since 1 1 100 updated.1 missed
    × (c.conflicting_fields
        ≡ filter (λ f. any (λ e. has f e.changes) missed) (map (λ f. f.0) new_kommentar.changes))
    × ((c.disjoint ≡ true) ↔ (c.conflicting_fields ≡ []))
conflicting_fields_lem_example =
    conflicting_fields_lem plain_env updated.1 row 1 1 new_kommentar.changes (λ f. none)
