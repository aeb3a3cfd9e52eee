-- ===== src/Sync/Edits.antt =====
-- client/src/realtime/projectSyncEngine.ts: optimistic edits, their confirmation and rollback.
use bahn_project_manager.Prelude.{
  ℕ, not, Option, none, some, List, [], ◌∷◌, ◌++◌, if◌then◌else◌, get, put, del, has, nat_eq, Text,
  text_beq, filter,
}
use bahn_project_manager.Project.{ProjectDetail, Fields, ConflictInfo}
use bahn_project_manager.Sync.Engine.{
  Engine, Pending, upsert, server, optimistic, rollback, emit, list_of, view, server_version,
  is_behind,
}

-- `optimistic`.
unfoldable pub edit_optimistic : ℕ → Text → Fields → Engine → Engine
unfolding has get put view
edit_optimistic id mutation_id changes s =
    if has id s.projects
    then (let edits =
          list_of (get id s.pending)
          ++ record { mutation_id = mutation_id; changes = changes } ∷ [] in
        let t = record s { pending = put id edits s.pending } in
        emit (upsert id (view t id) optimistic) t)
    else s

store_pending : ℕ → List Pending → List (ℕ × List Pending) → List (ℕ × List Pending)
store_pending id [] m = del id m
store_pending id (e ∷ es) m = put id (e ∷ es) m

-- `dropPending`.
unfoldable pub drop_pending : ℕ → Text → Engine → Engine
unfolding get put del store_pending
drop_pending id mutation_id s = record s {
  pending =
      store_pending id
        (filter (λ e. not (text_beq e.mutation_id mutation_id)) (list_of (get id s.pending)))
        s.pending;
}

abbrev pub adopt_at : ℕ → ℕ → ProjectDetail → Engine → Engine
adopt_at id version p s =
    if is_behind (server_version s id) version
    then record s { projects = put id p s.projects }
    else s

-- `confirm`.
unfoldable pub confirm : ℕ → Text → ProjectDetail → Engine → Engine
unfolding drop_pending server_version put view
confirm id mutation_id authoritative s =
    let t = adopt_at id authoritative.version authoritative (drop_pending id mutation_id s) in
    emit (upsert id (view t id) server) t

-- `rollback`.
unfoldable pub roll_back : ℕ → Text → Option ConflictInfo → Engine → Engine
unfolding drop_pending server_version put view
roll_back id mutation_id conflict s =
    let t = drop_pending id mutation_id s in
    let u : Engine = elim conflict [
      | none ↦ t
      | some c ↦ adopt_at id c.current_version c.current t
    ] in
    emit (upsert id (view u id) rollback) u
