-- ===== src/Service/Guards.antt =====
-- server/domain/projectService.ts: what a write requires, and what it leaves behind.
use bahn_project_manager.Prelude.{
  ℕ, ◌+◌, ◌≡◌, refl, sym, ap, ◌∙◌, Bool, true, false, not, ◌&&◌, inl, inr, Option, some, [], ◌∷◌,
  ◌++◌, get, put, nat_eq, nat_beq, nat_beq_iff, Text, opt_text_beq, opt_text_beq_iff, codes,
  Bool-cases, Option-cases,
}
use bahn_project_manager.Event.{DomainEvent, Changes, project}
use bahn_project_manager.Permissions.{Principal, can_view_project, can_edit_project}
use bahn_project_manager.Project.{Fields}
use bahn_project_manager.Store.{
  Db, ProjectRow, MutationResult, ok, lock_project, update_versioned, set_fields,
}
use bahn_project_manager.Store.Log.{ok-injective, guard-ok, err-ne-ok, Keeps, Keeps-self, event_row}
use bahn_project_manager.Service.{Env, new_fields, build_event, workspace_of, diff_of}
use bahn_project_manager.Service.Frame.{publish-Keeps}
use bahn_project_manager.Service.Write.{
  UpdateInput, write_update, update_row, update_fresh, new_workspace, updated_event, changed_or,
  after_update,
}

-- What `update` did to the tables: nothing but the key, or the next version of the row and its
-- event.
pub data Updates (env : Env) (id : ℕ) (expected : ℕ) (db : Db) : Db → Type 0 where
  unchanged : {db' : Db} → Keeps db db' → Updates env id expected db db'
  next_version :
      {db' : Db} (old new : ProjectRow) (e : DomainEvent)
      → get id db.projects ≡ some old
      → old.sync_version ≡ expected
      → new.sync_version ≡ expected + 1
      → e.aggregate_version ≡ expected + 1
      → e.aggregate_id ≡ env.rt.string_of id
      → e.aggregate_type ≡ project
      → Keeps
          (record db {
            projects = put id new db.projects;
            events = db.events ++ event_row env.rt e ∷ [];
          })
          db'
      → Updates env id expected db db'

pub update_versioned-ok :
    (id expected : ℕ) (set : Fields) (db : Db) (old : ProjectRow)
    → get id db.projects ≡ some old
    → old.sync_version ≡ expected
    → update_versioned id expected set db ≡ (
      record db {
        projects =
            put id
              (record old { sync_version = expected + 1; fields = set_fields set old.fields })
              db.projects;
      },
      true,
    )
unfolding update_versioned
update_versioned-ok id expected set db old h v =
    let b : nat_beq old.sync_version expected ≡ true =
      (nat_beq_iff old.sync_version expected).1 v in
    rw (h, b)

write_update-Updates :
    (env : Env) (p : Principal) (trace : Text) (input : UpdateInput) (norm : Fields)
    → (current : ProjectRow) (changes : Changes) (db : Db) (r : MutationResult × Db)
    → get input.id db.projects ≡ some current
    → current.sync_version ≡ input.expected_version
    → write_update env p trace input norm current changes db ≡ ok r
    → Updates env input.id input.expected_version db r.1 × (r.0.replayed ≡ false)
unfolding write_update after_update updated_event build_event
write_update-Updates env p trace input norm current [] db r h v w =
    let answer = ok-injective _ r w in (unchanged (rw (← answer) (Keeps-self db)), rw (← answer))
write_update-Updates env p trace input norm current (c ∷ cs) db r h v w =
    let set = new_fields (c ∷ cs) in
    let new : ProjectRow = record current {
      sync_version = input.expected_version + 1;
      fields = set_fields set current.fields;
    } in
    let written = update_versioned-ok input.id input.expected_version set db current h v in
    let e = updated_event env p trace input norm current (c ∷ cs) db.issued in
    let (k, f) =
      publish-Keeps env p e input.id current (c ∷ cs) (changed_or (codes "station") set current)
        (record db { projects = put input.id new db.projects }) r
        (sym (ap (after_update env p trace input norm current (c ∷ cs)) written) ∙ w) in
    (next_version current new e h v refl refl refl refl k, f)

-- What a fresh `update` that succeeded was allowed to do, and did.
pub record Allowed (env : Env) (p : Principal) (input : UpdateInput) (norm : Fields) (db : Db)
    (r : MutationResult × Db) : Type 0 where
  pub current : ProjectRow
  pub held : get input.id db.projects ≡ some current
  pub up_to_date : current.sync_version ≡ input.expected_version
  pub may_edit : can_edit_project env.rt p (workspace_of current) ≡ true
  pub may_move : can_edit_project env.rt p (new_workspace norm current) ≡ true
  pub updates : Updates env input.id input.expected_version db r.1
  pub is_fresh : r.0.replayed ≡ false

pub not-false : (b : Bool) → not b ≡ false → b ≡ true
not-false true h = refl
not-false false h = sym h

move_allowed :
    (env : Env) (p : Principal) (ws now : Option Text)
    → can_edit_project env.rt p now ≡ true
    → (not (opt_text_beq ws now) && not (can_edit_project env.rt p ws)) ≡ false
    → can_edit_project env.rt p ws ≡ true
move_allowed env p ws now e m = elim (Bool-cases (opt_text_beq ws now)) [
  | inl same ↦ ap (can_edit_project env.rt p) ((opt_text_beq_iff ws now).0 same) ∙ e
  | inr other ↦ not-false (can_edit_project env.rt p ws) (rw other at m)
]

update_row-Allowed :
    (env : Env) (p : Principal) (trace : Text) (input : UpdateInput) (norm : Fields)
    → (current : ProjectRow) (db : Db) (r : MutationResult × Db)
    → get input.id db.projects ≡ some current
    → update_row env p trace input norm current db ≡ ok r
    → Allowed env p input norm db r
unfolding update_row
update_row-Allowed env p trace input norm current db r h u =
    let ws = new_workspace norm current in
    let now = workspace_of current in
    let (view, u1) = guard-ok (not (can_view_project env.rt p now)) _ _ r u in
    let (edit, u2) = guard-ok (not (can_edit_project env.rt p now)) _ _ r u1 in
    let (move, u3) =
      guard-ok (not (opt_text_beq ws now) && not (can_edit_project env.rt p ws)) _ _ r u2 in
    let (fresh, u4) =
      guard-ok (not (nat_beq current.sync_version input.expected_version)) _ _ r u3 in
    let v = (nat_beq_iff current.sync_version input.expected_version).0 (not-false _ fresh) in
    let e = not-false (can_edit_project env.rt p now) edit in
    let (done, f) =
      write_update-Updates env p trace input norm current (diff_of current.fields norm) db r h v
        u4 in
    record {
      current = current;
      held = h;
      up_to_date = v;
      may_edit = e;
      may_move = move_allowed env p ws now e move;
      updates = done;
      is_fresh = f;
    }

-- The lookup in front of the guards.
pub update_fresh-Allowed :
    (env : Env) (p : Principal) (trace : Text) (input : UpdateInput) (norm : Fields) (db : Db)
    → (r : MutationResult × Db) → update_fresh env p trace input norm db ≡ ok r
    → Allowed env p input norm db r
unfolding update_fresh lock_project
update_fresh-Allowed env p trace input norm db r u =
    elim (Option-cases (get input.id db.projects)) [
      | inl n ↦ absurd (err-ne-ok _ r (rw (n, update_fresh, lock_project) at u))
      | inr (current, h) ↦
          update_row-Allowed env p trace input norm current db r h
            (rw (h, update_fresh, lock_project) at u)
    ]
