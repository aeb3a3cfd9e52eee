-- ===== src/Service/Missed.antt =====
-- server/domain/projectService.ts, `conflict`: the fields of a refused write that others changed in
-- the meantime.
use bahn_project_manager.Prelude.{
  ℕ, ◌≡◌, refl, ◌∙◌, ◌↔◌, Bool, true, ◌||◌, Option, List, [], ◌∷◌, arith, any, map, filter, get,
  put, has, text_eq, Text, text_beq, text_beq_iff,
}
use bahn_project_manager.Event.{DomainEvent, Changes, FieldChange}
use bahn_project_manager.Project.{Fields}
use bahn_project_manager.Store.{Db, ProjectRow, events_since}
use bahn_project_manager.Store.Since.{Since, events_since-Since}
use bahn_project_manager.Service.{
  Env, first_from, is_empty, merge_changes, changed_since, conflict_of,
}

has-put : (f g : Text) (c : FieldChange) (m : Changes) → has f (put g c m) ≡ text_beq g f || has f m
unfolding has put
has-put f g c [] = ground (arith, text_beq_iff g f)
has-put f g c ((h, d) ∷ m) =
    ground (arith, has-put f g c m, text_beq_iff g f, text_beq_iff h f, text_beq_iff h g)

has-merge_changes :
    (f : Text) (known more : Changes) → has f (merge_changes known more) ≡ has f known || has f more
unfolding merge_changes has
has-merge_changes f known [] = ground arith
has-merge_changes f known ((g, c) ∷ more) =
    let rest =
      has-merge_changes f (put g (record { from = first_from (get g known) c; to = c.to }) known)
        more in
    ground
      (arith, rest, has-put f g (record { from = first_from (get g known) c; to = c.to }) known)

-- A field is among the merged changes exactly when one of the events changed it.
has-changed_since :
    (f : Text) (known : Changes) (es : List DomainEvent)
    → has f (changed_since known es) ≡ has f known || any (λ e. has f e.changes) es
unfolding changed_since
has-changed_since f known [] = ground arith
has-changed_since f known (e ∷ es) = ground (
  arith,
  has-changed_since f (merge_changes known e.changes) es,
  has-merge_changes f known e.changes,
)

is_empty_iff {ℓ} : {A : Type ℓ} (xs : List A) → (is_empty xs ≡ true) ↔ (xs ≡ [])
is_empty_iff [] = ground arith
is_empty_iff (x ∷ xs) = ground arith

filter-cong :
    (f g : Text → Bool) (xs : List Text) → ((x : Text) → f x ≡ g x) → filter f xs ≡ filter g xs
filter-cong f g [] h = refl
filter-cong f g (x ∷ xs) h = ground (arith, h x, filter-cong f g xs h)

-- The missed events of a conflict are the first hundred events of the project in the log behind the
-- version expected, or all of them; the fields that the conflict calls conflicting are those of the
-- refused write that one of the missed events changed, and it is called disjoint exactly when there
-- are none.
pub conflicting_fields_lem :
    (env : Env) (db : Db) (current : ProjectRow) (id expected : ℕ) (norm : Fields)
    → (value_of : Text → Option Text)
    → let c = conflict_of env db current id expected norm value_of in
      (missed : List DomainEvent) × Since id expected 100 db missed
      × (c.conflicting_fields
          ≡ filter (λ f. any (λ e. has f e.changes) missed) (map (λ f. f.0) norm))
      × ((c.disjoint ≡ true) ↔ (c.conflicting_fields ≡ []))
unfolding conflict_of
conflicting_fields_lem env db current id expected norm value_of =
    let missed = events_since id expected 100 db in
    (
      missed,
      events_since-Since id expected 100 db,
      filter-cong (λ f. has f (changed_since [] missed)) (λ f. any (λ e. has f e.changes) missed)
          (map (λ f. f.0) norm) (λ f. has-changed_since f [] missed ∙ refl),
      is_empty_iff _,
    )
