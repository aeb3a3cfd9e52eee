-- ===== src/Sync/Overlay.antt =====
-- client/src/realtime/projectSyncEngine.ts: local edits as an overlay on server state.
use bahn_project_manager.Prelude.{
  ℕ, ◌≡◌, refl, sym, ◌∙◌, inl, inr, Bool, true, false, ◌||◌, Option, some, List, [], ◌∷◌, arith,
  any, get, put, nat_eq, Text, Bool-cases, get-put_self,
}
use bahn_project_manager.Event.{DomainEvent}
use bahn_project_manager.Project.{ProjectDetail, Fields}
use bahn_project_manager.Sync.Engine.{
  Engine, Pending, list_of, view, overlay, with_changes, new_values,
}
use bahn_project_manager.Sync.Events.{is_removal, merge_event, update_project, commit}
use bahn_project_manager.Sync.Cells.{
  Cell, cell_of, cell_beq, value_at, last_value, value_at-with_changes, value_at-stamp,
}

-- The value of a cell under a list of edits, the last edit first to count.
pub last_edit : Cell → List Pending → Option Text → Option Text
last_edit c [] old = old
last_edit c (e ∷ more) old = last_edit c more (last_value c e.changes old)

value_at-overlay :
    (p : ProjectDetail) (es : List Pending) (c : Cell)
    → value_at (overlay p es) c ≡ last_edit c es (value_at p c)
unfolding overlay last_edit
value_at-overlay p [] c = refl
value_at-overlay p (e ∷ more) c =
    rw (value_at-overlay (with_changes p e.changes) more c, value_at-with_changes p e.changes c)

abbrev pub names_cell : Cell → Fields → Bool
names_cell c [] = false
names_cell c ((key, _) ∷ more) = cell_beq (cell_of key) c || names_cell c more

abbrev pub touches : Cell → List Pending → Bool
touches c es = any (λ e. names_cell c e.changes) es

last_value-named :
    (c : Cell) (cs : Fields) (a b : Option Text)
    → names_cell c cs ≡ true
    → last_value c cs a ≡ last_value c cs b
unfolding last_value
last_value-named c [] a b h = cc
last_value-named c ((key, v) ∷ more) a b h = elim (Bool-cases (cell_beq (cell_of key) c)) [
  | inl e ↦ rw e
  | inr e ↦ rw e (last_value-named c more a b (rw e at h))
]

last_value-other :
    (c : Cell) (cs : Fields) (a : Option Text) → names_cell c cs ≡ false → last_value c cs a ≡ a
unfolding last_value
last_value-other c [] a h = refl
last_value-other c ((key, v) ∷ more) a h = elim (Bool-cases (cell_beq (cell_of key) c)) [
  | inl e ↦ absurd (ground arith)
  | inr e ↦ rw e (last_value-other c more a (rw e at h))
]

last_edit-touched :
    (c : Cell) (es : List Pending) (a b : Option Text)
    → touches c es ≡ true
    → last_edit c es a ≡ last_edit c es b
unfolding last_edit
last_edit-touched c [] a b h = cc
last_edit-touched c (e ∷ more) a b h = elim (Bool-cases (names_cell c e.changes)) [
  | inl n ↦ rw (last_value-named c e.changes a b n)
  | inr n ↦ last_edit-touched c more _ _ (rw n at h)
]

last_edit-other :
    (c : Cell) (es : List Pending) (a : Option Text) → touches c es ≡ false → last_edit c es a ≡ a
unfolding last_edit
last_edit-other c [] a h = refl
last_edit-other c (e ∷ more) a h = elim (Bool-cases (names_cell c e.changes)) [
  | inl n ↦ absurd (ground arith)
  | inr n ↦ rw (last_value-other c e.changes a n) (last_edit-other c more a (rw n at h))
]

pub view-overlay :
    (s : Engine) (id : ℕ) (base : ProjectDetail)
    → get id s.projects ≡ some base
    → view s id ≡ some (overlay base (list_of (get id s.pending)))
unfolding view
view-overlay s id base h = rw (h, view)

projects-commit :
    (s : Engine) (id : ℕ) (base : ProjectDetail) (e : DomainEvent)
    → get id s.projects ≡ some base
    → is_removal e.event_type ≡ false
    → ((commit id e s).projects ≡ put id (merge_event base e) s.projects)
      × ((commit id e s).pending ≡ s.pending)
unfolding commit update_project
projects-commit s id base e h r = (rw (r, h), rw r)

-- The view of a project after an update has been applied to it.
view-commit :
    (s : Engine) (id : ℕ) (base : ProjectDetail) (e : DomainEvent)
    → get id s.projects ≡ some base
    → is_removal e.event_type ≡ false
    → view (commit id e s) id ≡ some (overlay (merge_event base e) (list_of (get id s.pending)))
view-commit s id base e h r =
    let (ps, es) = projects-commit s id base e h r in
    let held : get id (commit id e s).projects ≡ some (merge_event base e) =
      rw ps (get-put_self id (merge_event base e) s.projects) in
    view-overlay (commit id e s) id (merge_event base e) held ∙ rw es

value_at-merge_event :
    (p : ProjectDetail) (e : DomainEvent) (c : Cell)
    → value_at (merge_event p e) c ≡ last_value c (new_values e.changes) (value_at p c)
unfolding merge_event
value_at-merge_event p e c =
    value_at-with_changes (record p { version = e.aggregate_version; updated_at = e.timestamp })
      (new_values e.changes) c
    ∙ rw (value_at-stamp p e.aggregate_version e.timestamp c)

-- An update of another user that is applied under pending local edits: a cell that the edits touch
-- is shown as it was, and every other cell is shown with the value of the update, or the old one
-- if the update does not name it.
pub commit_keeps_edits :
    (s : Engine) (id : ℕ) (base : ProjectDetail) (e : DomainEvent)
    → get id s.projects ≡ some base
    → is_removal e.event_type ≡ false
    → (old new : ProjectDetail) × (view s id ≡ some old)
      × (view (commit id e s) id ≡ some new)
      × ((c : Cell)
          → ((touches c (list_of (get id s.pending)) ≡ true) → value_at new c ≡ value_at old c)
            × ((touches c (list_of (get id s.pending)) ≡ false)
                → value_at new c ≡ last_value c (new_values e.changes) (value_at base c)))
commit_keeps_edits s id base e h r =
    let es = list_of (get id s.pending) in
    (
      overlay base es,
      overlay (merge_event base e) es,
      view-overlay s id base h,
      view-commit s id base e h r,
      λ c. (
        (λ t.
            value_at-overlay (merge_event base e) es c
            ∙ last_edit-touched c es _ _ t
            ∙ sym (value_at-overlay base es c)),
        (λ t.
            value_at-overlay (merge_event base e) es c
            ∙ last_edit-other c es _ t
            ∙ value_at-merge_event base e c),
      ),
    )
