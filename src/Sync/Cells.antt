-- ===== src/Sync/Cells.antt =====
-- The values that a change key can name, and how `withChange` of
-- client/src/realtime/projectSyncEngine.ts writes them.
use bahn_project_manager.Prelude.{
  ℕ, ◌≡◌, refl, inl, inr, Bool, true, false, ◌&&◌, Option, none, some, List, [], ◌∷◌, arith,
  if◌then◌else◌, get, put, nat_eq, text_eq, text_beq, text_beq_iff, Text, Bool-cases, Option-cases,
  get-put_self, get-put_ne,
}
use bahn_project_manager.Project.{
  ProjectDetail, Review, ReviewField, status, pruefer_name, datum, Fields, parse_review_key,
}
use bahn_project_manager.Sync.Engine.{edit_review, write_change, with_change, with_changes}

-- What a change key names: a field of the project, or a field of the review of a department.
pub data Cell : Type 0 where
  field : Text → Cell
  review : Text → ReviewField → Cell

abbrev cell_from : Text → Option (Text × ReviewField) → Cell
cell_from key none = field key
cell_from key (some (department, f)) = review department f

unfoldable pub cell_of : Text → Cell
cell_of key = cell_from key (parse_review_key key)

abbrev same_review_field : ReviewField → ReviewField → Bool
same_review_field status status = true
same_review_field pruefer_name pruefer_name = true
same_review_field datum datum = true
same_review_field _ _ = false

abbrev pub cell_beq : Cell → Cell → Bool
cell_beq (field a) (field b) = text_beq a b
cell_beq (review a f) (review b g) = text_beq a b && same_review_field f g
cell_beq _ _ = false

abbrev review_field : ReviewField → Review → Option Text
review_field status r = r.status
review_field pruefer_name r = r.pruefer_name
review_field datum r = r.datum

-- The value of a review field; null for a department with no review.
unfoldable pub review_value : Text → ReviewField → List Review → Option Text
review_value department f [] = none
review_value department f (r ∷ rs) =
    if text_beq r.department department then review_field f r else review_value department f rs

abbrev or_null : Option (Option Text) → Option Text
or_null none = none
or_null (some v) = v

unfoldable pub value_at : ProjectDetail → Cell → Option Text
unfolding review_value
value_at p (field key) = or_null (get key p.fields)
value_at p (review department f) = review_value department f p.reviews

review_value-edit_review :
    (d : Text) (f : ReviewField) (v : Option Text) (at : Text) (rs : List Review) (b : Text)
    (g : ReviewField)
    → review_value b g (edit_review d f v at rs)
      ≡ (if cell_beq (review d f) (review b g) then v else review_value b g rs)
unfolding review_value edit_review
review_value-edit_review d f v at [] b g = ground arith
review_value-edit_review d f v at (r ∷ rs) b g = ground (
  arith,
  review_value-edit_review d f v at rs b g,
  text_beq_iff r.department d,
  text_beq_iff r.department b,
  text_beq_iff d b,
)

or_null-put :
    (key : Text) (v : Option Text) (m : Fields) (j : Text)
    → or_null (get j (put key v m)) ≡ (if text_beq key j then v else or_null (get j m))
or_null-put key v m j = elim (Bool-cases (text_beq key j)) [
  | inl e ↦
      let same : key ≡ j = (text_beq_iff key j).0 e in
      rw e (rw (← same) (rw (get-put_self key v m)))
  | inr e ↦ rw (e, get-put_ne key j v m (λ same. ground (arith, text_beq_iff key j)))
]

value_at-write_change :
    (p : ProjectDetail) (key : Text) (v : Option Text) (o : Option (Text × ReviewField)) (c : Cell)
    → value_at (write_change p key v o) c
      ≡ (if cell_beq (cell_from key o) c then v else value_at p c)
unfolding value_at write_change
value_at-write_change p key v none (field j) = or_null-put key v p.fields j
value_at-write_change p key v none (review b g) = refl
value_at-write_change p key v (some (d, f)) (field j) = refl
value_at-write_change p key v (some (d, f)) (review b g) =
    review_value-edit_review d f v p.updated_at p.reviews b g

-- A change writes the cell that its key names, and no other.
pub value_at-with_change :
    (p : ProjectDetail) (key : Text) (v : Option Text) (c : Cell)
    → value_at (with_change p key v) c ≡ (if cell_beq (cell_of key) c then v else value_at p c)
unfolding with_change cell_of
value_at-with_change p key v c = value_at-write_change p key v (parse_review_key key) c

-- The last value that the changes give to a cell, or else the old one.
unfoldable pub last_value : Cell → Fields → Option Text → Option Text
last_value c [] old = old
last_value c ((key, v) ∷ more) old = last_value c more (if cell_beq (cell_of key) c then v else old)

pub value_at-with_changes :
    (p : ProjectDetail) (cs : Fields) (c : Cell)
    → value_at (with_changes p cs) c ≡ last_value c cs (value_at p c)
unfolding with_changes last_value
value_at-with_changes p [] c = refl
value_at-with_changes p ((key, v) ∷ more) c =
    rw (value_at-with_changes (with_change p key v) more c, value_at-with_change p key v c)

pub version-with_changes :
    (p : ProjectDetail) (cs : Fields)
    → ((with_changes p cs).version ≡ p.version) × ((with_changes p cs).id ≡ p.id)
unfolding with_changes with_change write_change
version-with_changes p [] = (refl, refl)
version-with_changes p ((key, v) ∷ more) =
    let (a, b) = version-with_changes (with_change p key v) more in
    elim (Option-cases (parse_review_key key)) [ inl e ↦ ground arith | inr (x, e) ↦ ground arith ]

-- A new version and time leave the cells alone.
pub value_at-stamp :
    (p : ProjectDetail) (v : ℕ) (at : Text) (c : Cell)
    → value_at (record p { version = v; updated_at = at }) c ≡ value_at p c
unfolding value_at
value_at-stamp p v at (field key) = refl
value_at-stamp p v at (review d f) = refl
