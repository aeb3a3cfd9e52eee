-- ===== src/Event/Seen.antt =====
-- shared/domain-events.ts, `SeenEvents`: a bounded set of event ids in insertion order.
use bahn_project_manager.Prelude.{
  ℕ, ◌+◌, ◌≤◌, ◌<◌, ◌≡◌, refl, ◌⊎◌, inl, inr, Bool, true, false, ◌||◌, List, [], ◌∷◌, ◌++◌, arith,
  any, Bool-cases, length, length-append, if◌then◌else◌, ltb, Text, text_beq, text_beq_iff,
}

pub record SeenEvents : Type 0 where
  pub ids : List Text  -- oldest first
  pub capacity : ℕ

unfoldable pub empty_seen : ℕ → SeenEvents
empty_seen capacity = record { ids = []; capacity = capacity }

abbrev pub contains : Text → List Text → Bool
contains id ids = any (text_beq id) ids

-- `ids.delete(oldest)`: nothing for the empty set.
unfoldable pub drop_oldest : List Text → List Text
drop_oldest [] = []
drop_oldest (_ ∷ ids) = ids

-- `seen(eventId)`: the new set, and whether the id was there.
unfoldable pub seen : SeenEvents → Text → SeenEvents × Bool
unfolding drop_oldest
seen s id =
    if contains id s.ids
    then (s, true)
    else let ids = s.ids ++ id ∷ [] in
      (record s { ids = if ltb s.capacity (length ids) then drop_oldest ids else ids }, false)

-- Feeding a sequence of ids.
unfoldable pub seen_all : SeenEvents → List Text → SeenEvents
seen_all s [] = s
seen_all s (id ∷ more) = seen_all (seen s id).0 more

abbrev IsBounded : SeenEvents → Type 0
IsBounded s = length s.ids ≤ s.capacity

length-drop_oldest :
    (id : Text) (ids : List Text) → length (drop_oldest (ids ++ id ∷ [])) ≡ length ids
unfolding drop_oldest
length-drop_oldest id [] = refl
length-drop_oldest id (_ ∷ ids) = omega (arith, length-append {0} ids (id ∷ []))

seen-IsBounded : (s : SeenEvents) (id : Text) → IsBounded s → IsBounded (seen s id).0
unfolding seen
seen-IsBounded s id h =
    ground (arith, length-append {0} s.ids (id ∷ []), length-drop_oldest id s.ids)

-- `id` stands in the list with at most `n` younger ids behind it.
abbrev Recent : ℕ → Text → List Text → Type 0
Recent n id [] = ⊥
Recent n id (x ∷ xs) = ((x ≡ id) × (length xs ≤ n)) ⊎ Recent n id xs

Recent-append :
    (n : ℕ) (id y : Text) (xs : List Text) → Recent n id xs → Recent (n + 1) id (xs ++ y ∷ [])
Recent-append n id y (x ∷ xs) (inl (e, h)) = inl (e, omega (arith, length-append {0} xs (y ∷ [])))
Recent-append n id y (x ∷ xs) (inr h) = inr (Recent-append n id y xs h)
Recent-append n id y [] h = absurd h

Recent-suc : (n : ℕ) (id : Text) (xs : List Text) → Recent n id xs → Recent (n + 1) id xs
Recent-suc n id (x ∷ xs) (inl (e, h)) = inl (e, omega arith)
Recent-suc n id (x ∷ xs) (inr h) = inr (Recent-suc n id xs h)
Recent-suc n id [] h = absurd h

Recent-drop_oldest :
    (n : ℕ) (id : Text) (xs : List Text)
    → Recent n id xs
    → n + 1 < length xs
    → Recent n id (drop_oldest xs)
unfolding drop_oldest
Recent-drop_oldest n id (x ∷ xs) (inl (e, h)) l = absurd (omega arith)
Recent-drop_oldest n id (x ∷ xs) (inr h) l = h
Recent-drop_oldest n id [] h l = absurd h

Recent-contains : (n : ℕ) (id : Text) (xs : List Text) → Recent n id xs → contains id xs ≡ true
Recent-contains n id (x ∷ xs) (inl (e, h)) = ground (arith, text_beq_iff id x)
Recent-contains n id (x ∷ xs) (inr h) = ground (arith, Recent-contains n id xs h)
Recent-contains n id [] h = absurd h

seen-Recent :
    (n : ℕ) (s : SeenEvents) (id y : Text)
    → IsBounded s
    → Recent n id s.ids
    → n + 2 ≤ s.capacity
    → Recent (n + 1) id (seen s y).0.ids
unfolding seen
seen-Recent n s id y b r l = ground (
  arith,
  Recent-suc n id s.ids r,
  Recent-append n id y s.ids r,
  length-append {0} s.ids (y ∷ []),
  Recent-drop_oldest (n + 1) id (s.ids ++ y ∷ []),
)

capacity-seen : (s : SeenEvents) (id : Text) → (seen s id).0.capacity ≡ s.capacity
unfolding seen
capacity-seen s id = ground arith

seen_all-Recent :
    (n : ℕ) (s : SeenEvents) (id : Text) (more : List Text)
    → IsBounded s
    → Recent n id s.ids
    → n + length more < s.capacity
    → contains id (seen_all s more).ids ≡ true
unfolding seen_all
seen_all-Recent n s id [] b r l = Recent-contains n id s.ids r
seen_all-Recent n s id (y ∷ more) b r l =
    seen_all-Recent (n + 1) (seen s y).0 id more (seen-IsBounded s y b)
      (seen-Recent n s id y b r (omega arith)) (omega (arith, capacity-seen s y))

Recent-last : (id : Text) (xs : List Text) → Recent 0 id (xs ++ id ∷ [])
Recent-last id [] = inl (refl, omega arith)
Recent-last id (x ∷ xs) = inr (Recent-last id xs)

seen-Recent_new :
    (s : SeenEvents) (id : Text)
    → IsBounded s
    → 1 ≤ s.capacity
    → (seen s id).1 ≡ false
    → Recent 0 id (seen s id).0.ids
unfolding seen
seen-Recent_new s id b c h = ground (
  arith,
  Recent-last id s.ids,
  length-append {0} s.ids (id ∷ []),
  Recent-drop_oldest 0 id (s.ids ++ id ∷ []),
)

capacity-seen_all : (s : SeenEvents) (more : List Text) → (seen_all s more).capacity ≡ s.capacity
unfolding seen_all
capacity-seen_all s [] = refl
capacity-seen_all s (y ∷ more) =
    omega (arith, capacity-seen_all (seen s y).0 more, capacity-seen s y)

seen_all-IsBounded_from :
    (s : SeenEvents) (more : List Text) → IsBounded s → IsBounded (seen_all s more)
unfolding seen_all
seen_all-IsBounded_from s [] b = b
seen_all-IsBounded_from s (y ∷ more) b =
    seen_all-IsBounded_from (seen s y).0 more (seen-IsBounded s y b)

empty_seen-IsBounded : (capacity : ℕ) → IsBounded (empty_seen capacity)
unfolding empty_seen
empty_seen-IsBounded capacity = omega arith

capacity-empty_seen : (capacity : ℕ) → (empty_seen capacity).capacity ≡ capacity
unfolding empty_seen
capacity-empty_seen capacity = refl

-- The set never holds more ids than its capacity, whatever is fed to it.
pub seen_all-IsBounded :
    (capacity : ℕ) (more : List Text) → length (seen_all (empty_seen capacity) more).ids ≤ capacity
seen_all-IsBounded capacity more =
    let b = seen_all-IsBounded_from (empty_seen capacity) more (empty_seen-IsBounded capacity) in
    omega (arith, capacity-seen_all (empty_seen capacity) more, capacity-empty_seen capacity)

known_again : (s : SeenEvents) (id : Text) → contains id s.ids ≡ true → seen s id ≡ (s, true)
unfolding seen
known_again s id h = rw h

seen-contains : (s : SeenEvents) (id : Text) → contains id s.ids ≡ true → (seen s id).1 ≡ true
unfolding seen
seen-contains s id h = rw h

-- After any history, an id that was new is reported as a duplicate if it comes again before
-- `capacity` further ids have been fed.
pub seen_remembers :
    (capacity : ℕ) (before : List Text) (id : Text) (more : List Text)
    → let s = seen_all (empty_seen capacity) before in
      (seen s id).1 ≡ false
      → length more < capacity
      → (seen (seen_all (seen s id).0 more) id).1 ≡ true
seen_remembers capacity before id more new l =
    let s = seen_all (empty_seen capacity) before in
    let b = seen_all-IsBounded_from (empty_seen capacity) before (empty_seen-IsBounded capacity) in
    let c : s.capacity ≡ capacity =
      omega (arith, capacity-seen_all (empty_seen capacity) before, capacity-empty_seen capacity) in
    let r = seen-Recent_new s id b (omega arith) new in
    let k =
      seen_all-Recent 0 (seen s id).0 id more (seen-IsBounded s id b) r
        (omega (arith, capacity-seen s id)) in
    seen-contains _ id k

contains-append :
    (id y : Text) (xs : List Text) → contains id (xs ++ y ∷ []) ≡ contains id xs || text_beq id y
contains-append id y [] = ground arith
contains-append id y (x ∷ xs) = ground (arith, contains-append id y xs)

contains-drop_oldest :
    (id : Text) (xs : List Text) → contains id (drop_oldest xs) ≡ true → contains id xs ≡ true
unfolding drop_oldest
contains-drop_oldest id [] h = h
contains-drop_oldest id (x ∷ xs) h = ground arith

contains-seen :
    (s : SeenEvents) (id y : Text)
    → contains id (seen s y).0.ids ≡ true
    → (contains id s.ids ≡ true) ⊎ (text_beq id y ≡ true)
unfolding seen
contains-seen s id y h =
    ground (arith, contains-append id y s.ids, contains-drop_oldest id (s.ids ++ y ∷ []))

contains-seen_all :
    (s : SeenEvents) (id : Text) (more : List Text)
    → contains id (seen_all s more).ids ≡ true
    → (contains id s.ids ≡ true) ⊎ (contains id more ≡ true)
unfolding seen_all
contains-seen_all s id [] h = inl h
contains-seen_all s id (y ∷ more) h =
    ground (arith, contains-seen_all (seen s y).0 id more h, contains-seen s id y)

seen-contains_iff : (s : SeenEvents) (id : Text) → (seen s id).1 ≡ true → contains id s.ids ≡ true
unfolding seen
seen-contains_iff s id h = ground arith

contains-empty_seen : (capacity : ℕ) (id : Text) → contains id (empty_seen capacity).ids ≡ false
unfolding empty_seen
contains-empty_seen capacity id = refl

-- An id is reported as a duplicate only if it was fed before.
pub seen_sound :
    (capacity : ℕ) (before : List Text) (id : Text)
    → (seen (seen_all (empty_seen capacity) before) id).1 ≡ true
    → contains id before ≡ true
seen_sound capacity before id h = ground (
  arith,
  contains-seen_all (empty_seen capacity) id before (seen-contains_iff _ id h),
  contains-empty_seen capacity id,
)

seen-remembers_new :
    (s : SeenEvents) (id : Text)
    → IsBounded s
    → 1 ≤ s.capacity
    → contains id (seen s id).0.ids ≡ true
unfolding seen
seen-remembers_new s id b c = elim (Bool-cases (contains id s.ids)) [
  | inl h ↦ rw h h
  | inr h ↦ Recent-contains 0 id (seen s id).0.ids (seen-Recent_new s id b c (rw h refl))
]

-- An id that comes twice in a row is known the second time, and changes nothing.
pub seen-twice :
    (s : SeenEvents) (id : Text)
    → length s.ids ≤ s.capacity
    → 1 ≤ s.capacity
    → seen (seen s id).0 id ≡ ((seen s id).0, true)
seen-twice s id b c = known_again (seen s id).0 id (seen-remembers_new s id b c)
