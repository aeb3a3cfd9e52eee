-- ===== src/Outbox/Selection.antt =====
-- server/infra/mysqlOutbox.ts: the rows that a drain takes. The ids of a table are distinct, and a
-- selection keeps them so; new rows are taken only when no numbered row waits.
use bahn_project_manager.Prelude.{
  ℕ, zero, suc, ◌≡◌, ◌≢◌, refl, sym, Bool, true, false, inl, inr, none, some, [], ◌∷◌, All,
  All-filter, All-take, All-map, take, filter, get, nat_eq, nat_beq, nat_beq_iff, leb, Bool-cases,
  Option-cases, arith,
}
use bahn_project_manager.Outbox.{
  OutboxRow, Table, map_rows, insert_by, sort_by, retried_rows, waiting_rows, is_retried,
  is_waiting, by_seq, by_id,
}
use bahn_project_manager.Outbox.Table.{Keyed, All-insert_by, All-sort_by, All-filter_test}

abbrev pub DiffersFrom : ℕ → ℕ × OutboxRow → Type 0
DiffersFrom i x = i ≢ x.0

-- No id stands twice.
abbrev pub DistinctIds : Table → Type 0
DistinctIds [] = Unit
DistinctIds (x ∷ xs) = All (DiffersFrom (x.0)) xs × DistinctIds xs

DistinctIds-filter :
    (p : ℕ × OutboxRow → Bool) (t : Table) → DistinctIds t → DistinctIds (filter p t)
DistinctIds-filter p [] h = tt
DistinctIds-filter p (x ∷ xs) (a, h) = elim (Bool-cases (p x)) [
  | inl e ↦ rw e (All-filter (DiffersFrom (x.0)) p xs a, DistinctIds-filter p xs h)
  | inr e ↦ rw e (DistinctIds-filter p xs h)
]

DistinctIds-take : (n : ℕ) (t : Table) → DistinctIds t → DistinctIds (take n t)
DistinctIds-take zero t h = tt
DistinctIds-take (suc n) [] h = tt
DistinctIds-take (suc n) (x ∷ xs) (a, h) =
    (All-take (DiffersFrom (x.0)) n xs a, DistinctIds-take n xs h)

DistinctIds-insert_by :
    (key : ℕ × OutboxRow → ℕ) (x : ℕ × OutboxRow) (t : Table)
    → All (DiffersFrom (x.0)) t
    → DistinctIds t
    → DistinctIds (insert_by key x t)
unfolding insert_by
DistinctIds-insert_by key x [] a h = (tt, tt)
DistinctIds-insert_by key x (y ∷ ys) (ne, a) (b, h) = elim (Bool-cases (leb (key x) (key y))) [
  | inl e ↦ rw e ((ne, a), (b, h))
  | inr e ↦ rw e (
    All-insert_by (DiffersFrom (y.0)) key x ys (λ q. ne (sym q)) b,
    DistinctIds-insert_by key x ys a h,
  )
]

DistinctIds-sort_by :
    (key : ℕ × OutboxRow → ℕ) (t : Table) → DistinctIds t → DistinctIds (sort_by key t)
unfolding sort_by
DistinctIds-sort_by key [] h = tt
DistinctIds-sort_by key (x ∷ xs) (a, h) =
    DistinctIds-insert_by key x (sort_by key xs) (All-sort_by (DiffersFrom (x.0)) key xs a)
      (DistinctIds-sort_by key xs h)

pub DistinctIds-waiting_rows :
    (limit : ℕ) (t : Table) → DistinctIds t → DistinctIds (waiting_rows limit t)
unfolding waiting_rows
DistinctIds-waiting_rows limit t h =
    DistinctIds-take limit (sort_by by_id (filter is_waiting t))
      (DistinctIds-sort_by by_id (filter is_waiting t) (DistinctIds-filter is_waiting t h))

All-map_rows :
    (i : ℕ) (f : ℕ → OutboxRow → OutboxRow) (t : Table)
    → All (DiffersFrom i) t
    → All (DiffersFrom i) (map_rows f t)
unfolding map_rows
All-map_rows i f [] h = tt
All-map_rows i f ((j, r) ∷ t) (ne, h) = (ne, All-map_rows i f t h)

pub DistinctIds-map_rows :
    (f : ℕ → OutboxRow → OutboxRow) (t : Table) → DistinctIds t → DistinctIds (map_rows f t)
unfolding map_rows
DistinctIds-map_rows f [] h = tt
DistinctIds-map_rows f ((i, r) ∷ t) (a, h) = (All-map_rows i f t a, DistinctIds-map_rows f t h)

skip_row :
    (i : ℕ) (r : OutboxRow) (t u : Table)
    → All (DiffersFrom i) u
    → All (λ x. get (x.0) t ≡ some (x.1)) u
    → All (λ x. get (x.0) ((i, r) ∷ t) ≡ some (x.1)) u
unfolding get
skip_row i r t [] a h = tt
skip_row i r t (x ∷ u) (ne, a) (p, h) =
    let b : nat_beq i (x.0) ≡ false = ground (arith, nat_beq_iff i (x.0), ne) in
    (rw b p, skip_row i r t u a h)

-- With distinct ids, every row is the one stored under its id.
pub DistinctIds-Keyed : (t : Table) → DistinctIds t → Keyed t
unfolding get
DistinctIds-Keyed [] h = tt
DistinctIds-Keyed ((i, r) ∷ t) (a, h) =
    (rw ((nat_beq_iff i i).1 refl) refl, skip_row i r t t a (DistinctIds-Keyed t h))

insert_by-ne : (key : ℕ × OutboxRow → ℕ) (x : ℕ × OutboxRow) (t : Table) → insert_by key x t ≢ []
unfolding insert_by
insert_by-ne key x [] h = absurd (cc h)
insert_by-ne key x (y ∷ ys) h = absurd (ground (arith, h))

pub sort_by-empty : (key : ℕ × OutboxRow → ℕ) (t : Table) → sort_by key t ≡ [] → t ≡ []
unfolding sort_by
sort_by-empty key [] h = refl
sort_by-empty key (x ∷ xs) h = absurd (insert_by-ne key x (sort_by key xs) h)

pub take-empty : (n : ℕ) (t : Table) → take (suc n) t ≡ [] → t ≡ []
take-empty n [] h = refl
take-empty n (x ∷ xs) h = absurd (cc h)

filter-empty : (p : ℕ × OutboxRow → Bool) (t : Table) → filter p t ≡ [] → All (λ x. p x ≡ false) t
filter-empty p [] h = tt
filter-empty p (x ∷ xs) h = elim (Bool-cases (p x)) [
  | inl e ↦ absurd (cc (rw e at h))
  | inr e ↦ (e, filter-empty p xs (rw e at h))
]

pub All-both :
    (P Q : ℕ × OutboxRow → Type 0) (t : Table) → All P t → All Q t → All (λ x. P x × Q x) t
All-both P Q [] h k = tt
All-both P Q (x ∷ xs) (p, h) (q, k) = ((p, q), All-both P Q xs h k)

numbered-none :
    (i : ℕ) (r : OutboxRow)
    → is_waiting (i, r) ≡ true
    → is_retried (i, r) ≡ false
    → r.feed_seq ≡ none
numbered-none i r w h = elim (Option-cases r.feed_seq) [
  | inl n ↦ n
  | inr (m, e) ↦ absurd (cc (rw (w, e) at h))
]

-- Where no numbered row waits, the new rows that are taken have no position.
pub waiting_rows-new :
    (limit : ℕ) (t : Table)
    → retried_rows limit t ≡ []
    → All (λ x. x.1.feed_seq ≡ none) (waiting_rows limit t)
unfolding retried_rows waiting_rows
waiting_rows-new zero t h = tt
waiting_rows-new (suc limit) t h =
    let none_waits = filter-empty is_retried t (
      sort_by-empty by_seq (filter is_retried t)
        (take-empty limit (sort_by by_seq (filter is_retried t)) h)) in
    let waiting = filter is_waiting t in
    let both =
      All-both (λ x. is_waiting x ≡ true) (λ x. is_retried x ≡ false) waiting
        (All-filter_test is_waiting t)
        (All-filter (λ x. is_retried x ≡ false) is_waiting t none_waits) in
    let new =
      All-map (λ x. (is_waiting x ≡ true) × (is_retried x ≡ false)) waiting
        (λ (x : ℕ × OutboxRow) b. numbered-none (x.0) (x.1) (b.0) (b.1)) both in
    All-take (λ x. x.1.feed_seq ≡ none) (suc limit) (sort_by by_id waiting)
      (All-sort_by (λ x. x.1.feed_seq ≡ none) by_id waiting new)
