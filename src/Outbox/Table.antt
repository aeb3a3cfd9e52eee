-- ===== src/Outbox/Table.antt =====
-- server/infra/mysqlOutbox.ts: the table by its ids. An UPDATE changes what is stored under each id,
-- and a SELECT returns rows that are stored.
use bahn_project_manager.Prelude.{
  ℕ, ◌≡◌, refl, sym, ap, ◌∙◌, Bool, true, inl, inr, none, some, [], ◌∷◌, All, All-filter, All-take,
  filter, get, nat_eq, nat_beq, nat_beq_iff, leb, Bool-cases, Option-cases, arith, some-injective,
  ◌≤◌,
}
use bahn_project_manager.Outbox.{
  OutboxRow, Table, map_rows, insert_by, sort_by, retried_rows, waiting_rows, is_retried,
  is_waiting, by_seq, by_id, max_seq, seq_or_zero,
}

pub get-map_rows-none :
    (f : ℕ → OutboxRow → OutboxRow) (j : ℕ) (t : Table)
    → get j t ≡ none
    → get j (map_rows f t) ≡ none
unfolding get map_rows
get-map_rows-none f j [] h = refl
get-map_rows-none f j ((i, r) ∷ t) h = ground (arith, get-map_rows-none f j t)

pub get-map_rows-some :
    (f : ℕ → OutboxRow → OutboxRow) (j : ℕ) (t : Table) (r : OutboxRow)
    → get j t ≡ some r
    → get j (map_rows f t) ≡ some (f j r)
unfolding get map_rows
get-map_rows-some f j [] r h = cc
get-map_rows-some f j ((i, q) ∷ t) r h = elim (Bool-cases (nat_beq i j)) [
  | inl b ↦
      let same = (nat_beq_iff i j).0 b in
      let held = some-injective q r (rw b at h) in
      rw b (ap (λ k. some (f k q)) same ∙ ap (λ q'. some (f j q')) held)
  | inr b ↦ rw b (get-map_rows-some f j t r (rw b at h))
]

-- What is stored afterwards came from what was stored.
pub get-map_rows-back :
    (f : ℕ → OutboxRow → OutboxRow) (j : ℕ) (t : Table) (q : OutboxRow)
    → get j (map_rows f t) ≡ some q
    → (r : OutboxRow) × (get j t ≡ some r) × (q ≡ f j r)
get-map_rows-back f j t q h = elim (Option-cases (get j t)) [
  | inl n ↦ absurd (cc (h, get-map_rows-none f j t n))
  | inr (r, k) ↦ (r, k, some-injective q (f j r) (sym h ∙ get-map_rows-some f j t r k))
]

module _ {κ} (P : ℕ × OutboxRow → Type κ) where
  pub All-insert_by :
      (key : ℕ × OutboxRow → ℕ) (x : ℕ × OutboxRow) (t : Table)
      → P x
      → All P t
      → All P (insert_by key x t)
  unfolding insert_by
  All-insert_by key x [] p h = (p, tt)
  All-insert_by key x (y ∷ ys) p (q, h) = elim (Bool-cases (leb (key x) (key y))) [
    | inl e ↦ rw e (p, (q, h))
    | inr e ↦ rw e (q, All-insert_by key x ys p h)
  ]

  pub All-sort_by : (key : ℕ × OutboxRow → ℕ) (t : Table) → All P t → All P (sort_by key t)
  unfolding sort_by
  All-sort_by key [] h = tt
  All-sort_by key (x ∷ xs) (p, h) = All-insert_by key x (sort_by key xs) p (All-sort_by key xs h)

  pub All-retried_rows : (limit : ℕ) (t : Table) → All P t → All P (retried_rows limit t)
  unfolding retried_rows
  All-retried_rows limit t h =
      All-take P limit (sort_by by_seq (filter is_retried t))
        (All-sort_by by_seq (filter is_retried t) (All-filter P is_retried t h))

  pub All-waiting_rows : (limit : ℕ) (t : Table) → All P t → All P (waiting_rows limit t)
  unfolding waiting_rows
  All-waiting_rows limit t h =
      All-take P limit (sort_by by_id (filter is_waiting t))
        (All-sort_by by_id (filter is_waiting t) (All-filter P is_waiting t h))

-- Every row is the one stored under its id.
abbrev pub Keyed : Table → Type 0
Keyed t = All (λ x. get (x.0) t ≡ some (x.1)) t

pub Keyed-map_rows_within :
    (f : ℕ → OutboxRow → OutboxRow) (t u : Table)
    → All (λ x. get (x.0) t ≡ some (x.1)) u
    → All (λ x. get (x.0) (map_rows f t) ≡ some (x.1)) (map_rows f u)
unfolding map_rows
Keyed-map_rows_within f t [] h = tt
Keyed-map_rows_within f t ((i, r) ∷ u) (p, h) =
    (get-map_rows-some f i t r p, Keyed-map_rows_within f t u h)

pub Keyed-map_rows : (f : ℕ → OutboxRow → OutboxRow) (t : Table) → Keyed t → Keyed (map_rows f t)
Keyed-map_rows f t h = Keyed-map_rows_within f t t h

-- The rows that a filter keeps pass its test.
pub All-filter_test : (p : ℕ × OutboxRow → Bool) (t : Table) → All (λ x. p x ≡ true) (filter p t)
All-filter_test p [] = tt
All-filter_test p (x ∷ xs) = elim (Bool-cases (p x)) [
  | inl e ↦ rw e (e, All-filter_test p xs)
  | inr e ↦ rw e (All-filter_test p xs)
]

pub retried_rows-Are_retried :
    (limit : ℕ) (t : Table) → All (λ x. is_retried x ≡ true) (retried_rows limit t)
unfolding retried_rows
retried_rows-Are_retried limit t =
    All-take _ limit (sort_by by_seq (filter is_retried t))
      (All-sort_by _ by_seq (filter is_retried t) (All-filter_test is_retried t))

-- No row has a larger position.
pub max_seq-bound :
    (i : ℕ) (r : OutboxRow) (n : ℕ) (t : Table)
    → get i t ≡ some r
    → r.feed_seq ≡ some n
    → n ≤ max_seq t
unfolding max_seq get
max_seq-bound i r n [] h e = absurd (cc h)
max_seq-bound i r n ((j, q) ∷ t) h e = elim (Bool-cases (nat_beq j i)) [
  | inl b ↦
      let held = some-injective q r (rw b at h) in
      let k : seq_or_zero q.feed_seq ≡ n =
        ap (λ o. seq_or_zero o.feed_seq) held ∙ ap seq_or_zero e in
      omega (arith, k)
  | inr b ↦ omega (arith, max_seq-bound i r n t (rw b at h) e)
]
