-- ===== src/Outbox/Numbering.antt =====
-- server/infra/mysqlOutbox.ts: the positions that a drain gives out. They are new, and no two rows
-- share one.
use bahn_project_manager.Prelude.{
  ℕ, ◌+◌, ◌<◌, ◌≤◌, ◌≡◌, ◌≢◌, ◌⊎◌, refl, sym, ap, ◌∙◌, subst, Bool, true, false, inl, inr, none,
  some, List, [], ◌∷◌, All, get, nat_eq, nat_beq, nat_beq_iff, Text, Bool-cases, Option-cases,
  arith, some-injective,
}
use bahn_project_manager.Event.{DomainEvent}
use bahn_project_manager.Outbox.{
  OutboxRow, Table, Parsed, valid, invalid, number, positions, next_seq, with_seq, add_position,
  map_rows, set_position, at_position,
}
use bahn_project_manager.Outbox.Selection.{DistinctIds, DiffersFrom}

abbrev no_positions : List (ℕ × ℕ)
no_positions = []

no_position : (j n : ℕ) → get j no_positions ≢ some n
unfolding get
no_position j n h = absurd (cc h)

abbrev is_valid : Parsed → Bool
is_valid (valid e) = true
is_valid (invalid reason) = false

invalid-ne-valid : (reason : Text) (e : DomainEvent) → invalid reason ≢ valid e
invalid-ne-valid reason e h = ground (arith, ap is_valid h)

module _ (parse : Text → Parsed) where
  next_seq-le : (seq : ℕ) (q : Parsed) → seq ≤ next_seq seq q
  next_seq-le seq (valid e) = omega arith
  next_seq-le seq (invalid reason) = omega arith

  -- A position of one row: its own, given out now, or one of the rest.
  position-cases :
      (i seq : ℕ) (q : Parsed) (rest : List (ℕ × ℕ)) (j n : ℕ)
      → get j (add_position i seq q rest) ≡ some n
      → ((j ≡ i) × (n ≡ seq + 1) × (next_seq seq q ≡ seq + 1)) ⊎ (get j rest ≡ some n)
  unfolding get
  position-cases i seq (invalid reason) rest j n h = inr h
  position-cases i seq (valid e) rest j n h = elim (Bool-cases (nat_beq i j)) [
    | inl b ↦ inl (sym ((nat_beq_iff i j).0 b), sym (some-injective (seq + 1) n (rw b at h)), refl)
    | inr b ↦ inr (rw b at h)
  ]

  pub positions-above :
      (seq : ℕ) (rows : Table) (j n : ℕ) → get j (positions parse seq rows) ≡ some n → seq < n
  unfolding positions
  positions-above seq [] j n h = absurd (no_position j n h)
  positions-above seq ((i, r) ∷ rows) j n h =
      elim (position-cases i seq (parse r.envelope) _ j n h) [
        | inl (a, b, c) ↦ omega arith
        | inr k ↦ omega (
          arith,
          positions-above (next_seq seq (parse r.envelope)) rows j n k,
          next_seq-le seq (parse r.envelope),
        )
      ]

  -- Two rows never get the same position.
  pub positions-distinct :
      (seq : ℕ) (rows : Table) (j k n : ℕ)
      → get j (positions parse seq rows) ≡ some n
      → get k (positions parse seq rows) ≡ some n
      → j ≡ k
  unfolding positions
  positions-distinct seq [] j k n h g = absurd (no_position j n h)
  positions-distinct seq ((i, r) ∷ rows) j k n h g =
      let rest = positions parse (next_seq seq (parse r.envelope)) rows in
      let above = positions-above (next_seq seq (parse r.envelope)) rows in
      elim (position-cases i seq (parse r.envelope) rest j n h) [
        | inl (a, b, c) ↦ elim (position-cases i seq (parse r.envelope) rest k n g) [
          | inl (a', _, _) ↦ a ∙ sym a'
          | inr g' ↦ absurd (omega (arith, above k n g'))
        ]
        | inr h' ↦ elim (position-cases i seq (parse r.envelope) rest k n g) [
          | inl (a', b', c') ↦ absurd (omega (arith, above j n h'))
          | inr g' ↦ positions-distinct (next_seq seq (parse r.envelope)) rows j k n h' g'
        ]
      ]

  -- Only rows of the selection get one.
  pub positions-selected {κ} :
      (P : ℕ × OutboxRow → Type κ) (seq : ℕ) (rows : Table) (j n : ℕ)
      → All P rows
      → get j (positions parse seq rows) ≡ some n
      → (r : OutboxRow) × P (j, r)
  unfolding positions
  positions-selected P seq [] j n a h = absurd (no_position j n h)
  positions-selected P seq ((i, r) ∷ rows) j n (p, a) h =
      elim (position-cases i seq (parse r.envelope) _ j n h) [
        | inl (same, _, _) ↦ (r, subst (λ x. P (x, r)) (sym same) p)
        | inr k ↦ positions-selected P (next_seq seq (parse r.envelope)) rows j n a k
      ]

  no_other_position :
      (i seq : ℕ) (rows : Table)
      → All (DiffersFrom i) rows
      → get i (positions parse seq rows) ≡ none
  no_other_position i seq rows a = elim (Option-cases (get i (positions parse seq rows))) [
    | inl n ↦ n
    | inr (m, h) ↦ absurd ((positions-selected (DiffersFrom i) seq rows i m a h).1 refl)
  ]

  set_position-own :
      (pos : List (ℕ × ℕ)) (i seq : ℕ) (r : OutboxRow) (q : Parsed) (rest : List (ℕ × ℕ))
      → get i rest ≡ none
      → get i pos ≡ get i (add_position i seq q rest)
      → set_position pos i r ≡ with_seq seq q r
  unfolding get
  set_position-own pos i seq r (valid e) rest n h =
      let own : get i (add_position i seq (valid e) rest) ≡ some (seq + 1) =
        rw ((nat_beq_iff i i).1 refl) in
      ap (λ o. at_position o r) (h ∙ own)
  set_position-own pos i seq r (invalid reason) rest n h = ap (λ o. at_position o r) (h ∙ n)

  add_position-other :
      (i seq : ℕ) (q : Parsed) (rest : List (ℕ × ℕ)) (j : ℕ)
      → i ≢ j
      → get j (add_position i seq q rest) ≡ get j rest
  unfolding get
  add_position-other i seq (invalid reason) rest j ne = refl
  add_position-other i seq (valid e) rest j ne =
      let b : nat_beq i j ≡ false = ground (arith, nat_beq_iff i j, ne) in rw b

  -- The positions agree with those given to the rows.
  abbrev Agrees : List (ℕ × ℕ) → ℕ → Table → Table → Type 0
  Agrees pos seq rows part = All (λ x. get (x.0) pos ≡ get (x.0) (positions parse seq rows)) part

  Agrees-rest :
      (pos : List (ℕ × ℕ)) (i seq : ℕ) (r : OutboxRow) (rows part : Table)
      → All (DiffersFrom i) part
      → Agrees pos seq ((i, r) ∷ rows) part
      → Agrees pos (next_seq seq (parse r.envelope)) rows part
  unfolding positions
  Agrees-rest pos i seq r rows [] a h = tt
  Agrees-rest pos i seq r rows (x ∷ part) (ne, a) (p, h) = (
    p ∙ add_position-other i seq (parse r.envelope) _ (x.0) ne,
    Agrees-rest pos i seq r rows part a h,
  )

  number-Agrees :
      (pos : List (ℕ × ℕ)) (seq : ℕ) (rows : Table)
      → DistinctIds rows
      → Agrees pos seq rows rows
      → number parse seq rows ≡ map_rows (set_position pos) rows
  unfolding number positions map_rows
  number-Agrees pos seq [] d h = refl
  number-Agrees pos seq ((i, r) ∷ rows) (a, d) (p, h) =
      let next = next_seq seq (parse r.envelope) in
      let own =
        set_position-own pos i seq r (parse r.envelope) (positions parse next rows)
          (no_other_position i next rows a) p in
      let rest = number-Agrees pos next rows d (Agrees-rest pos i seq r rows rows a h) in
      rw (own, rest)

  Agrees-self : (pos : List (ℕ × ℕ)) (part : Table) → All (λ x. get (x.0) pos ≡ get (x.0) pos) part
  Agrees-self pos [] = tt
  Agrees-self pos (x ∷ part) = (refl, Agrees-self pos part)

  -- The rows that are published are the ones that are stored.
  pub number-map_rows :
      (seq : ℕ) (rows : Table)
      → DistinctIds rows
      → number parse seq rows ≡ map_rows (set_position (positions parse seq rows)) rows
  number-map_rows seq rows d =
      number-Agrees (positions parse seq rows) seq rows d
        (Agrees-self (positions parse seq rows) rows)

  -- A row that can be parsed has a position.
  abbrev pub IsPositioned : ℕ × OutboxRow → Type 0
  IsPositioned x =
      (e : DomainEvent) → parse (x.1.envelope) ≡ valid e → (n : ℕ) × (x.1.feed_seq ≡ some n)

  with_seq-IsPositioned :
      (i seq : ℕ) (r : OutboxRow) (q : Parsed)
      → parse r.envelope ≡ q
      → IsPositioned (i, with_seq seq q r)
  with_seq-IsPositioned i seq r (valid f) h e k = (seq + 1, refl)
  with_seq-IsPositioned i seq r (invalid reason) h e k =
      absurd (invalid-ne-valid reason e (sym h ∙ k))

  pub number-IsPositioned : (seq : ℕ) (rows : Table) → All IsPositioned (number parse seq rows)
  unfolding number
  number-IsPositioned seq [] = tt
  number-IsPositioned seq ((i, r) ∷ rows) = (
    with_seq-IsPositioned i seq r (parse r.envelope) refl,
    number-IsPositioned (next_seq seq (parse r.envelope)) rows,
  )
