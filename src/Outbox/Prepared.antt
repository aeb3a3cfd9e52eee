-- ===== src/Outbox/Prepared.antt =====
-- server/infra/mysqlOutbox.ts: what a drain has stored before it publishes. The rows that it hands out
-- stand in the table with the positions that they go out with, and no position stands twice.
use bahn_project_manager.Prelude.{
  ℕ, ◌≡◌, ◌≢◌, ◌⊎◌, refl, sym, ap, ◌∙◌, subst, true, inl, inr, Option, none, some, List, [], ◌∷◌,
  All, All-map, get, nat_eq, Text, Option-cases, arith, some-injective,
}
use bahn_project_manager.Outbox.{
  OutboxRow, Table, Parsed, number, positions, max_seq, map_rows, set_position, at_position,
  is_retried, prepare, prepare_from, retried_rows, waiting_rows,
}
use bahn_project_manager.Outbox.Table.{
  Keyed-map_rows_within, get-map_rows-some, get-map_rows-back, max_seq-bound, All-retried_rows,
  All-waiting_rows, retried_rows-Are_retried,
}
use bahn_project_manager.Outbox.Selection.{
  DistinctIds, All-both, DistinctIds-Keyed, DistinctIds-map_rows, DistinctIds-waiting_rows,
  waiting_rows-new,
}
use bahn_project_manager.Outbox.Numbering.{
  IsPositioned, number-map_rows, number-IsPositioned, positions-above, positions-distinct,
  positions-selected,
}

-- No two rows have the same position.
abbrev pub DistinctPositions : Table → Type 0
DistinctPositions t =
    (i j n : ℕ) (r q : OutboxRow)
    → get i t ≡ some r
    → get j t ≡ some q
    → r.feed_seq ≡ some n
    → q.feed_seq ≡ some n
    → i ≡ j

at_position-stamps :
    (o : Option ℕ) (r : OutboxRow)
    → ((at_position o r).processed ≡ r.processed) × ((at_position o r).failed ≡ r.failed)
at_position-stamps none r = (refl, refl)
at_position-stamps (some n) r = (refl, refl)

none-ne-some : (n : ℕ) → none ≢ some n
none-ne-some n h = absurd (cc h)

module _ (parse : Text → Parsed) where
  -- What was set aside stays: the ids, the envelopes, the positions; and a stamp is never taken back.
  pub record Extends (t u : Table) : Type 0 where
    pub positions_kept :
        (i n : ℕ) (r : OutboxRow)
        → get i t ≡ some r
        → r.feed_seq ≡ some n
        → (q : OutboxRow) × (get i u ≡ some q) × (q.feed_seq ≡ some n) × (q.envelope ≡ r.envelope)

  -- What a drain publishes from, and what it has stored before it does.
  pub record Prepared (t : Table) (p : Table × Table) : Type 0 where
    pub distinct_ids : DistinctIds p.1
    pub distinct : DistinctPositions p.1
    pub stored : All (λ x. get (x.0) p.1 ≡ some (x.1)) p.0
    pub positioned_rows : All (IsPositioned parse) p.0
    pub extends : Extends t p.1
    pub stamps :
        (i : ℕ) (r : OutboxRow)
        → get i p.1 ≡ some r
        → (q : OutboxRow) × (get i t ≡ some q) × (r.processed ≡ q.processed) × (r.failed ≡ q.failed)

  retried-IsPositioned :
      (i : ℕ) (r : OutboxRow) → is_retried (i, r) ≡ true → IsPositioned parse (i, r)
  retried-IsPositioned i r h e k = elim (Option-cases r.feed_seq) [
    | inl n ↦ absurd (ground (arith, n, h))
    | inr (m, g) ↦ (m, g)
  ]

  module _ (limit : ℕ) (t : Table) (d : DistinctIds t) (u : DistinctPositions t)
      (new_only : retried_rows limit t ≡ []) where
    abbrev given : List (ℕ × ℕ)
    given = positions parse (max_seq t) (waiting_rows limit t)

    abbrev renumbered : Table
    renumbered = map_rows (set_position given) t

    -- Only rows without a position are given one.
    given-new :
        (i n : ℕ)
        → get i given ≡ some n
        → (r : OutboxRow) × (get i t ≡ some r) × (r.feed_seq ≡ none)
    given-new i n h =
        let both =
          All-both (λ x. get (x.0) t ≡ some (x.1)) (λ x. x.1.feed_seq ≡ none) (waiting_rows limit t)
            (All-waiting_rows (λ x. get (x.0) t ≡ some (x.1)) limit t (DistinctIds-Keyed t d))
            (waiting_rows-new limit t new_only) in
        let (r, found) =
          positions-selected parse (λ x. (get (x.0) t ≡ some (x.1)) × (x.1.feed_seq ≡ none))
            (max_seq t) (waiting_rows limit t) i n both h in
        (r, found.0, found.1)

    renumbered-kept :
        (i n : ℕ) (r : OutboxRow)
        → get i t ≡ some r
        → r.feed_seq ≡ some n
        → get i renumbered ≡ some r
    renumbered-kept i n r held seq = elim (Option-cases (get i given)) [
      | inl none_given ↦
          get-map_rows-some (set_position given) i t r held
          ∙ ap (λ o. some (at_position o r)) none_given
      | inr (m, h) ↦
          let (q, held', no_seq) = given-new i m h in
          let same = some-injective q r (sym held' ∙ held) in
          absurd (none-ne-some n (sym no_seq ∙ ap (λ o. o.feed_seq) same ∙ seq))
    ]

    -- A position in the new table is one just given, or an old one.
    position-from :
        (i n : ℕ) (r : OutboxRow)
        → get i renumbered ≡ some r
        → r.feed_seq ≡ some n
        → (get i given ≡ some n) ⊎ ((q : OutboxRow) × (get i t ≡ some q) × (q.feed_seq ≡ some n))
    position-from i n r h seq =
        let (q, held, same) = get-map_rows-back (set_position given) i t r h in
        elim (Option-cases (get i given)) [
          | inl e ↦
              inr (q, held, ap (λ o. o.feed_seq) (sym (same ∙ ap (λ o. at_position o q) e)) ∙ seq)
          | inr (m, e) ↦
              inl (e ∙ sym (ap (λ o. o.feed_seq) (same ∙ ap (λ o. at_position o q) e)) ∙ seq)
        ]

    given-above_held :
        (i j n : ℕ) (q : OutboxRow)
        → get i given ≡ some n
        → get j t ≡ some q
        → q.feed_seq ≡ some n
        → i ≡ j
    given-above_held i j n q h k e = absurd (
        omega (
          arith,
          positions-above parse (max_seq t) (waiting_rows limit t) i n h,
          max_seq-bound j q n t k e,
        ))

    renumbered-DistinctPositions : DistinctPositions renumbered
    renumbered-DistinctPositions i j n r q h k e f = elim (position-from i n r h e) [
      | inl a ↦ elim (position-from j n q k f) [
        | inl b ↦ positions-distinct parse (max_seq t) (waiting_rows limit t) i j n a b
        | inr (q', held, e') ↦ given-above_held i j n q' a held e'
      ]
      | inr (r', held, e') ↦ elim (position-from j n q k f) [
        | inl b ↦ sym (given-above_held j i n r' b held e')
        | inr (q', held', f') ↦ u i j n r' q' held held' e' f'
      ]
    ]

    renumbered-Prepared : Prepared t (number parse (max_seq t) (waiting_rows limit t), renumbered)
    renumbered-Prepared = record {
      distinct_ids = DistinctIds-map_rows (set_position given) t d;
      distinct = renumbered-DistinctPositions;
      stored =
          subst (λ rows. All (λ x. get (x.0) renumbered ≡ some (x.1)) rows)
            (sym (
              number-map_rows parse (max_seq t) (waiting_rows limit t)
                (DistinctIds-waiting_rows limit t d)))
            (Keyed-map_rows_within (set_position given) t (waiting_rows limit t)
              (All-waiting_rows (λ x. get (x.0) t ≡ some (x.1)) limit t (DistinctIds-Keyed t d)));
      positioned_rows = number-IsPositioned parse (max_seq t) (waiting_rows limit t);
      extends = record {
        positions_kept = λ i n r held seq. (r, renumbered-kept i n r held seq, seq, refl);
      };
      stamps = λ i r h.
          let (q, held, same) = get-map_rows-back (set_position given) i t r h in
          let (a, b) = at_position-stamps (get i given) q in
          (q, held, ap (λ o. o.processed) same ∙ a, ap (λ o. o.failed) same ∙ b);
    }

  prepare_from-Prepared :
      (limit : ℕ) (t rows : Table)
      → DistinctIds t
      → DistinctPositions t
      → rows ≡ retried_rows limit t
      → Prepared t (prepare_from parse limit t rows)
  unfolding prepare_from
  prepare_from-Prepared limit t (x ∷ xs) d u h = record {
    distinct_ids = d;
    distinct = u;
    stored =
        subst (λ rows. All (λ y. get (y.0) t ≡ some (y.1)) rows) (sym h)
          (All-retried_rows (λ y. get (y.0) t ≡ some (y.1)) limit t (DistinctIds-Keyed t d));
    positioned_rows = subst (All (IsPositioned parse)) (sym h) (
        All-map (λ y. is_retried y ≡ true) (retried_rows limit t)
          (λ (y : ℕ × OutboxRow) b. retried-IsPositioned (y.0) (y.1) b)
          (retried_rows-Are_retried limit t));
    extends = record { positions_kept = λ i n r k e. (r, k, e, refl) };
    stamps = λ i r k. (r, k, refl, refl);
  }
  prepare_from-Prepared limit t [] d u h = renumbered-Prepared limit t d u (sym h)

  pub prepare-Prepared :
      (limit : ℕ) (t : Table)
      → DistinctIds t
      → DistinctPositions t
      → Prepared t (prepare parse limit t)
  unfolding prepare
  prepare-Prepared limit t d u = prepare_from-Prepared limit t (retried_rows limit t) d u refl
