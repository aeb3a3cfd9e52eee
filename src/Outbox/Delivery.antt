-- ===== src/Outbox/Delivery.antt =====
-- server/infra/mysqlOutbox.ts over time: rows are inserted, drains run to their end or are cut off
-- before their stamps.
use bahn_project_manager.Prelude.{
  ℕ, ◌≡◌, refl, sym, ap, ◌∙◌, subst, Bool, true, false, inl, inr, none, some, List, [], ◌∷◌, ◌++◌,
  All, All-map, All-append, All-In, In, get, nat_eq, nat_beq, nat_beq_iff, Text, Bool-cases, arith,
  some-injective,
}
use bahn_project_manager.Event.{DomainEvent}
use bahn_project_manager.Outbox.{
  OutboxRow, Table, Parsed, valid, invalid, Published, map_rows, is_sent, stamp, stamp_sent,
  stamp_dead, prepare, publish_rows, publish_one, publish_prepared, drain, positioned,
}
use bahn_project_manager.Outbox.Table.{get-map_rows-some, get-map_rows-back}
use bahn_project_manager.Outbox.Prepared.{Extends, prepare-Prepared, DistinctPositions}
use bahn_project_manager.Outbox.Selection.{DiffersFrom, DistinctIds, DistinctIds-map_rows}
use bahn_project_manager.Outbox.Numbering.{IsPositioned}
use bahn_project_manager.Outbox.Stamps.{
  is_sent-append, is_sent-append_later, KeepsPositions, unsent-unchanged, stamp_sent-KeepsPositions,
  stamp_dead-KeepsPositions, dead_for-alive, get-nothing, new_row, stored-differs, stored-cases,
  valid-injective,
}

module _ (parse : Text → Parsed) where
  -- An event that went out is that of a stored row, at the row's position.
  pub record Accounted (t : Table) (x : ℕ × DomainEvent) : Type 0 where
    pub row : OutboxRow
    pub position : ℕ
    pub event : DomainEvent
    pub held : get (x.0) t ≡ some row
    pub numbered : row.feed_seq ≡ some position
    pub parsed : parse row.envelope ≡ valid event
    pub same : x.1 ≡ record event { feed_seq = some position }

  Accounted-Extends :
      (t u : Table) (x : ℕ × DomainEvent) → Extends parse t u → Accounted t x → Accounted u x
  Accounted-Extends t u x e a =
      let (q, held, seq, env) = e.positions_kept (x.0) a.position a.row a.held a.numbered in
      record {
        row = q;
        position = a.position;
        event = a.event;
        held = held;
        numbered = seq;
        parsed = ap parse env ∙ a.parsed;
        same = a.same;
      }

  -- What went out from rows that stand in the table is accounted for.
  publish_one-Accounted :
      (t : Table) (accepts : DomainEvent → Bool) (i : ℕ) (r : OutboxRow) (q : Parsed)
      (rest : Published)
      → parse r.envelope ≡ q
      → get i t ≡ some r
      → IsPositioned parse (i, r)
      → All (Accounted t) rest.sent
      → All (Accounted t) (publish_one accepts i r q rest).sent
  publish_one-Accounted t accepts i r (invalid reason) rest h held pos a = a
  publish_one-Accounted t accepts i r (valid e) rest h held pos a =
      elim (Bool-cases (accepts (positioned r.feed_seq e))) [
        | inr b ↦ rw b (tt)
        | inl b ↦
            let (n, seq) = pos e h in
            rw b (
              record {
                row = r;
                position = n;
                event = e;
                held = held;
                numbered = seq;
                parsed = h;
                same = ap (λ o. positioned o e) seq;
              },
              a,
            )
      ]

  publish_rows-Accounted :
      (t : Table) (accepts : DomainEvent → Bool) (rows : Table)
      → All (λ x. get (x.0) t ≡ some (x.1)) rows
      → All (IsPositioned parse) rows
      → All (Accounted t) (publish_rows parse accepts rows).sent
  unfolding publish_rows
  publish_rows-Accounted t accepts [] h p = tt
  publish_rows-Accounted t accepts ((i, r) ∷ rows) (held, h) (pos, p) =
      publish_one-Accounted t accepts i r (parse r.envelope) (publish_rows parse accepts rows) refl
        held pos (publish_rows-Accounted t accepts rows h p)

  -- The table and the events that have gone out so far, with the ids of their rows.
  pub data Reach : Table → List (ℕ × DomainEvent) → Type 0 where
    start : Reach [] []
    -- A transaction commits an event.
    insert :
        (t : Table) (log : List (ℕ × DomainEvent)) (i : ℕ) (envelope : Text)
        → Reach t log
        → All (DiffersFrom i) t
        → Reach (new_row i envelope ∷ t) log
    -- A drain ends.
    drained :
        (t u : Table) (log : List (ℕ × DomainEvent)) (limit : ℕ) (accepts : DomainEvent → Bool)
        (out : Published)
        → Reach t log
        → drain parse true limit accepts t ≡ some (u, out)
        → Reach u (log ++ out.sent)
    -- The process dies when some events are out and nothing is stamped.
    cut_off :
        (t u : Table) (log : List (ℕ × DomainEvent)) (limit : ℕ) (accepts : DomainEvent → Bool)
        (out : Published)
        → Reach t log
        → publish_prepared parse accepts (prepare parse limit t) ≡ (u, out)
        → Reach u (log ++ out.sent)

  pub record Sound (t : Table) (log : List (ℕ × DomainEvent)) : Type 0 where
    pub distinct_ids : DistinctIds t
    pub distinct : DistinctPositions t
    pub accounted : All (Accounted t) log
    pub delivered :
        (i : ℕ) (r : OutboxRow)
        → get i t ≡ some r
        → r.processed ≡ true
        → r.failed ≡ none
        → is_sent i log ≡ true

  Sound-prepare :
      (t : Table) (log : List (ℕ × DomainEvent)) (limit : ℕ) (accepts : DomainEvent → Bool)
      → Sound t log
      → let (u, out) = publish_prepared parse accepts (prepare parse limit t) in
        Sound u (log ++ out.sent)
  unfolding publish_prepared
  Sound-prepare t log limit accepts s =
      let p = prepare-Prepared parse limit t s.distinct_ids s.distinct in
      let u = (prepare parse limit t).1 in
      let sent = (publish_rows parse accepts (prepare parse limit t).0).sent in
      record {
        distinct_ids = p.distinct_ids;
        distinct = p.distinct;
        accounted =
            All-append (Accounted u) log sent
              (All-map (Accounted t) log
                (λ (x : ℕ × DomainEvent) a. Accounted-Extends t u x p.extends a) s.accounted)
              (publish_rows-Accounted u accepts (prepare parse limit t).0 p.stored
                p.positioned_rows);
        delivered = λ i r h done live.
            let (q, held, same, same') = p.stamps i r h in
            is_sent-append i log sent (s.delivered i q held (sym same ∙ done) (sym same' ∙ live));
      }

  -- An update that leaves positions and envelopes alone.
  module _ (f : ℕ → OutboxRow → OutboxRow) (keeps : KeepsPositions f) (t : Table) where
    map_rows-Extends : Extends parse t (map_rows f t)
    map_rows-Extends = record {
      positions_kept =
          λ i n r h e. (f i r, get-map_rows-some f i t r h, (keeps i r).0 ∙ e, (keeps i r).1);
    }

    map_rows-DistinctPositions : DistinctPositions t → DistinctPositions (map_rows f t)
    map_rows-DistinctPositions u i j n r q h k e g =
        let (r', held, same) = get-map_rows-back f i t r h in
        let (q', held', same') = get-map_rows-back f j t q k in
        u i j n r' q' held held' (sym ((keeps i r').0) ∙ sym (ap (λ o. o.feed_seq) same) ∙ e)
          (sym ((keeps j q').0) ∙ sym (ap (λ o. o.feed_seq) same') ∙ g)

  -- Stamps: what is stamped without a reason has gone out.
  Sound-stamp :
      (u : Table) (before : List (ℕ × DomainEvent)) (out : Published)
      → Sound u (before ++ out.sent)
      → Sound (stamp (u, out)) (before ++ out.sent)
  unfolding stamp
  Sound-stamp u before out s =
      let once = map_rows (stamp_sent out.sent) u in
      let keeps = stamp_sent-KeepsPositions out.sent in
      let keeps' = stamp_dead-KeepsPositions out.dead in
      let log = before ++ out.sent in
      record {
        distinct_ids =
            DistinctIds-map_rows (stamp_dead out.dead) once
              (DistinctIds-map_rows (stamp_sent out.sent) u s.distinct_ids);
        distinct =
            map_rows-DistinctPositions (stamp_dead out.dead) keeps' once
              (map_rows-DistinctPositions (stamp_sent out.sent) keeps u s.distinct);
        accounted =
            All-map (Accounted u) log
              (λ (x : ℕ × DomainEvent) a.
                Accounted-Extends once (stamp (u, out)) x
                  (map_rows-Extends (stamp_dead out.dead) keeps' once)
                  (Accounted-Extends u once x (map_rows-Extends (stamp_sent out.sent) keeps u) a))
              s.accounted;
        delivered = λ i r h done live.
            let (q, held, same) = get-map_rows-back (stamp_dead out.dead) i once r h in
            let (q', held', same') = get-map_rows-back (stamp_sent out.sent) i u q held in
            let alive = dead_for-alive (get i out.dead) q (sym (ap (λ o. o.failed) same) ∙ live) in
            elim (Bool-cases (is_sent i out.sent)) [
              | inl b ↦ is_sent-append_later i before out.sent b
              | inr b ↦
                  let whole = same ∙ alive ∙ same' ∙ unsent-unchanged i out.sent q' b in
                  s.delivered i q' held' (sym (ap (λ o. o.processed) whole) ∙ done)
                    (sym (ap (λ o. o.failed) whole) ∙ live)
            ];
      }

  new_row-Extends :
      (i : ℕ) (envelope : Text) (t : Table)
      → All (DiffersFrom i) t
      → Extends parse t (new_row i envelope ∷ t)
  unfolding get
  new_row-Extends i envelope t a = record {
    positions_kept = λ j n r h e.
        let b : nat_beq i j ≡ false = ground (arith, nat_beq_iff i j, stored-differs i j r t a h) in
        (r, rw b h, e, refl);
  }

  -- A new row has no position and no stamp.
  Sound-insert :
      (t : Table) (log : List (ℕ × DomainEvent)) (i : ℕ) (envelope : Text)
      → All (DiffersFrom i) t
      → Sound t log
      → Sound (new_row i envelope ∷ t) log
  Sound-insert t log i envelope a s = record {
    distinct_ids = (a, s.distinct_ids);
    distinct = λ j k n r q h h' e e'. elim (stored-cases i envelope j r t h) [
      | inl new ↦ absurd (cc (e, ap (λ o. o.feed_seq) new))
      | inr old ↦ elim (stored-cases i envelope k q t h') [
        | inl new ↦ absurd (cc (e', ap (λ o. o.feed_seq) new))
        | inr old' ↦ s.distinct j k n r q old old' e e'
      ]
    ];
    accounted =
        All-map (Accounted t) log
          (λ (x : ℕ × DomainEvent) k.
            Accounted-Extends t (new_row i envelope ∷ t) x (new_row-Extends i envelope t a) k)
          s.accounted;
    delivered = λ j r h done live. elim (stored-cases i envelope j r t h) [
      | inl new ↦ absurd (cc (done, ap (λ o. o.processed) new))
      | inr old ↦ s.delivered j r old done live
    ];
  }

  pub Reach-Sound : (t : Table) (log : List (ℕ × DomainEvent)) → Reach t log → Sound t log
  unfolding drain publish_prepared
  Reach-Sound _ _ start = record {
    distinct_ids = tt;
    distinct = λ i j n r q h k e g. absurd (get-nothing i r [] refl h);
    accounted = tt;
    delivered = λ i r h done live. absurd (get-nothing i r [] refl h);
  }
  Reach-Sound _ _ (insert t log i envelope reached a) =
      Sound-insert t log i envelope a (Reach-Sound t log reached)
  Reach-Sound _ _ (drained t u log limit accepts out reached same) =
      let w = publish_prepared parse accepts (prepare parse limit t) in
      subst (λ v. Sound (v.0) (log ++ v.1.sent)) (some-injective (stamp w, w.1) (u, out) same)
        (Sound-stamp w.0 log w.1 (Sound-prepare t log limit accepts (Reach-Sound t log reached)))
  Reach-Sound _ _ (cut_off t u log limit accepts out reached same) =
      subst (λ w. Sound (w.0) (log ++ w.1.sent)) same
        (Sound-prepare t log limit accepts (Reach-Sound t log reached))

  Accounted-position :
      (t : Table) (x : ℕ × DomainEvent) (n : ℕ) (a : Accounted t x)
      → x.1.feed_seq ≡ some n
      → a.position ≡ n
  Accounted-position t x n a h = some-injective a.position n (sym (ap (λ e. e.feed_seq) a.same) ∙ h)

  -- A position of the feed stands for one event: however often drains fail, are cut off or are
  -- repeated, two events that went out with one position are of the same row and are equal.
  pub Reach-one_event :
      (t : Table) (log : List (ℕ × DomainEvent)) (x y : ℕ × DomainEvent) (n : ℕ)
      → Reach t log
      → In x log
      → In y log
      → x.1.feed_seq ≡ some n
      → y.1.feed_seq ≡ some n
      → x ≡ y
  Reach-one_event t log x y n reached h k e e' =
      let s = Reach-Sound t log reached in
      let a = All-In (Accounted t) x log s.accounted h in
      let b = All-In (Accounted t) y log s.accounted k in
      let p = Accounted-position t x n a e in
      let q = Accounted-position t y n b e' in
      let same_id : x.0 ≡ y.0 =
        s.distinct (x.0) (y.0) n a.row b.row a.held b.held (a.numbered ∙ ap some p)
          (b.numbered ∙ ap some q) in
      let same_row : a.row ≡ b.row =
        some-injective a.row b.row (sym a.held ∙ ap (λ i. get i t) same_id ∙ b.held) in
      let same_event : a.event ≡ b.event =
        valid-injective a.event b.event
          (sym a.parsed ∙ ap (λ r. parse (r.envelope)) same_row ∙ b.parsed) in
      let same_body : x.1 ≡ y.1 =
        a.same
        ∙ ap (positioned (some a.position)) same_event
        ∙ ap (λ m. positioned (some m) b.event) (p ∙ sym q)
        ∙ sym b.same in
      λ i. (same_id i, same_body i)

  -- Nothing is lost: a row that is stamped as processed, and not as dead, has gone out.
  pub Reach-at_least_once :
      (t : Table) (log : List (ℕ × DomainEvent)) (i : ℕ) (r : OutboxRow)
      → Reach t log
      → get i t ≡ some r
      → r.processed ≡ true
      → r.failed ≡ none
      → is_sent i log ≡ true
  Reach-at_least_once t log i r reached = (Reach-Sound t log reached).delivered i r
