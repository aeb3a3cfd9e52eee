-- ===== src/Outbox/Progress.antt =====
-- server/infra/mysqlOutbox.ts: how many rows wait before and after drains.
use bahn_project_manager.Prelude.{
  ℕ, zero, suc, ◌<◌, ◌≤◌, ◌≡◌, ◌≢◌, refl, sym, ap, ◌∙◌, subst, Bool, true, false, not, inl, inr,
  Option, none, some, List, [], ◌∷◌, ◌++◌, All, All-take, ◌&&◌, length, filter, get, nat_eq,
  nat_beq, nat_beq_iff, Text, Bool-cases, arith, some-injective, if◌then◌else◌,
}
use bahn_project_manager.Event.{DomainEvent}
use bahn_project_manager.Outbox.{
  OutboxRow, Table, Parsed, valid, invalid, Published, backlog, map_rows, is_waiting, is_retried,
  stamp, stamp_sent, stamp_dead, dead_for, is_sent, prepare, prepare_from, publish_rows,
  publish_one, publish_prepared, drain, retried_rows, waiting_rows, sort_by, by_id, set_position,
  at_position, number, positions, max_seq, with_seq, next_seq, is_numbered,
}
use bahn_project_manager.Outbox.Table.{All-sort_by, All-filter_test, retried_rows-Are_retried}
use bahn_project_manager.Outbox.Selection.{DistinctIds, sort_by-empty, take-empty}
use bahn_project_manager.Outbox.Prepared.{DistinctPositions, prepare-Prepared}
use bahn_project_manager.Outbox.Delivery.{Reach, drained, Reach-Sound}

-- An update that never takes a stamp back.
abbrev KeepsStamps : (ℕ → OutboxRow → OutboxRow) → Type 0
KeepsStamps f = (i : ℕ) (r : OutboxRow) → r.processed ≡ true → (f i r).processed ≡ true

waiting_cons :
    (i : ℕ) (r : OutboxRow) (t : Table)
    → backlog ((i, r) ∷ t) ≡ (if r.processed then backlog t else suc (backlog t))
unfolding backlog
waiting_cons i r t = elim (Bool-cases r.processed) [ inl b ↦ rw b | inr b ↦ rw b ]

module _ (f : ℕ → OutboxRow → OutboxRow) (keeps : KeepsStamps f) where
  map_rows-backlog_le : (t : Table) → backlog (map_rows f t) ≤ backlog t
  unfolding map_rows
  map_rows-backlog_le [] = omega arith
  map_rows-backlog_le ((i, r) ∷ t) = ground (
    arith,
    map_rows-backlog_le t,
    waiting_cons i r t,
    waiting_cons i (f i r) (map_rows f t),
    keeps i r,
  )

  -- A row that is stamped now no longer waits.
  map_rows-backlog_lt :
      (t : Table) (i : ℕ) (r : OutboxRow)
      → get i t ≡ some r
      → r.processed ≡ false
      → (f i r).processed ≡ true
      → backlog (map_rows f t) < backlog t
  unfolding map_rows get
  map_rows-backlog_lt [] i r h w p = absurd (cc h)
  map_rows-backlog_lt ((j, q) ∷ t) i r h w p = elim (Bool-cases (nat_beq j i)) [
    | inl b ↦
        let same = (nat_beq_iff j i).0 b in
        let held = some-injective q r (rw b at h) in
        let w' : q.processed ≡ false = ap (λ o. o.processed) held ∙ w in
        let p' : (f j q).processed ≡ true =
          ap (λ k. (f k q).processed) same ∙ ap (λ o. (f i o).processed) held ∙ p in
        ground (
          arith,
          map_rows-backlog_le t,
          waiting_cons j q t,
          waiting_cons j (f j q) (map_rows f t),
          w',
          p',
        )
    | inr b ↦
        let rest = map_rows-backlog_lt t i r (rw b at h) w p in
        ground (arith, rest, waiting_cons j q t, waiting_cons j (f j q) (map_rows f t), keeps j q)
  ]

map_rows-twice :
    (f g : ℕ → OutboxRow → OutboxRow) (t : Table)
    → map_rows g (map_rows f t) ≡ map_rows (λ i r. g i (f i r)) t
unfolding map_rows
map_rows-twice f g [] = refl
map_rows-twice f g ((i, r) ∷ t) = ap (λ u. (i, g i (f i r)) ∷ u) (map_rows-twice f g t)

-- Both stamps of one row.
abbrev stamped : Published → ℕ → OutboxRow → OutboxRow
stamped out i r = stamp_dead out.dead i (stamp_sent out.sent i r)

dead_for-stamps :
    (o : Option Text) (r : OutboxRow) → r.processed ≡ true → (dead_for o r).processed ≡ true
dead_for-stamps none r h = h
dead_for-stamps (some reason) r h = refl

stamp_sent-stamps :
    (sent : List (ℕ × DomainEvent)) (i : ℕ) (r : OutboxRow)
    → r.processed ≡ true
    → (stamp_sent sent i r).processed ≡ true
stamp_sent-stamps sent i r h = elim (Bool-cases (is_sent i sent)) [
  | inl b ↦ rw b refl
  | inr b ↦ rw b h
]

stamped-KeepsStamps : (out : Published) → KeepsStamps (stamped out)
stamped-KeepsStamps out i r h =
    dead_for-stamps (get i out.dead) (stamp_sent out.sent i r) (stamp_sent-stamps out.sent i r h)

-- The bus accepts everything.
abbrev pub accepts_all : DomainEvent → Bool
accepts_all e = true

-- The first row that a drain hands out is stamped by it.
publish_one-stamps :
    (i : ℕ) (r q : OutboxRow) (p : Parsed) (rest : Published)
    → (stamped (publish_one accepts_all i q p rest) i r).processed ≡ true
unfolding get
publish_one-stamps i r q (invalid reason) rest = rw ((nat_beq_iff i i).1 refl) refl
publish_one-stamps i r q (valid e) rest =
    dead_for-stamps (get i rest.dead) _ (rw ((nat_beq_iff i i).1 refl) refl)

map_rows-backlog_eq :
    (f : ℕ → OutboxRow → OutboxRow) (t : Table)
    → ((i : ℕ) (r : OutboxRow) → (f i r).processed ≡ r.processed)
    → backlog (map_rows f t) ≡ backlog t
unfolding map_rows
map_rows-backlog_eq f [] same = refl
map_rows-backlog_eq f ((i, r) ∷ t) same =
    waiting_cons i (f i r) (map_rows f t)
    ∙ ap (λ b. if b then backlog (map_rows f t) else suc (backlog (map_rows f t))) (same i r)
    ∙ ap (λ n. if r.processed then n else suc n) (map_rows-backlog_eq f t same)
    ∙ sym (waiting_cons i r t)

with_seq-stamps :
    (seq : ℕ) (q : Parsed) (r : OutboxRow) → (with_seq seq q r).processed ≡ r.processed
with_seq-stamps seq (valid e) r = refl
with_seq-stamps seq (invalid reason) r = refl

set_position-stamps : (o : Option ℕ) (r : OutboxRow) → (at_position o r).processed ≡ r.processed
set_position-stamps none r = refl
set_position-stamps (some n) r = refl

waiting_rows-Are_waiting :
    (limit : ℕ) (t : Table) → All (λ x. is_waiting x ≡ true) (waiting_rows limit t)
unfolding waiting_rows
waiting_rows-Are_waiting limit t =
    All-take _ limit (sort_by by_id (filter is_waiting t))
      (All-sort_by _ by_id (filter is_waiting t) (All-filter_test is_waiting t))

waiting_rows-some : (limit : ℕ) (t : Table) → backlog t ≢ 0 → waiting_rows (suc limit) t ≢ []
unfolding waiting_rows backlog
waiting_rows-some limit t some_wait h = some_wait (
    ap length (
      sort_by-empty by_id (filter is_waiting t)
        (take-empty limit (sort_by by_id (filter is_waiting t)) h)))

waiting-unprocessed : (b : Bool) → not b ≡ true → b ≡ false
waiting-unprocessed true h = sym h
waiting-unprocessed false h = refl

retried-unprocessed : (b c : Bool) → (not b && c) ≡ true → b ≡ false
retried-unprocessed true c h = sym h
retried-unprocessed false c h = refl

-- A row to publish that still waits.
abbrev HasHead : Table → Type 0
HasHead rows =
    (i : ℕ) × (r : OutboxRow) × (rest : Table) × (rows ≡ (i, r) ∷ rest) × (r.processed ≡ false)

module _ (parse : Text → Parsed) where
  number-HasHead :
      (seq : ℕ) (rows : Table)
      → rows ≢ []
      → All (λ x. is_waiting x ≡ true) rows
      → HasHead (number parse seq rows)
  unfolding number
  number-HasHead seq [] ne a = absurd (ne refl)
  number-HasHead seq ((i, r) ∷ rows) ne (w, a) = (
    i,
    with_seq seq (parse r.envelope) r,
    number parse (next_seq seq (parse r.envelope)) rows,
    refl,
    with_seq-stamps seq (parse r.envelope) r ∙ waiting-unprocessed r.processed w,
  )

  prepare_from-HasHead :
      (limit : ℕ) (t rows : Table)
      → rows ≡ retried_rows (suc limit) t
      → backlog t ≢ 0
      → HasHead ((prepare_from parse (suc limit) t rows).0)
  unfolding prepare_from
  prepare_from-HasHead limit t ((i, r) ∷ rows) h waits =
      let (retried, _) =
        subst (All (λ x. is_retried x ≡ true)) (sym h) (retried_rows-Are_retried (suc limit) t) in
      (i, r, rows, refl, retried-unprocessed r.processed (is_numbered r) retried)
  prepare_from-HasHead limit t [] h waits =
      number-HasHead (max_seq t) (waiting_rows (suc limit) t) (waiting_rows-some limit t waits)
        (waiting_rows-Are_waiting (suc limit) t)

  prepare_from-backlog :
      (limit : ℕ) (t rows : Table) → backlog ((prepare_from parse limit t rows).1) ≡ backlog t
  unfolding prepare_from
  prepare_from-backlog limit t (x ∷ rows) = refl
  prepare_from-backlog limit t [] =
      map_rows-backlog_eq (set_position (positions parse (max_seq t) (waiting_rows limit t))) t
        (λ i r. set_position-stamps (get i (positions parse (max_seq t) (waiting_rows limit t))) r)

  -- The table after a drain; one that another relay holds back changes nothing.
  abbrev pub after_drain : Table → Option (Table × Published) → Table
  after_drain t none = t
  after_drain t (some (u, out)) = u

  drain-backlog_le :
      (limit : ℕ) (t : Table)
      → backlog (after_drain t (drain parse true limit accepts_all t)) ≤ backlog t
  unfolding drain publish_prepared stamp prepare
  drain-backlog_le limit t =
      let stored = (prepare parse limit t).1 in
      let out = publish_rows parse accepts_all (prepare parse limit t).0 in
      let same = prepare_from-backlog limit t (retried_rows limit t) in
      let twice = ap backlog (map_rows-twice (stamp_sent out.sent) (stamp_dead out.dead) stored) in
      let fewer = map_rows-backlog_le (stamped out) (stamped-KeepsStamps out) stored in
      omega (arith, fewer, same, twice)

  -- A drain of one row or more whose bus accepts everything leaves fewer rows waiting.
  drain-backlog_lt :
      (limit : ℕ) (t : Table)
      → DistinctIds t
      → DistinctPositions t
      → backlog t ≢ 0
      → backlog (after_drain t (drain parse true (suc limit) accepts_all t)) < backlog t
  unfolding drain publish_prepared stamp prepare publish_rows
  drain-backlog_lt limit t d u waits =
      let p = prepare-Prepared parse (suc limit) t d u in
      let rows = (prepare parse (suc limit) t).0 in
      let stored = (prepare parse (suc limit) t).1 in
      let (i, r, rest, head, fresh) =
        prepare_from-HasHead limit t (retried_rows (suc limit) t) refl waits in
      let held = (subst (All (λ x. get (x.0) stored ≡ some (x.1))) head p.stored).0 in
      let out = publish_rows parse accepts_all rows in
      let done : (stamped out i r).processed ≡ true =
        subst (λ o. (stamped (publish_rows parse accepts_all o) i r).processed ≡ true) (sym head)
          (publish_one-stamps i r r (parse r.envelope) (publish_rows parse accepts_all rest)) in
      let less =
        map_rows-backlog_lt (stamped out) (stamped-KeepsStamps out) stored i r held fresh done in
      let same = prepare_from-backlog (suc limit) t (retried_rows (suc limit) t) in
      let twice = ap backlog (map_rows-twice (stamp_sent out.sent) (stamp_dead out.dead) stored) in
      omega (arith, less, same, twice)

  -- So many drains, one after the other.
  unfoldable pub drains : ℕ → ℕ → Table → Table
  unfolding drain
  drains zero limit t = t
  drains (suc n) limit t = drains n limit (after_drain t (drain parse true limit accepts_all t))

  after_drain-Reach :
      (limit : ℕ) (t : Table) (log : List (ℕ × DomainEvent))
      → Reach parse t log
      → (more : List (ℕ × DomainEvent)) × Reach parse
          (after_drain t (drain parse true limit accepts_all t))
          more
  unfolding drain
  after_drain-Reach limit t log reached =
      let w = publish_prepared parse accepts_all (prepare parse limit t) in
      (log ++ w.1.sent, drained t (stamp w) log limit accepts_all w.1 reached refl)

  drains-enough :
      (n limit : ℕ) (t : Table) (log : List (ℕ × DomainEvent))
      → Reach parse t log
      → backlog t ≤ n
      → backlog (drains n (suc limit) t) ≡ 0
  unfolding drains
  drains-enough zero limit t log reached h = omega arith
  drains-enough (suc n) limit t log reached h =
      let next = after_drain t (drain parse true (suc limit) accepts_all t) in
      let (more, reached') = after_drain-Reach (suc limit) t log reached in
      drains-enough n limit next more reached' (elim (Bool-cases (nat_beq (backlog t) 0)) [
        | inl b ↦ omega (arith, drain-backlog_le (suc limit) t, (nat_beq_iff (backlog t) 0).0 b)
        | inr b ↦
            let s = Reach-Sound parse t log reached in
            let waits : backlog t ≢ 0 = λ e. ground (arith, nat_beq_iff (backlog t) 0) in
            omega (arith, h, drain-backlog_lt limit t s.distinct_ids s.distinct waits)
      ])

  -- Whatever has happened before, as many drains as rows wait empty the outbox when the bus accepts
  -- again: no row, parseable or not, stands in the way.
  pub drains-empty :
      (limit : ℕ) (t : Table) (log : List (ℕ × DomainEvent))
      → Reach parse t log
      → backlog (drains (backlog t) (suc limit) t) ≡ 0
  drains-empty limit t log reached = drains-enough (backlog t) limit t log reached (omega arith)
