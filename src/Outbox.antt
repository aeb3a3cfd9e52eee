-- ===== src/Outbox.antt =====
-- server/infra/mysqlOutbox.ts: the rows of `domain_events` as the relay sees them, and one drain: it
-- numbers what is new, publishes until the bus refuses, and stamps what it published. Rows are kept
-- by id. `DomainEventSchema.parse` of an envelope and the bus's answer are parameters.
pub mod Table
pub mod Selection
pub mod Numbering
pub mod Prepared
pub mod Stamps
pub mod Delivery
pub mod Progress
use bahn_project_manager.Prelude.{
  ℕ, ◌+◌, max, Bool, true, false, not, ◌&&◌, ◌||◌, Option, none, some, List, [], ◌∷◌, ◌++◌, map,
  take, filter, length, any, if◌then◌else◌, get, nat_eq, nat_beq, leb, Text,
}
use bahn_project_manager.Event.{DomainEvent}

-- `feedSeq`, `processedAt IS NOT NULL`, and `failureReason` of a row that is dead.
pub record OutboxRow : Type 0 where
  pub envelope : Text
  pub feed_seq : Option ℕ
  pub processed : Bool
  pub failed : Option Text

abbrev pub Table : Type 0
Table = List (ℕ × OutboxRow)

-- What `DomainEventSchema.parse` makes of an envelope: an event, or the reason why it is none.
pub data Parsed : Type 0 where
  valid : DomainEvent → Parsed
  invalid : Text → Parsed

abbrev pub is_numbered : OutboxRow → Bool
is_numbered r = elim r.feed_seq [ none ↦ false | some n ↦ true ]

-- `WHERE processedAt IS NULL AND feedSeq IS NOT NULL`.
abbrev pub is_retried : ℕ × OutboxRow → Bool
is_retried (i, r) = not r.processed && is_numbered r

-- `WHERE processedAt IS NULL`.
abbrev pub is_waiting : ℕ × OutboxRow → Bool
is_waiting (i, r) = not r.processed

abbrev pub seq_or_zero : Option ℕ → ℕ
seq_or_zero none = 0
seq_or_zero (some n) = n

abbrev pub by_seq : ℕ × OutboxRow → ℕ
by_seq (i, r) = seq_or_zero r.feed_seq

abbrev pub by_id : ℕ × OutboxRow → ℕ
by_id (i, r) = i

-- `ORDER BY`.
unfoldable pub insert_by : (ℕ × OutboxRow → ℕ) → ℕ × OutboxRow → Table → Table
insert_by key x [] = x ∷ []
insert_by key x (y ∷ ys) =
    let rest = insert_by key x ys in if leb (key x) (key y) then x ∷ y ∷ ys else y ∷ rest

unfoldable pub sort_by : (ℕ × OutboxRow → ℕ) → Table → Table
unfolding insert_by
sort_by key [] = []
sort_by key (x ∷ xs) = insert_by key x (sort_by key xs)

unfoldable pub retried_rows : ℕ → Table → Table
unfolding sort_by
retried_rows limit t = take limit (sort_by by_seq (filter is_retried t))

unfoldable pub waiting_rows : ℕ → Table → Table
unfolding sort_by
waiting_rows limit t = take limit (sort_by by_id (filter is_waiting t))

-- `COALESCE(MAX(feedSeq), 0)`.
unfoldable pub max_seq : Table → ℕ
max_seq [] = 0
max_seq (x ∷ t) = max (by_seq x) (max_seq t)

-- `UPDATE … SET` by the id and the row.
unfoldable pub map_rows : (ℕ → OutboxRow → OutboxRow) → Table → Table
map_rows f [] = []
map_rows f ((i, r) ∷ t) = (i, f i r) ∷ map_rows f t

abbrev pub next_seq : ℕ → Parsed → ℕ
next_seq seq (valid e) = seq + 1
next_seq seq (invalid reason) = seq

abbrev pub with_seq : ℕ → Parsed → OutboxRow → OutboxRow
with_seq seq (valid e) r = record r { feed_seq = some (seq + 1) }
with_seq seq (invalid reason) r = r

abbrev pub add_position : ℕ → ℕ → Parsed → List (ℕ × ℕ) → List (ℕ × ℕ)
add_position i seq (valid e) rest = (i, seq + 1) ∷ rest
add_position i seq (invalid reason) rest = rest

abbrev pub at_position : Option ℕ → OutboxRow → OutboxRow
at_position none r = r
at_position (some n) r = record r { feed_seq = some n }

abbrev pub set_position : List (ℕ × ℕ) → ℕ → OutboxRow → OutboxRow
set_position positions i r = at_position (get i positions) r

-- The events that went out with the ids of their rows, the rows that are dead with the reasons, and
-- whether the bus refused one.
pub record Published : Type 0 where
  pub sent : List (ℕ × DomainEvent)
  pub dead : List (ℕ × Text)
  pub failure : Bool

abbrev pub nothing : Bool → Published
nothing failure = record { sent = []; dead = []; failure = failure }

-- `{ ...env, feedSeq }`.
abbrev pub positioned : Option ℕ → DomainEvent → DomainEvent
positioned none e = e
positioned (some n) e = record e { feed_seq = some n }

-- One row, before the rest: dead, published, or refused, which ends the loop.
abbrev pub publish_one : (DomainEvent → Bool) → ℕ → OutboxRow → Parsed → Published → Published
publish_one accepts i r (invalid reason) rest = record rest {
  dead = (i, take 500 reason) ∷ rest.dead;
}
publish_one accepts i r (valid e) rest =
    if accepts (positioned r.feed_seq e)
    then record rest { sent = (i, positioned r.feed_seq e) ∷ rest.sent }
    else nothing true

abbrev pub is_sent : ℕ → List (ℕ × DomainEvent) → Bool
is_sent i sent = any (λ s. nat_beq s.0 i) sent

abbrev pub stamp_sent : List (ℕ × DomainEvent) → ℕ → OutboxRow → OutboxRow
stamp_sent sent i r = if is_sent i sent then record r { processed = true } else r

abbrev pub dead_for : Option Text → OutboxRow → OutboxRow
dead_for none r = r
dead_for (some reason) r = record r { processed = true; failed = some reason }

abbrev pub stamp_dead : List (ℕ × Text) → ℕ → OutboxRow → OutboxRow
stamp_dead dead i r = dead_for (get i dead) r

-- The stamps of what went out, and of what is dead.
unfoldable pub stamp : Table × Published → Table
unfolding map_rows
stamp (t, out) = map_rows (stamp_dead out.dead) (map_rows (stamp_sent out.sent) t)

-- `backlog`.
unfoldable pub backlog : Table → ℕ
backlog t = length (filter is_waiting t)

module _ (parse : Text → Parsed) where
  -- The rows with the positions that they are given from `seq` on; one that cannot be parsed gets
  -- none.
  unfoldable pub number : ℕ → Table → Table
  number seq [] = []
  number seq ((i, r) ∷ rows) =
      (i, with_seq seq (parse r.envelope) r) ∷ number (next_seq seq (parse r.envelope)) rows

  -- `numbered`.
  unfoldable pub positions : ℕ → Table → List (ℕ × ℕ)
  positions seq [] = []
  positions seq ((i, r) ∷ rows) =
      add_position i seq (parse r.envelope) (positions (next_seq seq (parse r.envelope)) rows)

  -- The rows to publish, and the table in which their positions are stored before anything goes out:
  -- those numbered earlier, or else new ones.
  unfoldable pub prepare_from : ℕ → Table → Table → Table × Table
  unfolding waiting_rows max_seq map_rows number positions
  prepare_from limit t (x ∷ xs) = (x ∷ xs, t)
  prepare_from limit t [] =
      let rows = waiting_rows limit t in
      (number (max_seq t) rows, map_rows (set_position (positions (max_seq t) rows)) t)

  unfoldable pub prepare : ℕ → Table → Table × Table
  unfolding retried_rows prepare_from
  prepare limit t = prepare_from limit t (retried_rows limit t)

  unfoldable pub publish_rows : (DomainEvent → Bool) → Table → Published
  publish_rows accepts [] = nothing false
  publish_rows accepts ((i, r) ∷ rows) =
      publish_one accepts i r (parse r.envelope) (publish_rows accepts rows)

  -- The drain up to its stamps: what is stored and what went out if the process ends here.
  unfoldable pub publish_prepared : (DomainEvent → Bool) → Table × Table → Table × Published
  unfolding publish_rows
  publish_prepared accepts (rows, t) = (t, publish_rows accepts rows)

  -- `drain`, behind its lock: the new table and what went out, or null if another relay holds it.
  unfoldable pub drain : Bool → ℕ → (DomainEvent → Bool) → Table → Option (Table × Published)
  unfolding prepare publish_prepared stamp
  drain false limit accepts t = none
  drain true limit accepts t =
      let (stored, out) = publish_prepared accepts (prepare limit t) in
      some (stamp (stored, out), out)
