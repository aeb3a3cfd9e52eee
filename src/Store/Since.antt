-- ===== src/Store/Since.antt =====
-- server/infra/mysqlProjectStore.ts, `loadEventsSince`, against the rows of the event log.
use bahn_project_manager.Prelude.{
  ℕ, zero, suc, ◌≡◌, ◌≤◌, ◌<◌, ◌⊎◌, refl, inl, inr, true, List, [], ◌∷◌, All, All-take, In,
  In-filter, In-map, filter, map, length, take, ltb→lt, lt→ltb, nat_beq_iff, Bool-cases, arith,
}
use bahn_project_manager.Event.{
  DomainEvent, AggregateType, project, presence, notification, checklist, booking,
}
use bahn_project_manager.Event.Order.{sort_by_version}
use bahn_project_manager.Event.Order.Sorted.{
  All-sort_by_version, Ascending, sort_by_version-Ascending, In-sort_by_version, take-first,
  take-Ascending,
}
use bahn_project_manager.Store.{Db, EventRow, same_type, is_since, events_since}

-- A row of the log that holds an event of one project behind a version.
abbrev pub IsSince : ℕ → ℕ → EventRow → Type 0
IsSince id after row =
    (row.aggregate ≡ id)
    × (row.event.aggregate_type ≡ project)
    × (after < row.event.aggregate_version)

-- The first `limit` events of one project behind a version, all of them if there are no more, in
-- the order of their versions.
pub record Since (id after limit : ℕ) (db : Db) (es : List DomainEvent) : Type 0 where
  pub logged :
      All (λ e. (row : EventRow) × In row db.events × (row.event ≡ e) × IsSince id after row) es
  pub ascending : Ascending es
  pub bounded : length es ≤ limit
  pub first :
      (row : EventRow)
      → In row db.events
      → IsSince id after row
      → In row.event es
        ⊎ ((length es ≡ limit) × All (λ e. e.aggregate_version ≤ row.event.aggregate_version) es)

same_type-project : (t : AggregateType) → same_type t project ≡ true → t ≡ project
same_type-project project h = refl
same_type-project presence h = absurd (ground arith)
same_type-project notification h = absurd (ground arith)
same_type-project checklist h = absurd (ground arith)
same_type-project booking h = absurd (ground arith)

is_since-IsSince :
    (id after : ℕ) (row : EventRow) → is_since id after row ≡ true → IsSince id after row
is_since-IsSince id after row h = ground (
  arith,
  same_type-project row.event.aggregate_type,
  nat_beq_iff row.aggregate id,
  ltb→lt after row.event.aggregate_version,
)

IsSince-is_since :
    (id after : ℕ) (row : EventRow) → IsSince id after row → is_since id after row ≡ true
IsSince-is_since id after row (a, t, v) =
    rw (t, (nat_beq_iff row.aggregate id).1 a, lt→ltb after row.event.aggregate_version v) refl

filter-logged :
    (id after : ℕ) (rows all_rows : List EventRow)
    → ((row : EventRow) → In row rows → In row all_rows)
    → All
        (λ e. (row : EventRow) × In row all_rows × (row.event ≡ e) × IsSince id after row)
        (map (λ r. r.event) (filter (is_since id after) rows))
filter-logged id after [] all_rows h = tt
filter-logged id after (row ∷ rows) all_rows h =
    let rest = filter-logged id after rows all_rows (λ r i. h r (inr i)) in
    elim (Bool-cases (is_since id after row)) [
      | inl b ↦ rw b ((row, h row (inl refl), refl, is_since-IsSince id after row b), rest)
      | inr b ↦ rw b rest
    ]

length-take_le {ℓ} : {A : Type ℓ} (n : ℕ) (xs : List A) → length (take n xs) ≤ n
length-take_le zero xs = omega arith
length-take_le (suc n) [] = omega arith
length-take_le (suc n) (x ∷ xs) = omega (arith, length-take_le n xs)

pub events_since-Since :
    (id after limit : ℕ) (db : Db) → Since id after limit db (events_since id after limit db)
unfolding events_since
events_since-Since id after limit db =
    let found = map (λ r. r.event) (filter (is_since id after) db.events) in
    let sorted = sort_by_version found in
    record {
      logged =
          All-take _ limit sorted
            (All-sort_by_version _ found (filter-logged id after db.events db.events (λ row i. i)));
      ascending = take-Ascending limit sorted (sort_by_version-Ascending found);
      bounded = length-take_le limit sorted;
      first = λ row i h. take-first limit row.event sorted (sort_by_version-Ascending found) (
          In-sort_by_version row.event found (
            In-map (λ (r : EventRow). r.event) row (filter (is_since id after) db.events)
              (In-filter (is_since id after) row db.events (IsSince-is_since id after row h) i)));
    }
