-- ===== src/Service/Feed.antt =====
-- server/domain/projectService.ts, `changes`: a page of the change feed for one user, over
-- `changesSince` of server/infra/mysqlProjectStore.ts. The loop makes at most five scans, which is
-- its bound here too.
use bahn_project_manager.Prelude.{
  ℕ, zero, suc, Bool, true, false, ◌&&◌, Option, none, some, List, [], ◌∷◌, ◌++◌, map, filter, take,
  length, min, if◌then◌else◌, leb, ltb,
}
use bahn_project_manager.Event.{DomainEvent}
use bahn_project_manager.Permissions.{Principal}
use bahn_project_manager.Store.{Db}
use bahn_project_manager.Service.{Env}
use bahn_project_manager.Service.Reads.{kept}

abbrev within : Option ℕ → ℕ → Bool
within none n = true
within (some top) n = leb n top

-- `feedSeq > after` and, with a bound, `feedSeq <= upTo`; an unpublished event has no position.
abbrev pub is_after : ℕ → Option ℕ → DomainEvent → Bool
is_after after up_to e = elim e.feed_seq [ none ↦ false | some n ↦ ltb after n && within up_to n ]

abbrev position : DomainEvent → ℕ
position e = elim e.feed_seq [ none ↦ 0 | some n ↦ n ]

-- ORDER BY feedSeq.
unfoldable pub insert_by_position : DomainEvent → List DomainEvent → List DomainEvent
insert_by_position e [] = e ∷ []
insert_by_position e (d ∷ ds) =
    let rest = insert_by_position e ds in
    if leb (position e) (position d) then e ∷ d ∷ ds else d ∷ rest

unfoldable pub sort_by_position : List DomainEvent → List DomainEvent
unfolding insert_by_position
sort_by_position [] = []
sort_by_position (e ∷ es) = insert_by_position e (sort_by_position es)

-- `changesSince`.
unfoldable pub changes_since : ℕ → ℕ → Option ℕ → Db → List DomainEvent
unfolding sort_by_position
changes_since after limit up_to db =
    take limit (sort_by_position (filter (is_after after up_to) (map (λ r. r.event) db.events)))

-- `cursor = e.feedSeq ?? cursor` over a scan.
unfoldable pub last_position : ℕ → List DomainEvent → ℕ
last_position cursor [] = cursor
last_position cursor (e ∷ es) = last_position (elim e.feed_seq [ none ↦ cursor | some n ↦ n ]) es

pub record FeedPage : Type 0 where
  pub events : List DomainEvent
  pub cursor : ℕ
  pub has_more : Bool

-- The scans that are left; after the last one there may be more.
unfoldable pub scan : Env → Principal → ℕ → Option ℕ → Db → ℕ → List DomainEvent → ℕ → FeedPage
unfolding changes_since kept last_position
scan env p page up_to db zero events cursor = record {
  events = events;
  cursor = cursor;
  has_more = true;
}
scan env p page up_to db (suc scans) events cursor =
    let raw = changes_since cursor page up_to db in
    let more = events ++ kept env p raw in
    let last = last_position cursor raw in
    let rest = scan env p page up_to db scans more last in
    if ltb (length raw) page
    then record { events = more; cursor = last; has_more = false }
    else if leb page (length more)
    then record { events = more; cursor = last; has_more = true }
    else rest

abbrev limit_or : Option ℕ → ℕ
limit_or none = 200
limit_or (some n) = n

-- `changes`.
unfoldable pub changes_for : Env → Principal → ℕ → Option ℕ → Option ℕ → Db → FeedPage
unfolding scan
changes_for env p after up_to limit db = scan env p (min (limit_or limit) 500) up_to db 5 [] after
