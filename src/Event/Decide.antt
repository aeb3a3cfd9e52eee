-- ===== src/Event/Decide.antt =====
-- shared/domain-events.ts, `decideEvent`: what a consumer does with an event, given the version of
-- the aggregate that it holds.
use bahn_project_manager.Prelude.{
  ℕ, ◌+◌, ◌-◌, ◌≤◌, ◌≡◌, ◌↔◌, Bool, true, false, ◌&&◌, Option, none, some, arith, if◌then◌else◌,
  leb, nat_beq,
}
use bahn_project_manager.Event.{DomainEvent, EventType, project_created}

pub data EventDecision : Type 0 where
  apply stale unknown_aggregate : EventDecision
  gap : (missing_from missing_to : ℕ) → EventDecision

abbrev pub is_created : EventType → Bool
is_created project_created = true
is_created _ = false

unfoldable pub decide_event : Option ℕ → DomainEvent → EventDecision
decide_event none event =
    if is_created event.event_type && nat_beq event.aggregate_version 1
    then apply
    else unknown_aggregate
decide_event (some known) event =
    if leb event.aggregate_version known
    then stale
    else if nat_beq event.aggregate_version (known + 1)
    then apply
    else gap (known + 1) (event.aggregate_version - 1)

-- For a held aggregate the decision is fixed by the two versions: an event is applied exactly when
-- it is the next one, it is stale exactly when its version is already reflected, and a gap is
-- reported exactly when the versions it names, from the next one up to the one before the event,
-- are missing, of which there is at least one.
pub decide_event_iff :
    (known : ℕ) (e : DomainEvent) (a b : ℕ)
    → let d = decide_event (some known) e in
      ((d ≡ apply) ↔ (e.aggregate_version ≡ known + 1))
      × ((d ≡ stale) ↔ (e.aggregate_version ≤ known))
      × ((d ≡ gap a b) ↔ ((a ≡ known + 1) × (b + 1 ≡ e.aggregate_version) × (a ≤ b)))
unfolding decide_event
decide_event_iff known e a b = ground arith
