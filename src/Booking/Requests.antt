-- ===== src/Booking/Requests.antt =====
-- server/domain/bookingService.ts: sequences of bookings and releases, and how a transition behind
-- its key succeeds.
use bahn_project_manager.Prelude.{
  ℕ, ◌≡◌, refl, sym, ap, ◌∙◌, Bool, true, false, not, ◌||◌, inl, inr, Option, none, some, List, [],
  ◌∷◌, get, put, nat_eq, nat_beq, Text, text_beq, Option-cases,
}
use bahn_project_manager.Event.{DomainEvent}
use bahn_project_manager.Permissions.{Principal}
use bahn_project_manager.Store.{Result, ok, err, key_eq, idempotency_key_reuse}
use bahn_project_manager.Store.Log.{bind-ok, ok-injective, guard-ok}
use bahn_project_manager.Booking.Contract.{SlotDto, BookSlotInput, ReleaseSlotInput}
use bahn_project_manager.Booking.{SlotDb, SlotKeyRow, SlotAnswer, BookingEnv}
use bahn_project_manager.Booking.Operations.{
  book, release, keyed_slot, claimed_slot, complete_slot, new_slot_key, fresh_slot, replayed_slot,
  with_response,
}

pub data SlotRequest : Type 0 where
  book_of : Principal → BookSlotInput → SlotRequest
  release_of : Principal → ReleaseSlotInput → SlotRequest

unfoldable pub perform_slot :
    BookingEnv → SlotRequest → Text → SlotDb → Result (SlotAnswer × SlotDb)
unfolding book release
perform_slot b (book_of p input) trace s = book b p input trace s
perform_slot b (release_of p input) trace s = release b p input trace s

abbrev pub kept_slots : SlotDb → Result (SlotAnswer × SlotDb) → SlotDb
kept_slots s (ok (a, after)) = after
kept_slots s (err e) = s

-- Requests one after the other; one that fails leaves the tables as they were.
unfoldable pub serve_slots : BookingEnv → List (SlotRequest × Text) → SlotDb → SlotDb
unfolding perform_slot
serve_slots b [] s = s
serve_slots b ((q, trace) ∷ more) s = serve_slots b more (kept_slots s (perform_slot b q trace s))

-- A request is a release of the slot.
abbrev pub releases : ℕ → SlotRequest → Bool
releases id (book_of p input) = false
releases id (release_of p input) = nat_beq input.id id

slots-complete_slot :
    (actor key : Text) (a : SlotAnswer) (s : SlotDb) → (complete_slot actor key a s).slots ≡ s.slots
unfolding complete_slot
slots-complete_slot actor key a s = elim (Option-cases (get (actor, key) s.keys)) [
  | inl n ↦ ap (λ o. (with_response actor key a s o).slots) n
  | inr (row, h) ↦ ap (λ o. (with_response actor key a s o).slots) h
]

abbrev claimed_at : Text → Text → Text → Text → SlotDb → SlotDb
claimed_at actor key operation hash s = record s {
  keys = put (actor, key) (new_slot_key operation hash) s.keys;
}

-- How a keyed transition succeeds: from its row, changing nothing, or by its body.
pub data SlotOutcome (actor key operation hash : Text)
    (body : SlotDb → Result ((SlotDto × DomainEvent) × SlotDb)) (s : SlotDb)
    (r : SlotAnswer × SlotDb) : Type 0 where
  repeated : (r.0.replayed ≡ true) → (r.1 ≡ s) → SlotOutcome actor key operation hash body s r
  done :
      (d : (SlotDto × DomainEvent) × SlotDb)
      → body (record s { keys = put (actor, key) (new_slot_key operation hash) s.keys }) ≡ ok d
      → r.0 ≡ fresh_slot d.0
      → r.1.slots ≡ d.1.slots
      → SlotOutcome actor key operation hash body s r

replayed-replayed_slot : (a : Option SlotAnswer) → (replayed_slot a).replayed ≡ true
replayed-replayed_slot none = refl
replayed-replayed_slot (some a) = refl

module _ (actor key operation hash : Text)
    (body : SlotDb → Result ((SlotDto × DomainEvent) × SlotDb)) (s : SlotDb)
    (r : SlotAnswer × SlotDb) where
  claimed_slot-Outcome :
      (found : Option SlotKeyRow)
      → claimed_slot actor key operation hash body s found ≡ ok r
      → SlotOutcome actor key operation hash body s r
  claimed_slot-Outcome none h =
      let start = claimed_at actor key operation hash s in
      let (d, ran, rest) = bind-ok (body start) _ r h in
      let same = ok-injective _ r rest in
      done d ran (ap (λ q. q.0) (sym same))
        (ap (λ q. q.1.slots) (sym same) ∙ slots-complete_slot actor key (fresh_slot d.0) d.1)
  claimed_slot-Outcome (some row) h =
      let other = not (text_beq row.request_hash hash) || not (text_beq row.operation operation) in
      let (known, rest) =
        guard-ok other idempotency_key_reuse (ok (replayed_slot row.response, s)) r h in
      let same = ok-injective _ r rest in
      repeated (ap (λ q. q.0.replayed) (sym same) ∙ replayed-replayed_slot row.response)
        (ap (λ q. q.1) (sym same))

  pub keyed_slot-Outcome :
      keyed_slot actor key operation hash body s ≡ ok r
      → SlotOutcome actor key operation hash body s r
  unfolding keyed_slot
  keyed_slot-Outcome h = claimed_slot-Outcome (get (actor, key) s.keys) h
