-- ===== src/Booking/Taken.antt =====
-- server/domain/bookingService.ts: sequences of bookings and releases, for one slot.
use bahn_project_manager.Prelude.{
  ℕ, ◌+◌, ◌≡◌, ◌≢◌, refl, sym, ap, subst, ◌∙◌, true, false, inl, inr, some, List, [], ◌∷◌, All, get,
  put, nat_eq, nat_beq, nat_beq_iff, Text, codes, arith, Bool-cases, get-put_self, get-put_ne,
  some-injective,
}
use bahn_project_manager.Permissions.{Principal}
use bahn_project_manager.Store.{ok, key_eq}
use bahn_project_manager.Store.Log.{Result-cases}
use bahn_project_manager.Booking.Contract.{
  BookedAs, as_gebucht, as_vorgebucht_im, as_vorgebucht_it, is_frei, booked_status, BookSlotInput,
}
use bahn_project_manager.Booking.{ScheduleSlot, SlotDb, SlotAnswer, BookingEnv}
use bahn_project_manager.Booking.Operations.{
  book, release, book_within, release_within, booked, released, hashed_input,
}
use bahn_project_manager.Booking.Transitions.{HasIds, book_within-Booked, release_within-Released}
use bahn_project_manager.Booking.Requests.{
  SlotRequest, book_of, release_of, perform_slot, kept_slots, serve_slots, releases, repeated, done,
  keyed_slot-Outcome,
}

-- The slot has a row that is not free.
abbrev pub IsTaken : ℕ → SlotDb → Type 0
IsTaken id s = (r : ScheduleSlot) × (get id s.slots ≡ some r) × (is_frei r.status ≡ false)

HasIds-put :
    (new : ScheduleSlot) (s t : SlotDb) → HasIds s → t.slots ≡ put new.id new s.slots → HasIds t
HasIds-put new s t ids e id r h = elim (Bool-cases (nat_beq new.id id)) [
  | inl b ↦
      let same = (nat_beq_iff new.id id).0 b in
      let k : get new.id t.slots ≡ some new = ap (get new.id) e ∙ get-put_self new.id new s.slots in
      ap (λ q. q.id) (some-injective r new (sym h ∙ ap (λ i. get i t.slots) (sym same) ∙ k)) ∙ same
  | inr b ↦
      let ne : new.id ≢ id = λ q. ground (arith, nat_beq_iff new.id id) in
      ids id r (sym (get-put_ne new.id id new s.slots ne) ∙ ap (get id) (sym e) ∙ h)
]

pub booked-taken : (t : BookedAs) → is_frei (booked_status t) ≡ false
booked-taken as_gebucht = refl
booked-taken as_vorgebucht_im = refl
booked-taken as_vorgebucht_it = refl

-- Taking one slot leaves the others taken, and takes its own.
IsTaken-put :
    (id : ℕ) (new : ScheduleSlot) (s t : SlotDb)
    → t.slots ≡ put new.id new s.slots
    → IsTaken id s
    → (new.id ≡ id → is_frei new.status ≡ false)
    → IsTaken id t
IsTaken-put id new s t e (r, held, status) now = elim (Bool-cases (nat_beq new.id id)) [
  | inl b ↦
      let same = (nat_beq_iff new.id id).0 b in
      (
        new,
        ap (λ i. get i t.slots) (sym same) ∙ ap (get new.id) e ∙ get-put_self new.id new s.slots,
        now same,
      )
  | inr b ↦
      let ne : new.id ≢ id = λ q. ground (arith, nat_beq_iff new.id id) in
      (r, ap (get id) e ∙ get-put_ne new.id id new s.slots ne ∙ held, status)
]

-- How a request that succeeds leaves the slots: as they were, or with one new row, which is not
-- free unless the request is a release of that slot.
pub data SlotsAfter (q : SlotRequest) (s t : SlotDb) : Type 0 where
  as_before : t.slots ≡ s.slots → SlotsAfter q s t
  one_row :
      (new : ScheduleSlot)
      → t.slots ≡ put new.id new s.slots
      → (releases new.id q ≡ false → is_frei new.status ≡ false)
      → SlotsAfter q s t

pub perform_slot-SlotsAfter :
    (b : BookingEnv) (q : SlotRequest) (trace : Text) (s : SlotDb) (r : SlotAnswer × SlotDb)
    → HasIds s
    → perform_slot b q trace s ≡ ok r
    → SlotsAfter q s r.1
unfolding perform_slot book release
perform_slot-SlotsAfter b (book_of p input) trace s r ids h =
    elim (keyed_slot-Outcome p.id input.key (codes "booking.book")
      (b.book_hash (hashed_input b input)) (book_within b p trace input) s r h) [
        | repeated a same ↦ as_before (ap (λ t. t.slots) same)
        | done d ran a slots ↦
            let k = book_within-Booked b p trace input _ d ids ran in
            one_row (record (booked b input k.old) { sync_version = k.old.sync_version + 1 })
              (slots ∙ k.transition.slots_eq) (λ o. booked-taken input.status)
      ]
perform_slot-SlotsAfter b (release_of p input) trace s r ids h =
    elim (keyed_slot-Outcome p.id input.key (codes "booking.release")
      (b.release_hash (record input { key = [] })) (release_within b p trace input) s r h) [
        | repeated a same ↦ as_before (ap (λ t. t.slots) same)
        | done d ran a slots ↦
            let k = release_within-Released b p trace input _ d ids ran in
            let same : k.old.id ≡ input.id = ids input.id k.old k.held in
            one_row (record (released k.old) { sync_version = k.old.sync_version + 1 })
              (slots ∙ k.transition.slots_eq)
              (λ o. absurd (ground (arith, nat_beq_iff input.id k.old.id)))
      ]

pub SlotsAfter-HasIds : (q : SlotRequest) (s t : SlotDb) → HasIds s → SlotsAfter q s t → HasIds t
SlotsAfter-HasIds q s t ids (as_before e) = λ id r h. ids id r (ap (get id) (sym e) ∙ h)
SlotsAfter-HasIds q s t ids (one_row new e k) = HasIds-put new s t ids e

SlotsAfter-IsTaken :
    (id : ℕ) (q : SlotRequest) (s t : SlotDb)
    → releases id q ≡ false
    → IsTaken id s
    → SlotsAfter q s t
    → IsTaken id t
SlotsAfter-IsTaken id q s t o (r, held, status) (as_before e) = (r, ap (get id) e ∙ held, status)
SlotsAfter-IsTaken id q s t o taken (one_row new e k) =
    IsTaken-put id new s t e taken (λ same. k (ap (λ i. releases i q) same ∙ o))

kept_slots-IsTaken :
    (b : BookingEnv) (id : ℕ) (q : SlotRequest) (trace : Text) (s : SlotDb)
    → HasIds s
    → IsTaken id s
    → releases id q ≡ false
    → let t = kept_slots s (perform_slot b q trace s) in HasIds t × IsTaken id t
kept_slots-IsTaken b id q trace s ids taken o = elim (Result-cases (perform_slot b q trace s)) [
  | inl (r, k) ↦
      let after = perform_slot-SlotsAfter b q trace s r ids k in
      rw k (SlotsAfter-HasIds q s r.1 ids after, SlotsAfter-IsTaken id q s r.1 o taken after)
  | inr (e, k) ↦ rw k (ids, taken)
]

-- A taken slot stays taken while it is not released.
serve_slots-IsTaken :
    (b : BookingEnv) (id : ℕ) (requests : List (SlotRequest × Text)) (s : SlotDb)
    → HasIds s
    → IsTaken id s
    → All (λ q. releases id (q.0) ≡ false) requests
    → HasIds (serve_slots b requests s) × IsTaken id (serve_slots b requests s)
unfolding serve_slots
serve_slots-IsTaken b id [] s ids taken h = (ids, taken)
serve_slots-IsTaken b id ((q, trace) ∷ more) s ids taken (o, h) =
    let (ids', taken') = kept_slots-IsTaken b id q trace s ids taken o in
    serve_slots-IsTaken b id more (kept_slots s (perform_slot b q trace s)) ids' taken' h

-- A booking of a taken slot succeeds only as a repetition.
taken-repeated :
    (b : BookingEnv) (p : Principal) (input : BookSlotInput) (trace : Text) (s : SlotDb)
    → (r : SlotAnswer × SlotDb) → HasIds s
    → IsTaken input.id s
    → book b p input trace s ≡ ok r
    → (r.0.replayed ≡ true) × (r.1 ≡ s)
unfolding book
taken-repeated b p input trace s r ids (row, held, status) h =
    elim (keyed_slot-Outcome p.id input.key (codes "booking.book")
      (b.book_hash (hashed_input b input)) (book_within b p trace input) s r h) [
        | repeated a same ↦ (a, same)
        | done d ran a slots ↦
            let k = book_within-Booked b p trace input _ d ids ran in
            let one = some-injective k.old row (sym k.held ∙ held) in
            absurd (cc (status, ap is_frei k.was_free, ap (λ q. is_frei q.status) one))
      ]

-- After a booking, and whatever other requests follow that do not release the slot, every booking
-- of the same slot, by anyone and with any version, is refused, unless it repeats a request that is
-- answered from its key and changes nothing.
pub book-once :
    (b : BookingEnv) (p p' : Principal) (input input' : BookSlotInput) (trace trace' : Text)
    (others : List (SlotRequest × Text)) (s : SlotDb)
    → (r r' : SlotAnswer × SlotDb) → HasIds s
    → book b p input trace s ≡ ok r
    → r.0.replayed ≡ false
    → All (λ q. releases input.id (q.0) ≡ false) others
    → input'.id ≡ input.id
    → book b p' input' trace' (serve_slots b others r.1) ≡ ok r'
    → (r'.0.replayed ≡ true) × (r'.1 ≡ serve_slots b others r.1)
unfolding book
book-once b p p' input input' trace trace' others s r r' ids first fresh quiet same second =
    elim (keyed_slot-Outcome p.id input.key (codes "booking.book")
      (b.book_hash (hashed_input b input)) (book_within b p trace input) s r first) [
        | repeated a _ ↦ absurd (cc (a, fresh))
        | done d ran a slots ↦
            let k = book_within-Booked b p trace input _ d ids ran in
            let new = record (booked b input k.old) { sync_version = k.old.sync_version + 1 } in
            let e = slots ∙ k.transition.slots_eq in
            let its = ids input.id k.old k.held in
            let taken : IsTaken input.id r.1 = (
              new,
              ap (λ i. get i r.1.slots) (sym its)
                  ∙ ap (get k.old.id) e
                  ∙ get-put_self k.old.id new s.slots,
              booked-taken input.status,
            ) in
            let (ids', later) =
              serve_slots-IsTaken b input.id others r.1 (HasIds-put new s r.1 ids e) taken quiet in
            taken-repeated b p' input' trace' (serve_slots b others r.1) r' ids'
              (subst (λ i. IsTaken i (serve_slots b others r.1)) (sym same) later) second
      ]
