-- ===== src/Booking/Agenda.antt =====
-- server/domain/bookingService.ts against its abstract specification: an agenda that says of each slot
-- its version and, when it is taken, by what. A request takes one free slot, frees one, or does nothing.
use bahn_project_manager.Prelude.{
  ℕ, ◌+◌, ◌≡◌, ◌≢◌, refl, sym, ap, ◌∙◌, inl, inr, Option, none, some, List, [], ◌∷◌, if◌then◌else◌,
  get, put, nat_eq, Text, codes, get-put_self, get-put_ne,
}
use bahn_project_manager.Permissions.{Principal}
use bahn_project_manager.Store.{ok}
use bahn_project_manager.Store.Log.{Result-cases}
use bahn_project_manager.Booking.Contract.{
  SlotStatus, is_frei, booked_status, BookSlotInput, ReleaseSlotInput,
}
use bahn_project_manager.Booking.{ScheduleSlot, SlotDetails, SlotDb, SlotAnswer, BookingEnv}
use bahn_project_manager.Booking.Operations.{
  book, release, book_within, release_within, booked, released, hashed_input,
}
use bahn_project_manager.Booking.Transitions.{HasIds, book_within-Booked, release_within-Released}
use bahn_project_manager.Booking.Requests.{
  SlotRequest, book_of, release_of, perform_slot, kept_slots, serve_slots, repeated, done,
  keyed_slot-Outcome,
}
use bahn_project_manager.Booking.Taken.{perform_slot-SlotsAfter, SlotsAfter-HasIds, booked-taken}

pub record Entry : Type 0 where
  pub version : ℕ
  pub taken_by : Option (SlotStatus × SlotDetails)

abbrev pub Agenda : Type 0
Agenda = ℕ → Option Entry

abbrev pub entry : ℕ → Option (SlotStatus × SlotDetails) → Entry
entry v what = record { version = v; taken_by = what }

abbrev pub entry_of : Option ScheduleSlot → Option Entry
entry_of none = none
entry_of (some r) =
    some (entry r.sync_version (if is_frei r.status then none else some (r.status, r.details)))

-- The agenda that the rows of the slots stand for.
abbrev pub agenda : SlotDb → Agenda
agenda s id = entry_of (get id s.slots)

abbrev pub SameBut : ℕ → Agenda → Agenda → Type 0
SameBut id a b = (j : ℕ) → id ≢ j → b j ≡ a j

-- What a request may do to an agenda.
pub data AgendaStep (a b : Agenda) : SlotRequest → Type 0 where
  stays : (q : SlotRequest) → ((j : ℕ) → b j ≡ a j) → AgendaStep a b q
  takes :
      (p : Principal) (input : BookSlotInput) (details : SlotDetails)
      → a input.id ≡ some (entry input.expected_version none)
      → b input.id
        ≡ some (entry (input.expected_version + 1) (some (booked_status input.status, details)))
      → SameBut input.id a b
      → AgendaStep a b (book_of p input)
  frees :
      (p : Principal) (input : ReleaseSlotInput) (what : Option (SlotStatus × SlotDetails))
      → a input.id ≡ some (entry input.expected_version what)
      → b input.id ≡ some (entry (input.expected_version + 1) none)
      → SameBut input.id a b
      → AgendaStep a b (release_of p input)

pub data AgendaRun : Agenda → Agenda → List (SlotRequest × Text) → Type 0 where
  ended : (a : Agenda) → AgendaRun a a []
  step :
      (a m b : Agenda) (q : SlotRequest) (trace : Text) (more : List (SlotRequest × Text))
      → AgendaStep a m q
      → AgendaRun m b more
      → AgendaRun a b ((q, trace) ∷ more)

-- A row that is put in its place, as the agenda shows it.
agenda-put :
    (id : ℕ) (new : ScheduleSlot) (s t : SlotDb) (k : ℕ)
    → k ≡ id
    → t.slots ≡ put k new s.slots
    → (agenda t id ≡ entry_of (some new)) × SameBut id (agenda s) (agenda t)
agenda-put id new s t k same e = (
  ap (λ m. entry_of (get id m)) e
      ∙ ap (λ i. entry_of (get i (put k new s.slots))) (sym same)
      ∙ ap entry_of (get-put_self k new s.slots),
  λ j ne.
      ap (λ m. entry_of (get j m)) e
      ∙ ap entry_of (get-put_ne k j new s.slots (λ q. ne (sym same ∙ q))),
)

pub perform_slot-AgendaStep :
    (b : BookingEnv) (q : SlotRequest) (trace : Text) (s : SlotDb) (r : SlotAnswer × SlotDb)
    → HasIds s
    → perform_slot b q trace s ≡ ok r
    → AgendaStep (agenda s) (agenda r.1) q
unfolding perform_slot book release
perform_slot-AgendaStep b (book_of p input) trace s r ids h =
    elim (keyed_slot-Outcome p.id input.key (codes "booking.book")
      (b.book_hash (hashed_input b input)) (book_within b p trace input) s r h) [
        | repeated a same ↦ stays _ (λ j. ap (λ t. agenda t j) same)
        | done d ran a slots ↦
            let k = book_within-Booked b p trace input _ d ids ran in
            let new = record (booked b input k.old) { sync_version = k.old.sync_version + 1 } in
            let (now, others) =
              agenda-put input.id new s r.1 k.old.id (ids input.id k.old k.held)
                (slots ∙ k.transition.slots_eq) in
            takes p input new.details
              (ap entry_of k.held
                ∙ ap
                    (λ f. some (
                      entry k.old.sync_version
                        (if f then none else some (k.old.status, k.old.details))))
                    (ap is_frei k.was_free)
                ∙ ap (λ v. some (entry v none)) k.up_to_date)
              (now
                ∙ ap
                    (λ f.
                      some (
                        entry new.sync_version
                          (if f then none else some (new.status, new.details))))
                    (booked-taken input.status)
                ∙ ap (λ v. some (entry (v + 1) (some (new.status, new.details)))) k.up_to_date)
              others
      ]
perform_slot-AgendaStep b (release_of p input) trace s r ids h =
    elim (keyed_slot-Outcome p.id input.key (codes "booking.release")
      (b.release_hash (record input { key = [] })) (release_within b p trace input) s r h) [
        | repeated a same ↦ stays _ (λ j. ap (λ t. agenda t j) same)
        | done d ran a slots ↦
            let k = release_within-Released b p trace input _ d ids ran in
            let new = record (released k.old) { sync_version = k.old.sync_version + 1 } in
            let (now, others) =
              agenda-put input.id new s r.1 k.old.id (ids input.id k.old k.held)
                (slots ∙ k.transition.slots_eq) in
            let what = if is_frei k.old.status then none else some (k.old.status, k.old.details) in
            frees p input what (ap entry_of k.held ∙ ap (λ v. some (entry v what)) k.up_to_date)
              (now ∙ ap (λ v. some (entry (v + 1) none)) k.up_to_date) others
      ]

kept_slots-AgendaStep :
    (b : BookingEnv) (q : SlotRequest) (trace : Text) (s : SlotDb)
    → HasIds s
    → let t = kept_slots s (perform_slot b q trace s) in
      HasIds t × AgendaStep (agenda s) (agenda t) q
kept_slots-AgendaStep b q trace s ids = elim (Result-cases (perform_slot b q trace s)) [
  | inl (r, h) ↦ rw h (
    SlotsAfter-HasIds q s r.1 ids (perform_slot-SlotsAfter b q trace s r ids h),
    perform_slot-AgendaStep b q trace s r ids h,
  )
  | inr (e, h) ↦ rw h (ids, stays q (λ j. refl))
]

-- Whatever bookings and releases are asked for, and whichever of them are refused or repeated, the
-- rows of the slots go through a run of the agenda with the same requests.
pub serve_slots-AgendaRun :
    (b : BookingEnv) (requests : List (SlotRequest × Text)) (s : SlotDb)
    → HasIds s
    → AgendaRun (agenda s) (agenda (serve_slots b requests s)) requests
unfolding serve_slots
serve_slots-AgendaRun b [] s ids = ended (agenda s)
serve_slots-AgendaRun b ((q, trace) ∷ more) s ids =
    let t = kept_slots s (perform_slot b q trace s) in
    let (ids', one) = kept_slots-AgendaStep b q trace s ids in
    step (agenda s) (agenda t) _ q trace more one (serve_slots-AgendaRun b more t ids')
