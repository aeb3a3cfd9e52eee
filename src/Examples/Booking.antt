-- ===== src/Examples/Booking.antt =====
-- A slot that is booked, and a second booking that repeats the first.
use bahn_project_manager.Prelude.{
  ◌≡◌, refl, sym, ◌∙◌, ap, true, false, ◌||◌, none, some, [], ◌∷◌, get, nat_eq, codes, Bool-cases,
  inl, inr, nat_beq, nat_beq_iff, some-injective,
}
use bahn_project_manager.Event.{DomainEvent}
use bahn_project_manager.Event.Slug.{slugify}
use bahn_project_manager.Permissions.{can_edit_project, can_view_project}
use bahn_project_manager.Store.{Result, ok, err, key_eq}
use bahn_project_manager.Booking.Contract.{
  frei, is_frei, as_gebucht, BookSlotInput, ReleaseSlotInput, SlotDto,
}
use bahn_project_manager.Booking.{ScheduleSlot, SlotDetails, SlotDb, SlotAnswer, BookingEnv, view}
use bahn_project_manager.Booking.Operations.{book, book_within, release_within}
use bahn_project_manager.Booking.Transitions.{
  HasIds, Booked, Released, book_within-Booked, release_within-Released,
}
use bahn_project_manager.Booking.Requests.{book_of, serve_slots}
use bahn_project_manager.Booking.Agenda.{agenda, AgendaRun, serve_slots-AgendaRun}
use bahn_project_manager.Booking.Taken.{book-once}
use bahn_project_manager.Booking.Views.{view_details, ShowsDetails, HidesDetails}
use bahn_project_manager.Examples.{anna, bert, chief, ulm, in_ulm}
use bahn_project_manager.Examples.Writes.{plain_env, tables}

abbrev booking_env : BookingEnv
booking_env = record {
  env = plain_env;
  geo = λ station. ulm;
  day = λ datum. datum;
  book_hash = λ input. input.key;
  release_hash = λ input. input.key;
}

abbrev no_details : SlotDetails
no_details = record {
  station = none;
  bahnhofsmanagement = none;
  projektleitung = none;
  projektstand = none;
  info = none;
  hinweis = none;
  project_id = none;
}

abbrev free_slot : ScheduleSlot
free_slot = record {
  id = 4;
  slot_key = codes "2024-06-04T09:00";
  datum = codes "2024-06-04";
  von = codes "09:00";
  bis = codes "10:00";
  status = frei;
  details = no_details;
  checklist_id = none;
  sync_version = 1;
}

abbrev slots : SlotDb
slots = record { slots = (4, free_slot) ∷ []; keys = []; db = tables }

slots-HasIds : HasIds slots
unfolding get
slots-HasIds id r h = elim (Bool-cases (nat_beq 4 id)) [
  | inl b ↦ ap (λ q. q.id) (some-injective r free_slot (sym (rw b at h))) ∙ (nat_beq_iff 4 id).0 b
  | inr b ↦ absurd (cc (rw b at h))
]

abbrev ulm_hbf : BookSlotInput
ulm_hbf = record {
  id = 4;
  expected_version = 1;
  status = as_gebucht;
  station = some (codes "Ulm Hbf");
  projektleitung = none;
  projektstand = none;
  info = none;
  hinweis = none;
  project_id = some 1;
  key = codes "b1";
}

abbrev or_slots : Result (SlotAnswer × SlotDb) → SlotAnswer × SlotDb
or_slots (ok r) = r
or_slots (err e) = (record { slot = none; event_id = none; replayed = true }, slots)

abbrev booked_once : SlotAnswer × SlotDb
booked_once = or_slots (book booking_env anna ulm_hbf (codes "x") slots)

booked_ok : book booking_env anna ulm_hbf (codes "x") slots ≡ ok booked_once
unfolding book book_within slugify can_edit_project
booked_ok = refl

booked_fresh : booked_once.0.replayed ≡ false
unfolding book book_within slugify can_edit_project
booked_fresh = refl

abbrev repeated_answer : SlotAnswer × SlotDb
repeated_answer = or_slots (book booking_env anna ulm_hbf (codes "y") booked_once.1)

repeated_ok :
    book booking_env anna ulm_hbf (codes "y") (serve_slots booking_env [] booked_once.1)
    ≡ ok repeated_answer
unfolding book book_within slugify serve_slots can_edit_project
repeated_ok = refl

book-once_example :
    (repeated_answer.0.replayed ≡ true)
    × (repeated_answer.1 ≡ serve_slots booking_env [] booked_once.1)
book-once_example =
    book-once booking_env anna anna ulm_hbf ulm_hbf (codes "x") (codes "y") [] slots booked_once
      repeated_answer slots-HasIds booked_ok booked_fresh tt refl repeated_ok

view_details_example :
    ((view booking_env bert free_slot).status ≡ frei)
    × ((view booking_env bert free_slot).version ≡ 1)
    × ((is_frei frei || can_view_project plain_env.rt bert none) ≡ true
        → ShowsDetails no_details (view booking_env bert free_slot))
    × ((is_frei frei || can_view_project plain_env.rt bert none) ≡ false
        → HidesDetails (view booking_env bert free_slot))
view_details_example = view_details booking_env bert free_slot

abbrev or_first : Result ((SlotDto × DomainEvent) × SlotDb) → (SlotDto × DomainEvent) × SlotDb
or_first (ok r) = r
or_first (err e) = ((view booking_env anna free_slot, in_ulm), slots)

abbrev booked_within : (SlotDto × DomainEvent) × SlotDb
booked_within = or_first (book_within booking_env anna (codes "x") ulm_hbf slots)

booked_within_ok : book_within booking_env anna (codes "x") ulm_hbf slots ≡ ok booked_within
unfolding book_within slugify can_edit_project
booked_within_ok = refl

book_within-Booked_example : Booked booking_env anna (codes "x") ulm_hbf slots booked_within
book_within-Booked_example =
    book_within-Booked booking_env anna (codes "x") ulm_hbf slots booked_within slots-HasIds
      booked_within_ok

abbrev freed : ReleaseSlotInput
freed = record { id = 4; expected_version = 1; key = codes "b2" }

abbrev released_within : (SlotDto × DomainEvent) × SlotDb
released_within = or_first (release_within booking_env chief (codes "x") freed slots)

released_within_ok : release_within booking_env chief (codes "x") freed slots ≡ ok released_within
unfolding release_within slugify can_edit_project
released_within_ok = refl

release_within-Released_example : Released booking_env chief (codes "x") freed slots released_within
release_within-Released_example =
    release_within-Released booking_env chief (codes "x") freed slots released_within slots-HasIds
      released_within_ok

serve_slots-AgendaRun_example :
    AgendaRun
      (agenda slots)
      (agenda (serve_slots booking_env ((book_of anna ulm_hbf, codes "x") ∷ []) slots))
      ((book_of anna ulm_hbf, codes "x") ∷ [])
serve_slots-AgendaRun_example =
    serve_slots-AgendaRun booking_env ((book_of anna ulm_hbf, codes "x") ∷ []) slots slots-HasIds
