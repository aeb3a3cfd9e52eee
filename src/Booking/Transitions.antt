-- ===== src/Booking/Transitions.antt =====
-- server/domain/bookingService.ts: what a booking and a release that succeed were allowed by, and
-- what they change.
use bahn_project_manager.Prelude.{
  ℕ, ◌+◌, ◌≡◌, refl, sym, ap, ◌∙◌, Bool, true, false, not, ◌||◌, inl, inr, Option, some, List, none,
  if◌then◌else◌, arith, get, put, nat_eq, nat_beq, nat_beq_iff, Text, Option-cases, get-put_self,
}
use bahn_project_manager.Event.{DomainEvent, Changes}
use bahn_project_manager.Permissions.{
  Principal, is_admin_role, is_viewer_role, can_view_project, can_edit_project,
}
use bahn_project_manager.Service.{workspace_of}
use bahn_project_manager.Store.{
  ProjectRow, lock_project, ok, err, not_found, forbidden, append_event, append_audit,
}
use bahn_project_manager.Store.Log.{bind-ok, ok-injective, err-ne-ok, guard-ok, append_event-ok}
use bahn_project_manager.Booking.Contract.{
  SlotStatus, frei, gebucht, vorgebucht_im, vorgebucht_it, is_frei, booked_status, SlotDto,
  BookSlotInput, ReleaseSlotInput,
}
use bahn_project_manager.Booking.{
  ScheduleSlot, SlotDb, BookingEnv, clean, view, lock_slot, update_slot_versioned, slot_fields,
  slot_diff, written_slot,
}
use bahn_project_manager.Booking.Logged.{logged_db, Logged, Logged-of}
use bahn_project_manager.Booking.Operations.{
  slot_event, slot_audit, log_transition, finish, booked, released, book_slot, book_within,
  release_slot, release_within, booking_workspace, link_ok, after_book, book_conflict, book_found,
  release_found, release_conflict,
}

-- A transition of one slot, from the row `old` to `new`: nothing but the slot changes, its version
-- is the next one, the logs get what belongs to it, and the caller sees the new row.
pub record Transition (b : BookingEnv) (p : Principal) (trace : Text) (workspace : Option Text)
    (old new : ScheduleSlot) (s : SlotDb) (r : (SlotDto × DomainEvent) × SlotDb) : Type 0 where
  pub slots_eq : r.1.slots ≡ put old.id new s.slots
  pub keys_eq : r.1.keys ≡ s.keys
  pub event_eq :
      r.0.1
      ≡ slot_event b p trace old.id
          (old.sync_version + 1)
          (slot_diff (slot_fields b old) (slot_fields b new))
          workspace
          s.db.issued
  pub db_eq : r.1.db ≡ logged_db b p (r.0.1) s.db
  pub logged : Logged b p workspace old new r.0.1 s.db r.1.db
  pub shown : r.0.0 ≡ view b p new
  pub next_version : new.sync_version ≡ old.sync_version + 1

log_transition-ok :
    (b : BookingEnv) (p : Principal) (trace : Text) (cur : ScheduleSlot) (changes : Changes)
    (workspace : Option Text) (s : SlotDb) (q : DomainEvent × SlotDb)
    → log_transition b p trace cur changes workspace s ≡ ok q
    → (q.0 ≡ slot_event b p trace cur.id (cur.sync_version + 1) changes workspace s.db.issued)
      × (q.1 ≡ record s { db = logged_db b p (q.0) s.db })
unfolding log_transition append_audit slot_event
log_transition-ok b p trace cur changes workspace s q h =
    let e = slot_event b p trace cur.id (cur.sync_version + 1) changes workspace s.db.issued in
    let start =
      append_audit (slot_audit b p e changes) (record (s.db) { issued = s.db.issued + 1 }) in
    let (db', appended, done) = bind-ok (append_event b.env.rt e start) _ q h in
    let same = ok-injective _ q done in
    (
      ap (λ t. t.0) (sym same),
      rw (← same) (ap (λ d. record s { db = d }) (append_event-ok b.env.rt e start db' appended)),
    )

-- The end of a transition whose row is written already.
finish-Transition :
    (b : BookingEnv) (p : Principal) (trace : Text) (workspace : Option Text)
    (old set new : ScheduleSlot) (s : SlotDb) (r : (SlotDto × DomainEvent) × SlotDb)
    → slot_fields b new ≡ slot_fields b set
    → new.sync_version ≡ old.sync_version + 1
    → finish b p trace old set workspace (record s { slots = put old.id new s.slots }) ≡ ok r
    → Transition b p trace workspace old new s r
unfolding finish lock_slot
finish-Transition b p trace workspace old set new s r same v h =
    let written = record s { slots = put old.id new s.slots } in
    let changes = slot_diff (slot_fields b old) (slot_fields b set) in
    let as_event = λ (fields : List (Text × Option Text)).
      slot_event b p trace old.id (old.sync_version + 1) (slot_diff (slot_fields b old) fields)
        workspace s.db.issued in
    let (q, step, rest) = bind-ok (log_transition b p trace old changes workspace written) _ r h in
    let (is_e, is_logged) = log_transition-ok b p trace old changes workspace written q step in
    let found : get old.id q.1.slots ≡ some new =
      ap (λ t. get old.id t.slots) is_logged ∙ get-put_self old.id new s.slots in
    let answer = ok-injective _ r (rw found at rest) in
    let event_eq = ap (λ t. t.0.1) (sym answer) ∙ is_e ∙ ap as_event (sym same) in
    let db_eq =
      ap (λ t. t.1.db) (sym answer)
      ∙ ap (λ t. t.db) is_logged
      ∙ ap (λ t. logged_db b p (t.0.1) s.db) answer in
    record {
      slots_eq = ap (λ t. t.1.slots) (sym answer) ∙ ap (λ t. t.slots) is_logged;
      keys_eq = ap (λ t. t.1.keys) (sym answer) ∙ ap (λ t. t.keys) is_logged;
      event_eq = event_eq;
      db_eq = db_eq;
      logged = Logged-of b p trace workspace old new s.db.issued s.db r.1.db r.0.1 event_eq db_eq;
      shown = ap (λ t. t.0.0) (sym answer);
      next_version = v;
    }

-- A slot is stored under its id.
abbrev pub HasIds : SlotDb → Type 0
HasIds s = (id : ℕ) (r : ScheduleSlot) → get id s.slots ≡ some r → r.id ≡ id

update_slot-held :
    (old : ScheduleSlot) (set : ScheduleSlot → ScheduleSlot) (s : SlotDb)
    → get old.id s.slots ≡ some old
    → update_slot_versioned old.id old.sync_version set s ≡ (
      record s {
        slots = put old.id (record (set old) { sync_version = old.sync_version + 1 }) s.slots;
      },
      true,
    )
unfolding update_slot_versioned
update_slot-held old set s h =
    ap (written_slot old.id old.sync_version set s) h
    ∙ rw ((nat_beq_iff old.sync_version old.sync_version).1 refl)

-- The workspace of the station of a booking.
abbrev pub workspace_at : BookingEnv → BookSlotInput → Option Text
workspace_at b input = elim (clean b input.station) [ none ↦ none | some station ↦ b.geo station ]

-- A slot that is booked, and one that is empty and free, at the next version of `r`.
abbrev pub taken_slot : BookingEnv → BookSlotInput → ScheduleSlot → ScheduleSlot
taken_slot b input r = record {
  id = r.id;
  slot_key = r.slot_key;
  datum = r.datum;
  von = r.von;
  bis = r.bis;
  status = booked_status input.status;
  details = record {
    station = clean b input.station;
    bahnhofsmanagement = workspace_at b input;
    projektleitung = clean b input.projektleitung;
    projektstand = clean b input.projektstand;
    info = clean b input.info;
    hinweis = clean b input.hinweis;
    project_id = input.project_id;
  };
  checklist_id = r.checklist_id;
  sync_version = r.sync_version + 1;
}

abbrev pub empty_slot : ScheduleSlot → ScheduleSlot
empty_slot r = record {
  id = r.id;
  slot_key = r.slot_key;
  datum = r.datum;
  von = r.von;
  bis = r.bis;
  status = frei;
  details = record {
    station = none;
    bahnhofsmanagement = none;
    projektleitung = none;
    projektstand = none;
    info = none;
    hinweis = none;
    project_id = none;
  };
  checklist_id = none;
  sync_version = r.sync_version + 1;
}

-- A booking is linked to no project, or to one that the principal may see.
abbrev pub MayLink : BookingEnv → Principal → Option ℕ → SlotDb → Type 0
MayLink b p none s = Unit
MayLink b p (some id) s =
    (row : ProjectRow) × (lock_project id s.db ≡ some row)
    × (can_view_project b.env.rt p (workspace_of row) ≡ true)

link_ok-MayLink :
    (b : BookingEnv) (p : Principal) (o : Option ℕ) (s : SlotDb)
    → link_ok b p o s ≡ true
    → MayLink b p o s
link_ok-MayLink b p none s h = tt
link_ok-MayLink b p (some id) s h = elim (Option-cases (lock_project id s.db)) [
  | inl n ↦ absurd (cc (rw n at h))
  | inr (row, held) ↦ (row, held, rw held at h)
]

-- A booking that succeeds: who made it, the free slot that it took, and the transition.
pub record Booked (b : BookingEnv) (p : Principal) (trace : Text) (input : BookSlotInput)
    (s : SlotDb) (r : (SlotDto × DomainEvent) × SlotDb) : Type 0 where
  pub old : ScheduleSlot
  pub held : get input.id s.slots ≡ some old
  pub was_free : old.status ≡ frei
  pub up_to_date : old.sync_version ≡ input.expected_version
  pub may_write : is_viewer_role p.role ≡ false
  pub may_edit : can_edit_project b.env.rt p (workspace_at b input) ≡ true
  pub may_link : MayLink b p input.project_id s
  pub transition : Transition b p trace (workspace_at b input) old (taken_slot b input old) s r

frei-is_frei : (t : SlotStatus) → is_frei t ≡ true → t ≡ frei
frei-is_frei frei h = refl
frei-is_frei gebucht h = absurd (ground arith)
frei-is_frei vorgebucht_im h = absurd (ground arith)
frei-is_frei vorgebucht_it h = absurd (ground arith)

pub not-false : (t : Bool) → not t ≡ false → t ≡ true
not-false true h = refl
not-false false h = sym h

or-false : (t u : Bool) → (t || u) ≡ false → (t ≡ false) × (u ≡ false)
or-false true u h = absurd (ground arith)
or-false false u h = (refl, h)

-- What the guards of a booking let through.
book_slot-ok :
    (b : BookingEnv) (p : Principal) (trace : Text) (input : BookSlotInput) (old : ScheduleSlot)
    (s : SlotDb) (r : (SlotDto × DomainEvent) × SlotDb)
    → get old.id s.slots ≡ some old
    → book_slot b p trace input old s ≡ ok r
    → (old.status ≡ frei)
      × (old.sync_version ≡ input.expected_version)
      × Transition b p trace (workspace_at b input) old (taken_slot b input old) s r
unfolding book_slot slot_fields booking_workspace
book_slot-ok b p trace input old s r held h =
    let set = booked b input in
    let (guards, rest) =
      guard-ok (not (nat_beq old.sync_version input.expected_version) || not (is_frei old.status))
        (book_conflict b p input old)
        (after_book b p trace input old (update_slot_versioned old.id old.sync_version set s)) r
        h in
    let (version, status) = or-false _ _ guards in
    let written =
      ap (after_book b p trace input old) (sym (update_slot-held old set s held)) ∙ rest in
    (
      frei-is_frei old.status (not-false _ status),
      (nat_beq_iff old.sync_version input.expected_version).0 (not-false _ version),
      finish-Transition b p trace (booking_workspace b (clean b input.station)) old
          (booked b input old) (taken_slot b input old) s r refl refl written,
    )

-- A booking that succeeds was made by a writer who may edit the workspace of the station and see the
-- linked project, against the current version of a free slot. It changes that slot alone, to its next
-- version with the details asked for, and leaves one event of it, whose changes are the columns that
-- differ with their values, and an audit row for each of these changes, or one without a field if
-- there are none.
pub book_within-Booked :
    (b : BookingEnv) (p : Principal) (trace : Text) (input : BookSlotInput) (s : SlotDb)
    → (r : (SlotDto × DomainEvent) × SlotDb) → HasIds s
    → book_within b p trace input s ≡ ok r
    → Booked b p trace input s r
unfolding book_within lock_slot booking_workspace
book_within-Booked b p trace input s r ids h =
    let found = book_found b p trace input (get input.id s.slots) s in
    let workspace = booking_workspace b (clean b input.station) in
    let linked = link_ok b p input.project_id s in
    let (writer, h1) = guard-ok (is_viewer_role p.role) forbidden _ r h in
    let (edit, h2) =
      guard-ok (not (can_edit_project b.env.rt p workspace)) forbidden
        (if not linked then err not_found else found) r h1 in
    let (link, h3) = guard-ok (not linked) not_found found r h2 in
    elim (Option-cases (get input.id s.slots)) [
      | inl n ↦ absurd (err-ne-ok _ r (rw n at h3))
      | inr (old, held) ↦
          let same = ids input.id old held in
          let done =
            book_slot-ok b p trace input old s r (ap (λ i. get i s.slots) same ∙ held)
              (ap (λ o. book_found b p trace input o s) (sym held) ∙ h3) in
          record {
            old = old;
            held = held;
            was_free = done.0;
            up_to_date = done.1;
            may_write = writer;
            may_edit = not-false _ edit;
            may_link = link_ok-MayLink b p input.project_id s (not-false _ link);
            transition = done.2;
          }
    ]

-- A release that succeeds: who made it, and the transition to an empty free slot.
pub record Released (b : BookingEnv) (p : Principal) (trace : Text) (input : ReleaseSlotInput)
    (s : SlotDb) (r : (SlotDto × DomainEvent) × SlotDb) : Type 0 where
  pub old : ScheduleSlot
  pub held : get input.id s.slots ≡ some old
  pub up_to_date : old.sync_version ≡ input.expected_version
  pub may_write : is_viewer_role p.role ≡ false
  pub may_edit :
      (is_admin_role p.role || can_edit_project b.env.rt p old.details.bahnhofsmanagement) ≡ true
  pub transition : Transition b p trace old.details.bahnhofsmanagement old (empty_slot old) s r

release_slot-Released :
    (b : BookingEnv) (p : Principal) (trace : Text) (input : ReleaseSlotInput) (old : ScheduleSlot)
    (s : SlotDb) (r : (SlotDto × DomainEvent) × SlotDb)
    → get input.id s.slots ≡ some old
    → get old.id s.slots ≡ some old
    → release_slot b p trace input old s ≡ ok r
    → Released b p trace input s r
unfolding release_slot slot_fields
release_slot-Released b p trace input old s r held held' h =
    let workspace = old.details.bahnhofsmanagement in
    let may = is_admin_role p.role || can_edit_project b.env.rt p workspace in
    let done = finish b p trace old (released old) workspace in
    let after = update_slot_versioned old.id old.sync_version released s in
    let fresh = nat_beq old.sync_version input.expected_version in
    let (guards, h1) =
      guard-ok (is_viewer_role p.role || not may) forbidden
        (if not fresh then err (release_conflict b p input old) else done after.0) r h in
    let (version, h2) = guard-ok (not fresh) (release_conflict b p input old) (done after.0) r h1 in
    let (writer, edit) = or-false _ _ guards in
    record {
      old = old;
      held = held;
      up_to_date = (nat_beq_iff old.sync_version input.expected_version).0 (not-false _ version);
      may_write = writer;
      may_edit = not-false _ edit;
      transition =
          finish-Transition b p trace workspace old (released old) (empty_slot old) s r refl refl
            (ap (λ t. done (t.0)) (sym (update_slot-held old released s held')) ∙ h2);
    }

-- A release that succeeds was made by a writer who is an admin or may edit the workspace of the
-- booking, against the current version of the slot. It changes that slot alone, to an empty free one
-- of the next version, and leaves one event of it, whose changes are the columns that differ with
-- their values, and an audit row for each of these changes, or one without a field if there are none.
pub release_within-Released :
    (b : BookingEnv) (p : Principal) (trace : Text) (input : ReleaseSlotInput) (s : SlotDb)
    → (r : (SlotDto × DomainEvent) × SlotDb) → HasIds s
    → release_within b p trace input s ≡ ok r
    → Released b p trace input s r
unfolding release_within lock_slot
release_within-Released b p trace input s r ids h = elim (Option-cases (get input.id s.slots)) [
  | inl n ↦ absurd (err-ne-ok _ r (ap (λ o. release_found b p trace input o s) (sym n) ∙ h))
  | inr (old, held) ↦
      release_slot-Released b p trace input old s r held
        (ap (λ i. get i s.slots) (ids input.id old held) ∙ held)
        (ap (λ o. release_found b p trace input o s) (sym held) ∙ h)
]
