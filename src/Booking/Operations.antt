-- ===== src/Booking/Operations.antt =====
-- server/domain/bookingService.ts: `book` and `release`, each one transaction that returns its
-- answer with the new tables, or an error.
use bahn_project_manager.Prelude.{
  ℕ, ◌+◌, Bool, true, false, not, ◌||◌, Option, none, some, List, [], ◌∷◌, map, if◌then◌else◌, get,
  put, nat_beq, Text, text_beq, codes,
}
use bahn_project_manager.Event.{DomainEvent, booking, booking_updated, Changes}
use bahn_project_manager.Permissions.{
  Principal, is_admin_role, is_viewer_role, can_view_project, can_edit_project,
}
use bahn_project_manager.Store.{
  ProjectRow, AuditRow, booking_entity, update, Error, Result, ok, err, ◌>>=◌, not_found, forbidden,
  idempotency_key_reuse, lost_lock, aggregate_conflict, append_event, append_audit, key_eq,
  lock_project,
}
use bahn_project_manager.Service.{actor_numeric_id, user_name, workspace_of}
use bahn_project_manager.Booking.Contract.{
  frei, is_frei, booked_status, SlotDto, BookSlotInput, ReleaseSlotInput, AggregateConflict,
  of_booking, ConflictReason, stale, slot_taken,
}
use bahn_project_manager.Booking.{
  ScheduleSlot, SlotAnswer, SlotKeyRow, SlotDb, BookingEnv, clean, view, lock_slot,
  update_slot_versioned, slot_fields, slot_diff,
}

-- The event of a transition.
unfoldable pub slot_event :
    BookingEnv → Principal → Text → ℕ → ℕ → Changes → Option Text → ℕ → DomainEvent
slot_event b p trace id version changes workspace drawn = record {
  event_id = b.env.uuid drawn;
  feed_seq = none;
  event_type = booking_updated;
  aggregate_type = booking;
  aggregate_id = b.env.rt.string_of id;
  aggregate_version = version;
  actor_id = p.id;
  actor_name = p.name;
  timestamp = b.env.now;
  trace_id = trace;
  changes = changes;
  context = record { workspace = workspace; workspace_before = none; recipient = none };
}

abbrev slot_audit_row : BookingEnv → Principal → DomainEvent → AuditRow
slot_audit_row b p e = record {
  user_id = actor_numeric_id b.env p;
  user_name = user_name p;
  entity = booking_entity;
  entity_id = b.env.rt.number_of e.aggregate_id;
  action = update;
  field = none;
  old_value = none;
  new_value = none;
  event_id = e.event_id;
  aggregate_version = some e.aggregate_version;
  trace_id = e.trace_id;
  workspace = e.context.workspace;
  entity_label = none;
}

-- `audit`: a row for each change, or one without a field.
unfoldable pub slot_audit : BookingEnv → Principal → DomainEvent → Changes → List AuditRow
slot_audit b p e [] = slot_audit_row b p e ∷ []
slot_audit b p e (c ∷ cs) =
    map
      (λ d. record (slot_audit_row b p e) {
        field = some d.0;
        old_value = d.1.from;
        new_value = d.1.to;
      })
      (c ∷ cs)

-- A transition leaves its audit rows and its event.
unfoldable pub log_transition :
    BookingEnv
    → Principal
    → Text
    → ScheduleSlot
    → Changes
    → Option Text
    → SlotDb
    → Result (DomainEvent × SlotDb)
unfolding slot_event slot_audit append_audit append_event
log_transition b p trace cur changes workspace s = do
  let e = slot_event b p trace cur.id (cur.sync_version + 1) changes workspace s.db.issued
  logged ←
      append_event b.env.rt e
        (append_audit (slot_audit b p e changes) (record (s.db) { issued = s.db.issued + 1 }))
  ok (e, record s { db = logged })

-- The row that the transaction holds, as its caller sees it.
abbrev pub seen_slot : BookingEnv → Principal → Option ScheduleSlot → Result SlotDto
seen_slot b p none = err lost_lock
seen_slot b p (some r) = ok (view b p r)

-- The workspace that owns a booking: that of its station.
unfoldable pub booking_workspace : BookingEnv → Option Text → Option Text
booking_workspace b none = none
booking_workspace b (some station) = b.geo station

-- The columns that a booking sets.
abbrev pub booked : BookingEnv → BookSlotInput → ScheduleSlot → ScheduleSlot
booked b input r = record r {
  status = booked_status input.status;
  details = record {
    station = clean b input.station;
    bahnhofsmanagement = booking_workspace b (clean b input.station);
    projektleitung = clean b input.projektleitung;
    projektstand = clean b input.projektstand;
    info = clean b input.info;
    hinweis = clean b input.hinweis;
    project_id = input.project_id;
  };
}

abbrev pub conflict_at : ScheduleSlot → ℕ → ℕ → Option SlotDto → ConflictReason → AggregateConflict
conflict_at cur expected current_version current reason = record {
  aggregate = of_booking;
  id = cur.id;
  expected_version = expected;
  current_version = current_version;
  current = current;
  reason = reason;
}

-- The new row, its audit rows and its event, and the answer.
unfoldable pub finish :
    BookingEnv
    → Principal
    → Text
    → ScheduleSlot
    → ScheduleSlot
    → Option Text
    → SlotDb
    → Result ((SlotDto × DomainEvent) × SlotDb)
unfolding log_transition slot_fields slot_diff lock_slot view
finish b p trace cur set workspace s = do
  (e, logged) ←
      log_transition b p trace cur (slot_diff (slot_fields b cur) (slot_fields b set)) workspace s
  slot ← seen_slot b p (lock_slot cur.id logged)
  ok ((slot, e), logged)

abbrev pub after_book :
    BookingEnv
    → Principal
    → Text
    → BookSlotInput
    → ScheduleSlot
    → SlotDb × Bool
    → Result ((SlotDto × DomainEvent) × SlotDb)
after_book b p trace input cur (s, true) =
    finish b p trace cur (booked b input cur) (booking_workspace b (clean b input.station)) s
after_book b p trace input cur (s, false) =
    err (
      aggregate_conflict (conflict_at cur input.expected_version (cur.sync_version + 1) none stale))

abbrev pub book_conflict : BookingEnv → Principal → BookSlotInput → ScheduleSlot → Error
book_conflict b p input cur = aggregate_conflict (
    conflict_at cur input.expected_version cur.sync_version (some (view b p cur))
      (if not (is_frei cur.status) then slot_taken else stale))

-- A slot that is free at the version named is booked.
unfoldable pub book_slot :
    BookingEnv
    → Principal
    → Text
    → BookSlotInput
    → ScheduleSlot
    → SlotDb
    → Result ((SlotDto × DomainEvent) × SlotDb)
unfolding update_slot_versioned finish booking_workspace clean view
book_slot b p trace input cur s =
    if not (nat_beq cur.sync_version input.expected_version) || not (is_frei cur.status)
    then err (book_conflict b p input cur)
    else after_book b p trace input cur
        (update_slot_versioned cur.id cur.sync_version (booked b input) s)

abbrev pub book_found :
    BookingEnv
    → Principal
    → Text
    → BookSlotInput
    → Option ScheduleSlot
    → SlotDb
    → Result ((SlotDto × DomainEvent) × SlotDb)
book_found b p trace input none s = err not_found
book_found b p trace input (some cur) s = book_slot b p trace input cur s

-- The project to which a booking is linked must be one that its caller may see.
abbrev pub may_link : BookingEnv → Principal → Option ProjectRow → Bool
may_link b p none = false
may_link b p (some r) = can_view_project b.env.rt p (workspace_of r)

abbrev pub link_ok : BookingEnv → Principal → Option ℕ → SlotDb → Bool
link_ok b p none s = true
link_ok b p (some id) s = may_link b p (lock_project id s.db)

-- `bookWithin`.
unfoldable pub book_within :
    BookingEnv
    → Principal
    → Text
    → BookSlotInput
    → SlotDb
    → Result ((SlotDto × DomainEvent) × SlotDb)
unfolding lock_slot lock_project book_slot booking_workspace clean
book_within b p trace input s =
    if is_viewer_role p.role
    then err forbidden
    else if not (can_edit_project b.env.rt p (booking_workspace b (clean b input.station)))
    then err forbidden
    else if not (link_ok b p input.project_id s)
    then err not_found
    else book_found b p trace input (lock_slot input.id s) s

-- The columns that a release empties.
abbrev pub released : ScheduleSlot → ScheduleSlot
released r = record r {
  status = frei;
  details = record {
    station = none;
    bahnhofsmanagement = none;
    projektleitung = none;
    projektstand = none;
    info = none;
    hinweis = none;
    project_id = none;
  };
  checklist_id = none;
}

abbrev pub release_conflict : BookingEnv → Principal → ReleaseSlotInput → ScheduleSlot → Error
release_conflict b p input cur =
    aggregate_conflict
      (conflict_at cur input.expected_version cur.sync_version (some (view b p cur)) stale)

unfoldable pub release_slot :
    BookingEnv
    → Principal
    → Text
    → ReleaseSlotInput
    → ScheduleSlot
    → SlotDb
    → Result ((SlotDto × DomainEvent) × SlotDb)
unfolding update_slot_versioned finish view
release_slot b p trace input cur s =
    if is_viewer_role p.role
      || not (is_admin_role p.role || can_edit_project b.env.rt p cur.details.bahnhofsmanagement)
    then err forbidden
    else if not (nat_beq cur.sync_version input.expected_version)
    then err (release_conflict b p input cur)
    else finish b p trace cur (released cur) cur.details.bahnhofsmanagement
        ((update_slot_versioned cur.id cur.sync_version released s).0)

abbrev pub release_found :
    BookingEnv
    → Principal
    → Text
    → ReleaseSlotInput
    → Option ScheduleSlot
    → SlotDb
    → Result ((SlotDto × DomainEvent) × SlotDb)
release_found b p trace input none s = err not_found
release_found b p trace input (some cur) s = release_slot b p trace input cur s

unfoldable pub release_within :
    BookingEnv
    → Principal
    → Text
    → ReleaseSlotInput
    → SlotDb
    → Result ((SlotDto × DomainEvent) × SlotDb)
unfolding lock_slot release_slot
release_within b p trace input s = release_found b p trace input (lock_slot input.id s) s

-- `{ ...claim.response, replayed: true }`.
abbrev pub replayed_slot : Option SlotAnswer → SlotAnswer
replayed_slot none = record { slot = none; event_id = none; replayed = true }
replayed_slot (some a) = record a { replayed = true }

abbrev pub fresh_slot : SlotDto × DomainEvent → SlotAnswer
fresh_slot (slot, e) = record { slot = some slot; event_id = some e.event_id; replayed = false }

-- `completeIdempotency`.
abbrev pub with_response : Text → Text → SlotAnswer → SlotDb → Option SlotKeyRow → SlotDb
with_response actor key a s none = s
with_response actor key a s (some row) = record s {
  keys = put (actor, key) (record row { response = some a }) s.keys;
}

unfoldable pub complete_slot : Text → Text → SlotAnswer → SlotDb → SlotDb
unfolding get put
complete_slot actor key a s = with_response actor key a s (get (actor, key) s.keys)

abbrev pub new_slot_key : Text → Text → SlotKeyRow
new_slot_key operation hash = record { operation = operation; request_hash = hash; response = none }

-- A transaction behind its key: a known key is answered from its row, or refused.
abbrev pub claimed_slot :
    Text
    → Text
    → Text
    → Text
    → (SlotDb → Result ((SlotDto × DomainEvent) × SlotDb))
    → SlotDb
    → Option SlotKeyRow
    → Result (SlotAnswer × SlotDb)
claimed_slot actor key operation hash body s none = do
  (done, after) ← body (record s { keys = put (actor, key) (new_slot_key operation hash) s.keys })
  ok (fresh_slot done, complete_slot actor key (fresh_slot done) after)
claimed_slot actor key operation hash body s (some row) =
    if not (text_beq row.request_hash hash) || not (text_beq row.operation operation)
    then err idempotency_key_reuse
    else ok (replayed_slot row.response, s)

unfoldable pub keyed_slot :
    Text
    → Text
    → Text
    → Text
    → (SlotDb → Result ((SlotDto × DomainEvent) × SlotDb))
    → SlotDb
    → Result (SlotAnswer × SlotDb)
unfolding get put complete_slot
keyed_slot actor key operation hash body s =
    claimed_slot actor key operation hash body s (get (actor, key) s.keys)

-- What is hashed of a booking: the cleaned values, without the key.
abbrev pub hashed_input : BookingEnv → BookSlotInput → BookSlotInput
hashed_input b input = record input {
  station = clean b input.station;
  projektleitung = clean b input.projektleitung;
  projektstand = clean b input.projektstand;
  info = clean b input.info;
  hinweis = clean b input.hinweis;
  key = [];
}

-- `book`.
unfoldable pub book :
    BookingEnv → Principal → BookSlotInput → Text → SlotDb → Result (SlotAnswer × SlotDb)
unfolding keyed_slot book_within clean
book b p input trace s =
    keyed_slot p.id input.key (codes "booking.book") (b.book_hash (hashed_input b input))
      (book_within b p trace input) s

-- `release`.
unfoldable pub release :
    BookingEnv → Principal → ReleaseSlotInput → Text → SlotDb → Result (SlotAnswer × SlotDb)
unfolding keyed_slot release_within
release b p input trace s =
    keyed_slot p.id input.key (codes "booking.release") (b.release_hash (record input { key = [] }))
      (release_within b p trace input) s
