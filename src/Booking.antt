-- ===== src/Booking.antt =====
-- server/domain/bookingService.ts with the slot statements of server/infra/mysqlProjectStore.ts:
-- slots of the Fachspezialistenprüfung, booked and released under a version, with audit and event.
-- A random id is the number of ids drawn so far; the id of a slot is its key in the table.
pub mod Contract
pub mod Operations
pub mod Logged
pub mod Transitions
pub mod Requests
pub mod Taken
pub mod Views
pub mod Agenda
use bahn_project_manager.Prelude.{
  ℕ, ◌+◌, Bool, true, false, not, ◌&&◌, ◌||◌, Option, none, some, List, [], ◌∷◌, ◌++◌, map,
  if◌then◌else◌, get, put, nat_eq, nat_beq, Text, text_beq, opt_text_beq, codes,
}
use bahn_project_manager.Event.{DomainEvent, booking, booking_updated, Changes}
use bahn_project_manager.Permissions.{
  Principal, Role, is_admin_role, is_viewer_role, can_view_project, can_edit_project,
}
use bahn_project_manager.Store.{
  Db, ProjectRow, AuditRow, booking_entity, update, Result, ok, err, ◌>>=◌, not_found, forbidden,
  idempotency_key_reuse, aggregate_conflict, append_event, append_audit, key_eq, lock_project,
}
use bahn_project_manager.Service.{Env, actor_numeric_id, user_name, workspace_of}
use bahn_project_manager.Booking.Contract.{
  SlotStatus, frei, is_frei, status_text, booked_status, SlotDto, BookSlotInput, ReleaseSlotInput,
  AggregateConflict, of_booking, ConflictReason, stale, slot_taken,
}

-- The columns that a booking fills and a release empties.
pub record SlotDetails : Type 0 where
  pub station : Option Text
  pub bahnhofsmanagement : Option Text
  pub projektleitung : Option Text
  pub projektstand : Option Text
  pub info : Option Text
  pub hinweis : Option Text
  pub project_id : Option ℕ

-- A row of `schedule_slots`.
pub record ScheduleSlot : Type 0 where
  pub id : ℕ
  pub slot_key : Text
  pub datum : Text
  pub von : Text
  pub bis : Text
  pub status : SlotStatus
  pub details : SlotDetails
  pub checklist_id : Option ℕ
  pub sync_version : ℕ

-- The answer of `book` and `release`; a stored response that is null has no slot.
pub record SlotAnswer : Type 0 where
  pub slot : Option SlotDto
  pub event_id : Option Text
  pub replayed : Bool

-- A row of `idempotency_keys`; the responses of other operations are left out.
pub record SlotKeyRow : Type 0 where
  pub operation : Text
  pub request_hash : Text
  pub response : Option SlotAnswer

-- The tables of a booking: slots and keys beside those of the project writes.
pub record SlotDb : Type 0 where
  pub slots : List (ℕ × ScheduleSlot)
  pub keys : List ((Text × Text) × SlotKeyRow)
  pub db : Db

-- What the service takes from elsewhere: the workspace of a station (`resolveGeo`), the day of a
-- date, the hash of a request.
pub record BookingEnv : Type 0 where
  pub env : Env
  pub geo : Text → Option Text
  pub day : Text → Text
  pub book_hash : BookSlotInput → Text
  pub release_hash : ReleaseSlotInput → Text

-- `clean`: trimmed, and null when empty.
abbrev trimmed : Text → Option Text
trimmed [] = none
trimmed (c ∷ s) = some (c ∷ s)

unfoldable pub clean : BookingEnv → Option Text → Option Text
clean b none = none
clean b (some s) = trimmed (b.env.rt.trim s)

-- `toSlotDto`.
abbrev hidden_if {ℓ} : {A : Type ℓ} → Bool → Option A → Option A
hidden_if redacted v = if redacted then none else v

unfoldable pub to_slot_dto : BookingEnv → ScheduleSlot → Bool → SlotDto
to_slot_dto b r redacted = record {
  id = r.id;
  slot_key = r.slot_key;
  version = r.sync_version;
  datum = b.day r.datum;
  von = r.von;
  bis = r.bis;
  status = r.status;
  station = hidden_if redacted r.details.station;
  projektleitung = hidden_if redacted r.details.projektleitung;
  projektstand = hidden_if redacted r.details.projektstand;
  info = hidden_if redacted r.details.info;
  hinweis = hidden_if redacted r.details.hinweis;
  project_id = hidden_if redacted r.details.project_id;
  redacted = redacted;
}

-- `view`.
unfoldable pub view : BookingEnv → Principal → ScheduleSlot → SlotDto
unfolding to_slot_dto can_view_project
view b p r =
    to_slot_dto b r
      (not (is_frei r.status) && not (can_view_project b.env.rt p r.details.bahnhofsmanagement))

-- `list`, of the rows that the store selects.
unfoldable pub list_slots : BookingEnv → Principal → List ScheduleSlot → List SlotDto
unfolding view
list_slots b p rows = map (view b p) rows

unfoldable pub lock_slot : ℕ → SlotDb → Option ScheduleSlot
unfolding get
lock_slot id s = get id s.slots

abbrev pub changed_at : ℕ → (ScheduleSlot → ScheduleSlot) → ScheduleSlot → ScheduleSlot
changed_at expected set r = record (set r) { sync_version = expected + 1 }

abbrev pub written_slot :
    ℕ → ℕ → (ScheduleSlot → ScheduleSlot) → SlotDb → Option ScheduleSlot → SlotDb × Bool
written_slot id expected set s none = (s, false)
written_slot id expected set s (some r) =
    if nat_beq r.sync_version expected
    then (record s { slots = put id (changed_at expected set r) s.slots }, true)
    else (s, false)

-- `updateSlotVersioned`: the tables, and whether a row was changed.
unfoldable pub update_slot_versioned :
    ℕ → ℕ → (ScheduleSlot → ScheduleSlot) → SlotDb → SlotDb × Bool
unfolding get put
update_slot_versioned id expected set s = written_slot id expected set s (get id s.slots)

abbrev id_text : BookingEnv → Option ℕ → Option Text
id_text b none = none
id_text b (some n) = some (b.env.rt.string_of n)

-- The columns of `FIELDS`, as texts.
unfoldable pub slot_fields : BookingEnv → ScheduleSlot → List (Text × Option Text)
slot_fields b r =
    (codes "status", some (status_text r.status))
    ∷ (codes "station", r.details.station)
    ∷ (codes "projektleitung", r.details.projektleitung)
    ∷ (codes "projektstand", r.details.projektstand)
    ∷ (codes "info", r.details.info)
    ∷ (codes "hinweis", r.details.hinweis)
    ∷ (codes "projectId", id_text b r.details.project_id)
    ∷ (codes "bahnhofsmanagement", r.details.bahnhofsmanagement)
    ∷ []

-- `diff`, of two lists of the same columns.
unfoldable pub slot_diff : List (Text × Option Text) → List (Text × Option Text) → Changes
slot_diff ((f, a) ∷ old) ((_, b) ∷ new) =
    let rest = slot_diff old new in
    if opt_text_beq a b then rest else (f, record { from = a; to = b }) ∷ rest
slot_diff _ _ = []
