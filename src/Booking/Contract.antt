-- ===== src/Booking/Contract.antt =====
-- shared/booking-contract.ts and the conflict of server/domain/errors.ts: the states of a slot, a
-- slot as its readers get it, and why a transition was refused.
use bahn_project_manager.Prelude.{ℕ, Bool, true, false, Text, codes, Option, ◌++◌, ◌∷◌}

pub data SlotStatus : Type 0 where
  frei gebucht vorgebucht_im vorgebucht_it : SlotStatus

-- `"Vorgebucht für "`.
abbrev held_for : Text
held_for = codes "Vorgebucht f" ++ 252 ∷ codes "r "

abbrev pub status_text : SlotStatus → Text
status_text frei = codes "Frei"
status_text gebucht = codes "Gebucht"
status_text vorgebucht_im = held_for ++ codes "IM"
status_text vorgebucht_it = held_for ++ codes "IT"

abbrev pub is_frei : SlotStatus → Bool
is_frei frei = true
is_frei gebucht = false
is_frei vorgebucht_im = false
is_frei vorgebucht_it = false

-- What a slot can be booked as.
pub data BookedAs : Type 0 where
  as_gebucht as_vorgebucht_im as_vorgebucht_it : BookedAs

abbrev pub booked_status : BookedAs → SlotStatus
booked_status as_gebucht = gebucht
booked_status as_vorgebucht_im = vorgebucht_im
booked_status as_vorgebucht_it = vorgebucht_it

pub record SlotDto : Type 0 where
  pub id : ℕ
  pub slot_key : Text
  pub version : ℕ
  pub datum : Text
  pub von : Text
  pub bis : Text
  pub status : SlotStatus
  pub station : Option Text
  pub projektleitung : Option Text
  pub projektstand : Option Text
  pub info : Option Text
  pub hinweis : Option Text
  pub project_id : Option ℕ
  pub redacted : Bool

pub record BookSlotInput : Type 0 where
  pub id : ℕ
  pub expected_version : ℕ
  pub status : BookedAs
  pub station : Option Text
  pub projektleitung : Option Text
  pub projektstand : Option Text
  pub info : Option Text
  pub hinweis : Option Text
  pub project_id : Option ℕ
  pub key : Text

pub record ReleaseSlotInput : Type 0 where
  pub id : ℕ
  pub expected_version : ℕ
  pub key : Text

pub data AggregateKind : Type 0 where
  of_booking of_checklist : AggregateKind

pub data ConflictReason : Type 0 where
  stale slot_taken not_draft : ConflictReason

-- `AggregateConflictInfo`; its `current` is the row as the caller may see it.
pub record AggregateConflict : Type 0 where
  pub aggregate : AggregateKind
  pub id : ℕ
  pub expected_version : ℕ
  pub current_version : ℕ
  pub current : Option SlotDto
  pub reason : ConflictReason
