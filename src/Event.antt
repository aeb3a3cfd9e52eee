-- ===== src/Event.antt =====
-- shared/domain-events.ts: the event envelope, the scopes it is delivered on, gap detection and
-- duplicate detection. Ids, names and times are texts; an absent optional field and null are `none`.
pub mod Slug
pub mod Scopes
pub mod Order
pub mod Decide
pub mod Seen
use bahn_project_manager.Prelude.{ℕ, Text, Option, List}

pub data AggregateType : Type 0 where
  project presence notification checklist booking : AggregateType

pub data EventType : Type 0 where
  project_created project_updated project_deleted project_removed : EventType
  presence_changed notification_created : EventType
  checklist_created checklist_updated checklist_submitted booking_updated : EventType

pub record FieldChange : Type 0 where
  pub from : Option Text
  pub to : Option Text

pub record Context : Type 0 where
  pub workspace : Option Text
  pub workspace_before : Option Text
  pub recipient : Option Text

abbrev pub Changes : Type 0
Changes = List (Text × FieldChange)

pub record DomainEvent : Type 0 where
  pub event_id : Text
  pub feed_seq : Option ℕ
  pub event_type : EventType
  pub aggregate_type : AggregateType
  pub aggregate_id : Text
  pub aggregate_version : ℕ
  pub actor_id : Text
  pub actor_name : Option Text
  pub timestamp : Text
  pub trace_id : Text
  pub changes : Changes
  pub context : Context
