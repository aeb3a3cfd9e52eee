-- ===== src/Examples.antt =====
-- Concrete principals, events and tables, and the theorems applied to them.
mod Access
mod Booking
mod Outbox
mod Server
mod Streams
mod Delivery
mod Feed
mod Hub
mod Loads
mod Mirror
mod Notices
mod Reads
mod Reviews
mod Writes
use bahn_project_manager.Prelude.{ℕ, Option, none, some, List, [], ◌∷◌, Text, codes}
use bahn_project_manager.Event.{
  DomainEvent, AggregateType, project, EventType, project_updated, Changes, FieldChange, Context,
}
use bahn_project_manager.Permissions.{Principal, admin, editor, viewer, all_workspaces, only}

-- An editor of one workspace, and a department.
abbrev pub anna : Principal
anna = record {
  id = codes "7";
  name = some (codes "Anna");
  email = none;
  role = editor;
  workspaces = only (codes "ulm" ∷ []);
  departments = codes "ITK" ∷ [];
}

-- A viewer of the same workspace.
abbrev pub bert : Principal
bert = record anna { id = codes "8"; role = viewer }

abbrev pub chief : Principal
chief = record anna { id = codes "1"; role = admin; workspaces = all_workspaces }

abbrev pub kommentar_changed : Changes
kommentar_changed =
    (codes "kommentar", record { from = some (codes "a"); to = some (codes "b") }) ∷ []

abbrev pub event_of : AggregateType → EventType → Option Text → Option Text → DomainEvent
event_of t kind workspace before = record {
  event_id = codes "e1";
  feed_seq = some 12;
  event_type = kind;
  aggregate_type = t;
  aggregate_id = codes "1";
  aggregate_version = 2;
  actor_id = codes "1";
  actor_name = some (codes "Chief");
  timestamp = codes "t";
  trace_id = codes "x";
  changes = kommentar_changed;
  context = record { workspace = workspace; workspace_before = before; recipient = none };
}

abbrev pub ulm : Option Text
ulm = some (codes "ulm")

abbrev pub bonn : Option Text
bonn = some (codes "bonn")

-- A change of a project in Ulm, a move from Bonn to Ulm, and one from Ulm to Bonn.
abbrev pub in_ulm : DomainEvent
in_ulm = event_of project project_updated ulm none

abbrev pub into_ulm : DomainEvent
into_ulm = event_of project project_updated ulm bonn

abbrev pub out_of_ulm : DomainEvent
out_of_ulm = event_of project project_updated bonn ulm
