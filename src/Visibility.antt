-- ===== src/Visibility.antt =====
-- server/domain/eventVisibility.ts: the form in which an event may reach a recipient, if any.
pub mod Safety
use bahn_project_manager.Prelude.{
  Bool, true, false, not, ◌&&◌, ◌||◌, Option, none, some, List, [], ◌∷◌, map, if◌then◌else◌, any,
  filter, Text, text_beq, opt_text_beq, codes, starts_with, truthy,
}
use bahn_project_manager.Runtime.{Runtime}
use bahn_project_manager.Event.{
  AggregateType, project, presence, notification, checklist, booking, EventType, project_created,
  project_updated, project_deleted, project_removed, FieldChange, Changes, Context, DomainEvent,
}
use bahn_project_manager.Permissions.{Principal, is_admin_role, can_view_project, can_subscribe}

-- `HIDDEN_WORKSPACE`.
abbrev pub hidden_workspace : Text
hidden_workspace = codes "*"

abbrev pub when : Bool → DomainEvent → Option DomainEvent
when b e = if b then some e else none

-- `e.context?.recipient === p.id`.
abbrev is_recipient : Principal → DomainEvent → Bool
is_recipient p e = opt_text_beq e.context.recipient (some p.id)

for_notification : Runtime → Principal → DomainEvent → Option DomainEvent
for_notification rt p e = when (is_recipient p e && can_view_project rt p e.context.workspace) e

for_presence : Runtime → Principal → DomainEvent → Option DomainEvent
unfolding starts_with
for_presence rt p e =
    if not (can_subscribe rt p e.aggregate_id)
    then none
    else if starts_with e.aggregate_id (codes "project:")
    then when (can_view_project rt p e.context.workspace) e
    else some e

-- `KEEP`, the fields of a slot that everybody may see.
abbrev pub keep_fields : List Text
keep_fields = codes "status" ∷ codes "datum" ∷ codes "von" ∷ codes "bis" ∷ []

abbrev pub empty_context : Context
empty_context = record { workspace = none; workspace_before = none; recipient = none }

unfoldable pub redact_booking : DomainEvent → DomainEvent
redact_booking e = record e {
  actor_name = none;
  changes = filter (λ c. any (text_beq c.0) keep_fields) e.changes;
  context = empty_context;
}

for_booking : Runtime → Principal → DomainEvent → Option DomainEvent
unfolding redact_booking
for_booking rt p e =
    if can_view_project rt p e.context.workspace then some e else some (redact_booking e)

for_checklist : Runtime → Principal → DomainEvent → Option DomainEvent
for_checklist rt p e =
    if truthy e.context.recipient
    then when (is_recipient p e || is_admin_role p.role) e
    else when (can_view_project rt p e.context.workspace) e

abbrev pub hide_from : Text × FieldChange → Text × FieldChange
hide_from (f, c) = (f, record { from = none; to = c.to })

-- Moved in from a workspace that the recipient may not see.
unfoldable pub strip_history : DomainEvent → DomainEvent
strip_history e = record e {
  changes = map hide_from e.changes;
  context = record {
    workspace = e.context.workspace;
    workspace_before = some hidden_workspace;
    recipient = e.context.recipient;
  };
}

-- Moved out: removal, with no values.
unfoldable pub as_removal : DomainEvent → Text → DomainEvent
as_removal e before = record e {
  event_type = project_removed;
  actor_id = codes "redacted";
  actor_name = none;
  changes = [];
  context = record { workspace = none; workspace_before = some before; recipient = none };
}

for_move : Runtime → Principal → DomainEvent → Text → Option DomainEvent
unfolding strip_history as_removal
for_move rt p e before =
    let sees_now = can_view_project rt p e.context.workspace in
    let sees_before = can_view_project rt p (some before) in
    if sees_now && sees_before
    then some e
    else if sees_now
    then some (strip_history e)
    else if sees_before
    then some (as_removal e before)
    else none

abbrev sees_left : Runtime → Principal → Option Text → Bool
sees_left rt p none = false
sees_left rt p (some before) = can_view_project rt p (some before)

for_project_type : Runtime → Principal → DomainEvent → EventType → Option DomainEvent
unfolding for_move
for_project_type rt p e project_removed = when (can_view_project rt p e.context.workspace_before) e
for_project_type rt p e project_deleted =
    when (can_view_project rt p e.context.workspace || sees_left rt p e.context.workspace_before) e
for_project_type rt p e _ = elim e.context.workspace_before [
  | none ↦ when (can_view_project rt p e.context.workspace) e
  | some before ↦ for_move rt p e before
]

for_aggregate : Runtime → Principal → DomainEvent → AggregateType → Option DomainEvent
unfolding for_notification for_presence for_booking for_checklist for_project_type
for_aggregate rt p e notification = for_notification rt p e
for_aggregate rt p e presence = for_presence rt p e
for_aggregate rt p e booking = for_booking rt p e
for_aggregate rt p e checklist = for_checklist rt p e
for_aggregate rt p e project = for_project_type rt p e e.event_type

unfoldable pub event_for_principal : Runtime → Principal → DomainEvent → Option DomainEvent
unfolding for_aggregate
event_for_principal rt p e = for_aggregate rt p e e.aggregate_type
