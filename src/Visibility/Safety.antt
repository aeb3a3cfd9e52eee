-- ===== src/Visibility/Safety.antt =====
-- server/domain/eventVisibility.ts: what project events, notifications and slot changes are when they
-- reach a recipient.
use bahn_project_manager.Prelude.{
  ◌≡◌, ◌≢◌, refl, ap, ◌↔◌, In, In-filter, inl, inr, Bool, true, false, Option, none, some, List, [],
  ◌∷◌, arith, All, filter, map, any, Text, text_beq, opt_text_beq_iff, Bool-cases, codes,
}
use bahn_project_manager.Runtime.{Runtime}
use bahn_project_manager.Event.{
  project, notification, booking, project_updated, project_removed, FieldChange, DomainEvent,
  Changes,
}
use bahn_project_manager.Permissions.{Principal, can_view_project}
use bahn_project_manager.Visibility.{
  event_for_principal, hide_from, strip_history, as_removal, redact_booking,
}

-- What an observer may read off the `from` values, and off all values.
abbrev pub NoOldValues : Changes → Type 0
NoOldValues = All (λ c. c.1.from ≡ none)

hide_from-NoOldValues : (cs : Changes) → NoOldValues (map hide_from cs)
hide_from-NoOldValues [] = tt
hide_from-NoOldValues ((f, c) ∷ cs) = (refl, hide_from-NoOldValues cs)

-- A project event whose recipient may see neither the workspace of the project nor the one it left
-- is not delivered at all.
pub unseen_not_delivered :
    (rt : Runtime) (p : Principal) (e : DomainEvent)
    → e.aggregate_type ≡ project
    → can_view_project rt p e.context.workspace ≡ false
    → can_view_project rt p e.context.workspace_before ≡ false
    → event_for_principal rt p e ≡ none
unfolding event_for_principal
unseen_not_delivered rt p e t now before = ground arith

-- The fields of a change with their new values.
abbrev pub to_values : Changes → List (Text × Option Text)
to_values cs = map (λ c. (c.0, c.1.to)) cs

to_values-hide_from : (cs : Changes) → to_values (map hide_from cs) ≡ to_values cs
to_values-hide_from [] = refl
to_values-hide_from ((f, c) ∷ cs) = ap (λ rest. (f, c.to) ∷ rest) (to_values-hide_from cs)

-- `d` is `e` with the same fields and new values, no old values and a hidden former workspace.
abbrev pub WithoutHistory : DomainEvent → DomainEvent → Type 0
WithoutHistory e d =
    (d ≡ record e {
      changes = d.changes;
      context = record {
        workspace = e.context.workspace;
        workspace_before = some (codes "*");
        recipient = e.context.recipient;
      };
    })
    × NoOldValues d.changes
    × (to_values d.changes ≡ to_values e.changes)

-- An update of a project goes to a recipient who may see the workspace that it is in, but not the
-- one that it left, with all its fields and new values and nothing else of it changed, but without
-- an old value and without the name of the workspace that it left.
pub delivered_hides_old :
    (rt : Runtime) (p : Principal) (e : DomainEvent) (old : Text)
    → e.aggregate_type ≡ project
    → e.event_type ≡ project_updated
    → e.context.workspace_before ≡ some old
    → can_view_project rt p e.context.workspace ≡ true
    → can_view_project rt p (some old) ≡ false
    → (d : DomainEvent) × (event_for_principal rt p e ≡ some d) × WithoutHistory e d
unfolding event_for_principal strip_history
delivered_hides_old rt p e old t u w now before = (
  strip_history e,
  ground arith,
  (refl, hide_from-NoOldValues e.changes, to_values-hide_from e.changes),
)

-- `d` says of the project of `e`, at the version of `e`, that it was removed, and no more.
abbrev pub SaysRemoved : Text → DomainEvent → DomainEvent → Type 0
SaysRemoved old e d =
    (d.event_type ≡ project_removed)
    × (d.event_id ≡ e.event_id)
    × (d.feed_seq ≡ e.feed_seq)
    × (d.aggregate_type ≡ project)
    × (d.aggregate_id ≡ e.aggregate_id)
    × (d.aggregate_version ≡ e.aggregate_version)
    × (d.changes ≡ [])
    × (d.context ≡ record { workspace = none; workspace_before = some old; recipient = none })
    × (d.actor_name ≡ none)
    × (d.actor_id ≡ codes "redacted")

-- An update of a project goes to a recipient who may see the workspace that it left, but not the one
-- that it is in, as the removal of that project at that version: it carries no value, no name of the
-- new workspace and no actor.
pub delivered_hides_new :
    (rt : Runtime) (p : Principal) (e : DomainEvent) (old : Text)
    → e.aggregate_type ≡ project
    → e.event_type ≡ project_updated
    → e.context.workspace_before ≡ some old
    → can_view_project rt p e.context.workspace ≡ false
    → can_view_project rt p (some old) ≡ true
    → (d : DomainEvent) × (event_for_principal rt p e ≡ some d) × SaysRemoved old e d
unfolding event_for_principal as_removal
delivered_hides_new rt p e old t u w now before =
    (as_removal e old, ground arith, (refl, refl, refl, t, refl, refl, refl, refl, refl, refl))

-- A notification reaches its recipient only, and only while they may see the project's workspace;
-- it is then delivered as it is.
pub notification_iff :
    (rt : Runtime) (p : Principal) (e d : DomainEvent)
    → e.aggregate_type ≡ notification
    → (event_for_principal rt p e ≡ some d) ↔ (
        (d ≡ e)
        × (e.context.recipient ≡ some p.id)
        × (can_view_project rt p e.context.workspace ≡ true))
unfolding event_for_principal
notification_iff rt p e d t = ground (arith, opt_text_beq_iff e.context.recipient (some p.id))

All-filter_self {ℓ} :
    {A : Type ℓ} (f : A → Bool) (xs : List A) → All (λ x. f x ≡ true) (filter f xs)
All-filter_self f [] = tt
All-filter_self f (x ∷ xs) = elim (Bool-cases (f x)) [
  | inl e ↦ rw e (e, All-filter_self f xs)
  | inr e ↦ rw e (All-filter_self f xs)
]

-- The status and the time of a slot.
abbrev pub public_fields : List Text
public_fields = codes "status" ∷ codes "datum" ∷ codes "von" ∷ codes "bis" ∷ []

-- `d` is `e` with the changes of a slot's status and time, and without its other changes, the name
-- of the actor and the workspace.
abbrev pub OnlyStatus : DomainEvent → DomainEvent → Type 0
OnlyStatus e d =
    (d ≡ record e {
      actor_name = none;
      changes = d.changes;
      context = record { workspace = none; workspace_before = none; recipient = none };
    })
    × All (λ c. any (text_beq c.0) public_fields ≡ true) d.changes
    × ((c : Text × FieldChange)
        → any (text_beq c.0) public_fields ≡ true
        → In c e.changes
        → In c d.changes)

-- Whoever may not see the workspace of a slot gets each of its changes, with the changes of its
-- status and time and no others, without the actor's name and without the workspace; the rest of the
-- event, the id of the actor included, stays.
pub booking_redacted :
    (rt : Runtime) (p : Principal) (e : DomainEvent)
    → e.aggregate_type ≡ booking
    → can_view_project rt p e.context.workspace ≡ false
    → (d : DomainEvent) × (event_for_principal rt p e ≡ some d) × OnlyStatus e d
unfolding event_for_principal redact_booking
booking_redacted rt p e t s = (
  redact_booking e,
  ground arith,
  (
    refl,
    All-filter_self (λ (c : Text × FieldChange). any (text_beq c.0) public_fields) e.changes,
    λ c k. In-filter (λ (d : Text × FieldChange). any (text_beq d.0) public_fields) c e.changes k,
  ),
)

abbrev pub SeesOld : Runtime → Principal → Option Text → Type 0
SeesOld rt p none = Unit
SeesOld rt p (some old) = can_view_project rt p (some old) ≡ true

update_whole_at :
    (rt : Runtime) (p : Principal) (e : DomainEvent) (before : Option Text)
    → e.aggregate_type ≡ project
    → e.event_type ≡ project_updated
    → e.context.workspace_before ≢ some (codes "*")
    → e.context.workspace_before ≡ before
    → (event_for_principal rt p e ≡ some e)
      ↔ ((can_view_project rt p e.context.workspace ≡ true) × SeesOld rt p before)
unfolding event_for_principal strip_history as_removal
update_whole_at rt p e none t u w b = ground arith
update_whole_at rt p e (some old) t u w b = ground arith

-- An update of a project whose former workspace, if it has one, is not called "*" is delivered
-- unchanged exactly to those who may see the workspace that it is in and, if it moved, the one that
-- it left.
pub update_whole_iff :
    (rt : Runtime) (p : Principal) (e : DomainEvent)
    → e.aggregate_type ≡ project
    → e.event_type ≡ project_updated
    → e.context.workspace_before ≢ some (codes "*")
    → (event_for_principal rt p e ≡ some e) ↔ (
        (can_view_project rt p e.context.workspace ≡ true)
        × SeesOld rt p e.context.workspace_before)
update_whole_iff rt p e t u w = update_whole_at rt p e e.context.workspace_before t u w refl
