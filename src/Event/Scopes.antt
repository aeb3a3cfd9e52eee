-- ===== src/Event/Scopes.antt =====
-- shared/domain-events.ts: channel names, their syntax, and the channels that an event is
-- delivered on.
use bahn_project_manager.Prelude.{
  ℕ, ◌≡◌, ap, Bool, true, false, ◌&&◌, ◌||◌, Option, none, some, List, [], ◌∷◌, ◌++◌, any, all,
  length, if◌then◌else◌, leb, nat_beq, has, Text, text_beq, text_eq, codes, split_at, truthy,
  is_digit,
}
use bahn_project_manager.Runtime.{Runtime}
use bahn_project_manager.Event.{
  AggregateType, project, presence, notification, checklist, booking, EventType, project_created,
  project_updated, project_deleted, project_removed, DomainEvent, Changes,
}
use bahn_project_manager.Event.Slug.{slugify}

abbrev pub ScopeKey : Type 0
ScopeKey = Text

-- The members of `scope`.
abbrev pub project_scope : Text → ScopeKey
project_scope id = codes "project:" ++ id

abbrev pub workspace_scope : Runtime → Text → ScopeKey
workspace_scope rt name = codes "workspace:" ++ slugify rt name

abbrev pub department_scope : Runtime → Text → ScopeKey
department_scope rt code = codes "department:" ++ rt.to_upper code

abbrev pub collection_scope : Runtime → Text → ScopeKey
collection_scope rt workspace_or_all =
    if text_beq workspace_or_all (codes "all")
    then codes "collection:all"
    else codes "collection:" ++ slugify rt workspace_or_all

abbrev pub type_name : AggregateType → Text
type_name project = codes "project"
type_name presence = codes "presence"
type_name notification = codes "notification"
type_name checklist = codes "checklist"
type_name booking = codes "booking"

abbrev pub agg_scope : AggregateType → Text → ScopeKey
agg_scope t id = codes "agg:" ++ type_name t ++ codes "." ++ id

abbrev pub agg_collection_scope : Runtime → AggregateType → Text → ScopeKey
agg_collection_scope rt t key =
    codes "collection:"
    ++ type_name t
    ++ codes "."
    ++ (if text_beq key (codes "all") then codes "all" else slugify rt key)

abbrev pub notifications_scope : Text → ScopeKey
notifications_scope id = codes "notifications:" ++ id

-- `SCOPE_RE`: the kinds, and the units of an id.
abbrev scope_kinds : List Text
scope_kinds =
    codes "workspace"
    ∷ codes "collection"
    ∷ codes "agg"
    ∷ codes "department"
    ∷ codes "project"
    ∷ codes "user"
    ∷ codes "notifications"
    ∷ []

abbrev pub is_id_char : ℕ → Bool
is_id_char c =
    (leb b'A' c && leb c b'Z')
    || (leb b'a' c && leb c b'z')
    || is_digit c
    || nat_beq c b'_'
    || nat_beq c b'.'
    || nat_beq c b'-'

abbrev scope_parts_valid : Option (Text × Text) → Bool
scope_parts_valid none = false
scope_parts_valid (some (kind, id)) =
    any (text_beq kind) scope_kinds
    && (leb 1 (length id) && leb (length id) 64 && all is_id_char id)

unfoldable pub is_valid_scope : ScopeKey → Bool
unfolding split_at
is_valid_scope s = scope_parts_valid (split_at b':' s)

abbrev changes_membership : EventType → Changes → Bool
changes_membership project_created changes = true
changes_membership project_deleted changes = true
changes_membership project_removed changes = true
changes_membership project_updated changes = has (codes "bahnhofsmanagement") changes
changes_membership _ changes = false

abbrev pub is_project : AggregateType → Bool
is_project project = true
is_project _ = false

unfoldable pub is_membership_event : DomainEvent → Bool
unfolding has
is_membership_event e = is_project e.aggregate_type && changes_membership e.event_type e.changes

-- `out.add(s)` on a set in insertion order.
abbrev pub add_scope : List ScopeKey → ScopeKey → List ScopeKey
add_scope out s = if any (text_beq s) out then out else out ++ s ∷ []

-- `if (s) out.add(f(s))`.
abbrev pub add_named : (Text → ScopeKey) → Option Text → List ScopeKey → List ScopeKey
add_named f none out = out
add_named f (some s) out = if truthy (some s) then add_scope out (f s) else out

unfoldable pub project_scopes : Runtime → DomainEvent → List ScopeKey
unfolding is_membership_event
project_scopes rt e =
    let ws = e.context.workspace in
    let before = e.context.workspace_before in
    let routed =
      add_named (workspace_scope rt) before
        (add_named (workspace_scope rt) ws (project_scope e.aggregate_id ∷ [])) in
    if is_membership_event e
    then add_named (collection_scope rt) before
        (add_named (collection_scope rt) ws (add_scope routed (collection_scope rt (codes "all"))))
    else routed

row_scopes : Runtime → AggregateType → DomainEvent → List ScopeKey
row_scopes rt t e =
    let out =
      add_scope (agg_scope t e.aggregate_id ∷ []) (agg_collection_scope rt t (codes "all")) in
    elim t [
      | checklist ↦ add_named (agg_collection_scope rt checklist) e.context.workspace out
      | _ ↦ out
    ]

recipient_scopes : Option Text → List ScopeKey
recipient_scopes none = []
recipient_scopes (some id) = if truthy (some id) then notifications_scope id ∷ [] else []

scopes_by_type : Runtime → AggregateType → DomainEvent → List ScopeKey
unfolding project_scopes row_scopes recipient_scopes is_valid_scope
scopes_by_type rt presence e = if is_valid_scope e.aggregate_id then e.aggregate_id ∷ [] else []
scopes_by_type rt notification e = recipient_scopes e.context.recipient
scopes_by_type rt booking e = row_scopes rt booking e
scopes_by_type rt checklist e = row_scopes rt checklist e
scopes_by_type rt project e = project_scopes rt e

unfoldable pub scopes_for_event : Runtime → DomainEvent → List ScopeKey
unfolding scopes_by_type
scopes_for_event rt e = scopes_by_type rt e.aggregate_type e

pub scopes_for_event-project :
    (rt : Runtime) (e : DomainEvent)
    → e.aggregate_type ≡ project
    → scopes_for_event rt e ≡ project_scopes rt e
unfolding scopes_for_event
scopes_for_event-project rt e h = ap (λ t. scopes_by_type rt t e) h
