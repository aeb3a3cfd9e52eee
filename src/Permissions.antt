-- ===== src/Permissions.antt =====
-- server/domain/permissions.ts and shared/itk/access.ts: who may do what. Every rule is a function
-- of the principal and of the workspace (Bahnhofsmanagement) of the project.
pub mod Rules
pub mod Monotone
pub mod Channels
use bahn_project_manager.Prelude.{
  ℕ, Bool, true, false, ◌&&◌, ◌||◌, Option, none, some, List, [], ◌∷◌, if◌then◌else◌, any, all,
  length, leb, Text, text_beq, codes, split_at, drop, drop_last, starts_with, is_digit,
}
use bahn_project_manager.Runtime.{Runtime}
use bahn_project_manager.Event.Slug.{slugify}
use bahn_project_manager.Event.Scopes.{ScopeKey}

pub data Role : Type 0 where
  admin editor viewer : Role

pub data WorkspaceAccess : Type 0 where
  all_workspaces : WorkspaceAccess
  only : List Text → WorkspaceAccess

pub record Principal : Type 0 where
  pub id : Text
  pub name : Option Text
  pub email : Option Text
  pub role : Role
  pub workspaces : WorkspaceAccess
  pub departments : List Text

abbrev pub is_admin_role : Role → Bool
is_admin_role admin = true
is_admin_role _ = false

abbrev pub is_viewer_role : Role → Bool
is_viewer_role viewer = true
is_viewer_role _ = false

abbrev can_write : Role → Bool
can_write admin = true
can_write editor = true
can_write viewer = false

abbrev restriction_of : WorkspaceAccess → Option (List Text)
restriction_of all_workspaces = none
restriction_of (only ws) = some ws

-- `null`, here `none`, is no restriction.
unfoldable pub workspace_restriction : Principal → Option (List Text)
workspace_restriction p = if is_admin_role p.role then none else restriction_of p.workspaces

-- `allowed === null || (ws !== null && allowed.some(w => slugify(w) === slugify(ws)))`.
abbrev pub allows : Runtime → Option (List Text) → Option Text → Bool
allows rt none ws = true
allows rt (some allowed) none = false
allows rt (some allowed) (some ws) = any (λ w. text_beq (slugify rt w) (slugify rt ws)) allowed

unfoldable pub in_workspaces : Runtime → Principal → Option Text → Bool
unfolding workspace_restriction
in_workspaces rt p ws = allows rt (workspace_restriction p) ws

unfoldable pub is_admin : Principal → Bool
is_admin p = is_admin_role p.role

unfoldable pub can_write_role : Principal → Bool
can_write_role p = can_write p.role

-- The project of these rules is its Bahnhofsmanagement.
unfoldable pub can_view_project : Runtime → Principal → Option Text → Bool
unfolding is_admin in_workspaces
can_view_project rt p ws = is_admin p || in_workspaces rt p ws

unfoldable pub can_edit_project : Runtime → Principal → Option Text → Bool
unfolding can_write_role
can_edit_project rt p ws = can_write_role p && can_view_project rt p ws

unfoldable pub can_create_project : Runtime → Principal → Option Text → Bool
can_create_project rt p target = can_edit_project rt p target

abbrev pub is_editor_role : Role → Bool
is_editor_role editor = true
is_editor_role _ = false

abbrev pub names_department : Runtime → List Text → Text → Bool
names_department rt departments department =
    any (λ d. text_beq (rt.to_upper d) (rt.to_upper department)) departments

unfoldable pub can_edit_department : Runtime → Principal → Text → Bool
unfolding is_admin
can_edit_department rt p department =
    is_admin p || (is_editor_role p.role && names_department rt p.departments department)

unfoldable pub can_approve_review : Runtime → Principal → Option Text → Text → Bool
can_approve_review rt p ws department =
    can_view_project rt p ws && can_edit_department rt p department

unfoldable pub can_delete_project : Principal → Option Text → Bool
unfolding is_admin
can_delete_project p _ = is_admin p

unfoldable pub can_view_audit : Principal → Bool
unfolding can_write_role
can_view_audit p = can_write_role p

abbrev grants_all : WorkspaceAccess → Bool
grants_all all_workspaces = true
grants_all (only _) = false

-- shared/itk/access.ts.
unfoldable pub may_view_pruefberichte : Principal → Bool
may_view_pruefberichte g = is_admin_role g.role || grants_all g.workspaces

unfoldable pub may_import_pruefberichte : Principal → Bool
may_import_pruefberichte g = is_admin_role g.role

unfoldable pub may_link_pruefberichte : Principal → Bool
unfolding may_view_pruefberichte
may_link_pruefberichte g =
    may_view_pruefberichte g && (is_admin_role g.role || is_editor_role g.role)

unfoldable pub can_view_pruefberichte : Principal → Bool
unfolding may_view_pruefberichte
can_view_pruefberichte p = may_view_pruefberichte p

unfoldable pub can_import_pruefberichte : Principal → Bool
unfolding may_import_pruefberichte
can_import_pruefberichte p = may_import_pruefberichte p

unfoldable pub can_link_pruefberichte : Principal → Bool
unfolding may_link_pruefberichte
can_link_pruefberichte p = may_link_pruefberichte p

unfoldable pub can_bulk_link : Principal → Bool
unfolding may_import_pruefberichte
can_bulk_link p = may_import_pruefberichte p

unfoldable pub can_import_register : Principal → Bool
unfolding is_admin
can_import_register p = is_admin p

unfoldable pub can_export : Principal → Bool
unfolding can_write_role
can_export p = can_write_role p

unfoldable pub can_manage_users : Principal → Bool
unfolding is_admin
can_manage_users p = is_admin p

-- `/^(booking|checklist)\.\d+$/`.
abbrev is_row_number : Text → Bool
is_row_number s = leb 1 (length s) && all is_digit s

is_row_id : Text → Bool
unfolding starts_with
is_row_id id =
    (starts_with id (codes "booking.") && is_row_number (drop 8 id))
    || (starts_with id (codes "checklist.") && is_row_number (drop 10 id))

-- `allowed === null || allowed.some(w => slugify(w) === key)`.
abbrev pub allows_key : Runtime → Option (List Text) → Text → Bool
allows_key rt none key = true
allows_key rt (some allowed) key = any (λ w. text_beq (slugify rt w) key) allowed

abbrev pub is_unrestricted : Option (List Text) → Bool
is_unrestricted none = true
is_unrestricted (some _) = false

can_subscribe_collection : Runtime → Principal → Text → Bool
unfolding starts_with workspace_restriction
can_subscribe_collection rt p id =
    let allowed = workspace_restriction p in
    if text_beq id (codes "booking.all")
    then true
    else if starts_with id (codes "checklist.")
    then if text_beq (drop 10 id) (codes "all")
      then is_unrestricted allowed
      else allows_key rt allowed (drop 10 id)
    else if text_beq id (codes "all")
    then is_unrestricted allowed
    else allows_key rt allowed id

can_subscribe_kind : Runtime → Principal → Text → Text → Bool
unfolding is_admin is_row_id can_subscribe_collection workspace_restriction
can_subscribe_kind rt p kind id =
    if text_beq kind (codes "user") || text_beq kind (codes "notifications")
    then text_beq id p.id || is_admin p
    else if text_beq kind (codes "agg")
    then is_row_id id
    else if text_beq kind (codes "collection")
    then can_subscribe_collection rt p id
    else if text_beq kind (codes "workspace")
    then allows_key rt (workspace_restriction p) id
    else if text_beq kind (codes "department")
    then is_admin p || names_department rt p.departments id
    else text_beq kind (codes "project")

-- `scopeKey.slice(0, idx)` and `scopeKey.slice(idx + 1)`; without a colon idx is -1.
abbrev scope_parts : Text → Option (Text × Text) → Text × Text
scope_parts s none = (drop_last s, s)
scope_parts s (some parts) = parts

unfoldable pub can_subscribe : Runtime → Principal → ScopeKey → Bool
unfolding can_subscribe_kind split_at drop_last
can_subscribe rt p scope_key =
    let (kind, id) = scope_parts scope_key (split_at b':' scope_key) in
    can_subscribe_kind rt p kind id

unfoldable pub role_from_legacy : Option Text → Role
role_from_legacy none = viewer
role_from_legacy (some legacy) =
    if text_beq legacy (codes "admin")
    then admin
    else if text_beq legacy (codes "user")
    then editor
    else viewer
