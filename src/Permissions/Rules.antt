-- ===== src/Permissions/Rules.antt =====
-- What the role and workspace rules of server/domain/permissions.ts amount to.
use bahn_project_manager.Prelude.{
  ◌≡◌, refl, ◌↔◌, ◌⊎◌, true, false, Option, none, some, List, [], ◌∷◌, arith, any, Text, text_beq,
  text_beq_iff,
}
use bahn_project_manager.Runtime.{Runtime}
use bahn_project_manager.Event.Slug.{slugify}
use bahn_project_manager.Permissions.{
  Role, admin, viewer, WorkspaceAccess, all_workspaces, only, Principal, can_view_project,
  can_edit_project, can_create_project, can_edit_department, can_approve_review, can_delete_project,
  can_view_pruefberichte, can_link_pruefberichte, can_bulk_link, can_import_register,
  can_manage_users,
}

-- One of the listed names has the slug of `name`.
abbrev pub Names : Runtime → List Text → Text → Type 0
Names rt [] name = ⊥
Names rt (w ∷ ws) name = (slugify rt w ≡ slugify rt name) ⊎ Names rt ws name

abbrev pub Grants : Runtime → WorkspaceAccess → Option Text → Type 0
Grants rt all_workspaces ws = Unit
Grants rt (only names) none = ⊥
Grants rt (only names) (some ws) = Names rt names ws

any_iff :
    (rt : Runtime) (names : List Text) (ws : Text)
    → (any (λ w. text_beq (slugify rt w) (slugify rt ws)) names ≡ true) ↔ Names rt names ws
any_iff rt [] ws = ((λ h. cc), λ h. absurd h)
any_iff rt (w ∷ names) ws =
    ground (arith, any_iff rt names ws, text_beq_iff (slugify rt w) (slugify rt ws))

allows_iff :
    (rt : Runtime) (access : WorkspaceAccess) (ws : Option Text) (role : Role) (p : Principal)
    → p.role ≡ role
    → p.workspaces ≡ access
    → (can_view_project rt p ws ≡ true) ↔ ((p.role ≡ admin) ⊎ Grants rt access ws)
unfolding can_view_project
allows_iff rt access ws admin p r a = ground arith
allows_iff rt all_workspaces ws role p r a = ground arith
allows_iff rt (only names) none role p r a = ground arith
allows_iff rt (only names) (some ws) role p r a = ground (arith, any_iff rt names ws)

-- A project is visible exactly to admins, to holders of an explicit grant of all workspaces, and to
-- those who hold a workspace with the slug of the project's; a project without a workspace is
-- visible to the first two only, and an empty list of workspaces shows nothing.
pub can_view_project_iff :
    (rt : Runtime) (p : Principal) (ws : Option Text)
    → (can_view_project rt p ws ≡ true) ↔ ((p.role ≡ admin) ⊎ Grants rt p.workspaces ws)
can_view_project_iff rt p ws = allows_iff rt p.workspaces ws p.role p refl refl

-- Every right implies the weaker ones: deleting implies editing and viewing, editing and creating
-- imply viewing, approving implies viewing, bulk linking implies linking, which implies viewing
-- the reports; and a viewer holds none of the rights that change anything.
pub rights_nested :
    (rt : Runtime) (p : Principal) (ws : Option Text) (department : Text)
    → (can_delete_project p ws ≡ true → can_edit_project rt p ws ≡ true)
      × (can_edit_project rt p ws ≡ true → can_view_project rt p ws ≡ true)
      × (can_create_project rt p ws ≡ can_edit_project rt p ws)
      × (can_approve_review rt p ws department ≡ true → can_edit_project rt p ws ≡ true)
      × (can_bulk_link p ≡ true → can_link_pruefberichte p ≡ true)
      × (can_link_pruefberichte p ≡ true → can_view_pruefberichte p ≡ true)
      × (p.role ≡ viewer
          → (can_edit_project rt p ws ≡ false)
            × (can_approve_review rt p ws department ≡ false)
            × (can_delete_project p ws ≡ false)
            × (can_link_pruefberichte p ≡ false)
            × (can_import_register p ≡ false)
            × (can_manage_users p ≡ false))
unfolding can_edit_project can_create_project can_approve_review can_edit_department
    can_delete_project can_bulk_link can_link_pruefberichte can_view_pruefberichte
    can_import_register can_manage_users can_view_project
rights_nested rt p ws department = ground arith
