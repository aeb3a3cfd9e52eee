-- ===== src/Permissions/Monotone.antt =====
-- server/domain/permissions.ts: the rights of two principals of whom one is granted at least what the
-- other is.
use bahn_project_manager.Prelude.{
  ℕ, ◌≤◌, ◌≡◌, refl, inl, inr, Bool, true, Option, none, some, List, [], ◌∷◌, arith, any, All, Text,
  text_beq, text_beq_iff, Bool-cases,
}
use bahn_project_manager.Runtime.{Runtime}
use bahn_project_manager.Event.Slug.{slugify}
use bahn_project_manager.Permissions.{
  Role, admin, editor, viewer, WorkspaceAccess, all_workspaces, only, Principal, can_view_project,
  can_edit_project, can_create_project, can_edit_department, can_approve_review, can_delete_project,
  can_view_audit, can_view_pruefberichte, can_import_pruefberichte, can_link_pruefberichte,
  can_bulk_link, can_import_register, can_export, can_manage_users,
}

abbrev pub rank : Role → ℕ
rank viewer = 0
rank editor = 1
rank admin = 2

abbrev pub Subset : List Text → List Text → Type 0
Subset xs ys = All (λ x. any (text_beq x) ys ≡ true) xs

abbrev pub Widens : WorkspaceAccess → WorkspaceAccess → Type 0
Widens access all_workspaces = Unit
Widens all_workspaces (only ys) = ⊥
Widens (only xs) (only ys) = Subset xs ys

-- `q` has at least the role, the workspaces and the departments of `p`.
pub record IsAtMost (p q : Principal) : Type 0 where
  pub role_le : rank p.role ≤ rank q.role
  pub workspaces_le : Widens p.workspaces q.workspaces
  pub departments_le : Subset p.departments q.departments

-- A member keeps its Boolean property in a larger list.
any-mem :
    (f : Text → Bool) (x : Text) (ys : List Text)
    → f x ≡ true
    → any (text_beq x) ys ≡ true
    → any f ys ≡ true
any-mem f x [] h m = cc
any-mem f x (y ∷ ys) h m = elim (Bool-cases (text_beq x y)) [
  | inl e ↦ let same : x ≡ y = (text_beq_iff x y).0 e in rw (← same, h)
  | inr e ↦ ground (arith, any-mem f x ys h)
]

any-Subset :
    (f : Text → Bool) (xs ys : List Text) → Subset xs ys → any f xs ≡ true → any f ys ≡ true
any-Subset f [] ys s h = cc
any-Subset f (x ∷ xs) ys (m, s) h = elim (Bool-cases (f x)) [
  | inl e ↦ any-mem f x ys e m
  | inr e ↦ any-Subset f xs ys s (ground arith)
]

view_mono :
    (rt : Runtime) (p q : Principal) (ws : Option Text)
    → (a b : WorkspaceAccess) → p.workspaces ≡ a
    → q.workspaces ≡ b
    → Widens a b
    → rank p.role ≤ rank q.role
    → can_view_project rt p ws ≡ true
    → can_view_project rt q ws ≡ true
unfolding can_view_project
view_mono rt p q ws a all_workspaces ea eb w r h = ground arith
view_mono rt p q ws all_workspaces (only ys) ea eb w r h = absurd w
view_mono rt p q none (only xs) (only ys) ea eb w r h = ground arith
view_mono rt p q (some ws) (only xs) (only ys) ea eb w r h =
    ground (arith, any-Subset (λ x. text_beq (slugify rt x) (slugify rt ws)) xs ys w)

link_mono :
    (p q : Principal) (a b : WorkspaceAccess)
    → p.workspaces ≡ a
    → q.workspaces ≡ b
    → Widens a b
    → rank p.role ≤ rank q.role
    → can_link_pruefberichte p ≡ true
    → can_link_pruefberichte q ≡ true
unfolding can_link_pruefberichte
link_mono p q a all_workspaces ea eb w r h = ground arith
link_mono p q all_workspaces (only ys) ea eb w r h = absurd w
link_mono p q (only xs) (only ys) ea eb w r h = ground arith

reports_mono :
    (p q : Principal) (a b : WorkspaceAccess)
    → p.workspaces ≡ a
    → q.workspaces ≡ b
    → Widens a b
    → rank p.role ≤ rank q.role
    → can_view_pruefberichte p ≡ true
    → can_view_pruefberichte q ≡ true
unfolding can_view_pruefberichte
reports_mono p q a all_workspaces ea eb w r h = ground arith
reports_mono p q all_workspaces (only ys) ea eb w r h = absurd w
reports_mono p q (only xs) (only ys) ea eb w r h = ground arith

-- The rights of `q` include those of `p` on a workspace and on a department.
pub record Includes (rt : Runtime) (p q : Principal) (ws : Option Text) (department : Text)
    : Type 0 where
  pub view : can_view_project rt p ws ≡ true → can_view_project rt q ws ≡ true
  pub edit : can_edit_project rt p ws ≡ true → can_edit_project rt q ws ≡ true
  pub create : can_create_project rt p ws ≡ true → can_create_project rt q ws ≡ true
  pub delete : can_delete_project p ws ≡ true → can_delete_project q ws ≡ true
  pub decide :
      can_edit_department rt p department ≡ true → can_edit_department rt q department ≡ true
  pub approve :
      can_approve_review rt p ws department ≡ true → can_approve_review rt q ws department ≡ true
  pub audit : can_view_audit p ≡ true → can_view_audit q ≡ true
  pub export : can_export p ≡ true → can_export q ≡ true
  pub reports : can_view_pruefberichte p ≡ true → can_view_pruefberichte q ≡ true
  pub import_reports : can_import_pruefberichte p ≡ true → can_import_pruefberichte q ≡ true
  pub link : can_link_pruefberichte p ≡ true → can_link_pruefberichte q ≡ true
  pub bulk_link : can_bulk_link p ≡ true → can_bulk_link q ≡ true
  pub import_register : can_import_register p ≡ true → can_import_register q ≡ true
  pub manage : can_manage_users p ≡ true → can_manage_users q ≡ true

-- Rights only grow with the grant: whoever has at least the role, the workspaces and the departments
-- of another may view, edit, create and delete projects, edit departments, approve, audit, export,
-- view, import and link reports, import registers and manage users at least as much.
pub rights_monotone :
    (rt : Runtime) (p q : Principal) (ws : Option Text) (department : Text)
    → IsAtMost p q
    → Includes rt p q ws department
unfolding can_edit_project can_create_project can_approve_review can_edit_department
    can_delete_project can_view_audit can_export can_import_pruefberichte can_bulk_link
    can_import_register can_manage_users
rights_monotone rt p q ws department le =
    let sees =
      view_mono rt p q ws p.workspaces q.workspaces refl refl le.workspaces_le le.role_le in
    let named =
      any-Subset (λ d. text_beq (rt.to_upper d) (rt.to_upper department)) p.departments
        q.departments le.departments_le in
    let higher = le.role_le in
    record {
      view = sees;
      edit = ground (arith, sees, higher);
      create = ground (arith, sees, higher);
      delete = ground (arith, higher);
      decide = ground (arith, named, higher);
      approve = ground (arith, sees, named, higher);
      audit = ground (arith, higher);
      export = ground (arith, higher);
      reports = reports_mono p q p.workspaces q.workspaces refl refl le.workspaces_le le.role_le;
      import_reports = ground (arith, higher);
      link = link_mono p q p.workspaces q.workspaces refl refl le.workspaces_le le.role_le;
      bulk_link = ground (arith, higher);
      import_register = ground (arith, higher);
      manage = ground (arith, higher);
    }
