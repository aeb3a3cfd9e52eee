-- ===== src/Examples/Access.antt =====
-- Rights and channels of two principals of one workspace.
use bahn_project_manager.Prelude.{◌≡◌, refl, ◌↔◌, ◌⊎◌, true, All, arith, codes}
use bahn_project_manager.Runtime.{plain_runtime}
use bahn_project_manager.Event.Scopes.{scopes_for_event}
use bahn_project_manager.Permissions.{admin, can_view_project}
use bahn_project_manager.Permissions.Rules.{Grants, can_view_project_iff}
use bahn_project_manager.Permissions.Monotone.{IsAtMost, Includes, rights_monotone}
use bahn_project_manager.Permissions.Channels.{scopes_for_event-Covers, Covers}
use bahn_project_manager.Examples.{anna, bert, ulm, into_ulm}

can_view_project_iff_example :
    (can_view_project plain_runtime anna ulm ≡ true)
    ↔ ((anna.role ≡ admin) ⊎ Grants plain_runtime anna.workspaces ulm)
can_view_project_iff_example = can_view_project_iff plain_runtime anna ulm

abbrev bert_at_most_anna : IsAtMost bert anna
bert_at_most_anna = record {
  role_le = omega arith;
  workspaces_le = (refl, tt);
  departments_le = (refl, tt);
}

rights_monotone_example : Includes plain_runtime bert anna ulm (codes "ITK")
rights_monotone_example =
    rights_monotone plain_runtime bert anna ulm (codes "ITK") bert_at_most_anna

scopes_for_event-Covers_example :
    All (Covers plain_runtime anna into_ulm) (scopes_for_event plain_runtime into_ulm)
scopes_for_event-Covers_example = scopes_for_event-Covers plain_runtime anna into_ulm refl
