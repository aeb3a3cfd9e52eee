-- ===== src/Notification/Departments.antt =====
-- server/domain/departmentNotifications.ts: who is notified when a Projektanmeldung is submitted. The
-- grants of the holders are those at the time of delivery.
use bahn_project_manager.Prelude.{
  ℕ, Bool, true, false, not, Option, none, some, List, [], ◌∷◌, ◌++◌, take, if◌then◌else◌, get, put,
  text_eq, Text, codes, text_beq,
}
use bahn_project_manager.Runtime.{Runtime}
use bahn_project_manager.Permissions.{
  Principal, Role, admin, editor, viewer, WorkspaceAccess, names_department, can_view_project,
}
use bahn_project_manager.Service.{or_text}
use bahn_project_manager.Notification.{NotificationKind, assignment, actor_label}

-- The part of a principal that its grant carries.
pub record Grant : Type 0 where
  pub role : Role
  pub workspaces : WorkspaceAccess
  pub departments : List Text

pub record SubscriptionRow : Type 0 where
  pub user_id : Text
  pub department : Text
  pub enabled : Bool

pub record GrantHolder : Type 0 where
  pub principal_id : Text
  pub grant : Grant

-- `eligibleForDepartment`.
abbrev pub eligible_as : Runtime → List Text → Text → Role → Bool
eligible_as rt departments department admin = true
eligible_as rt departments department editor = names_department rt departments department
eligible_as rt departments department viewer = false

unfoldable pub eligible_for_department : Runtime → Grant → Text → Bool
eligible_for_department rt g department = eligible_as rt g.departments department g.role

-- `defaultSubscribed`.
abbrev pub default_as : Runtime → List Text → Text → Role → Bool
default_as rt departments department admin = false
default_as rt departments department editor = names_department rt departments department
default_as rt departments department viewer = false

unfoldable pub default_subscribed : Runtime → Grant → Text → Bool
default_subscribed rt g department = default_as rt g.departments department g.role

-- `isSubscribed`.
unfoldable pub is_subscribed : Runtime → Grant → Text → Option SubscriptionRow → Bool
unfolding default_subscribed
is_subscribed rt g department none = default_subscribed rt g department
is_subscribed rt g department (some row) = row.enabled

pub record SubmittedWork : Type 0 where
  pub checklist_id : ℕ
  pub project_id : ℕ
  pub workspace : Option Text
  pub departments : List Text

abbrev is_offen : Option Text → Bool
is_offen none = false
is_offen (some s) = text_beq s (codes "offen")

-- `departmentsWithWork`, of departments with the statuses of their reviews.
unfoldable pub departments_with_work : List (Text × Option Text) → List Text
departments_with_work [] = []
departments_with_work ((department, s) ∷ reviews) =
    let rest = departments_with_work reviews in if is_offen s then department ∷ rest else rest

pub record DepartmentNotification : Type 0 where
  pub user_id : Text
  pub department : Text
  pub dedup_key : Text
  pub kind : NotificationKind
  pub title : Text
  pub body : Text
  pub link : Text
  pub workspace : Option Text

-- `dedupKeyFor`.
unfoldable pub dedup_key_for : Runtime → ℕ → Text → Text
dedup_key_for rt checklist department =
    codes "checklist.submitted:" ++ (rt.string_of checklist ++ (b':' ∷ department))

pub record WorkLabel : Type 0 where
  pub station : Option Text
  pub projektnummer : Option Text
  pub actor_name : Option Text

abbrev in_workspace : Option Text → Text
in_workspace none = []
in_workspace (some []) = []
in_workspace (some (c ∷ s)) = codes " (" ++ ((c ∷ s) ++ codes ")")

abbrev pub notification_for :
    Runtime → SubmittedWork → WorkLabel → Text → GrantHolder → DepartmentNotification
notification_for rt work label department h =
    let name =
      or_text label.station
        (or_text label.projektnummer (codes "Projekt " ++ rt.string_of work.project_id)) in
    record {
      user_id = h.principal_id;
      department = department;
      dedup_key = dedup_key_for rt work.checklist_id department;
      kind = assignment;
      title = take 256 (department ++ (codes ": neue Projektanmeldung " ++ (8212 ∷ b' ' ∷ name)));
      body = take 1024 (
          actor_label label.actor_name
          ++ (codes " hat "
              ++ (name
                  ++ (in_workspace work.workspace
                      ++ (codes " angemeldet. F"
                          ++ (252 ∷ codes "r "
                              ++ (department
                                  ++ (codes " ist eine Pr" ++ (252 ∷ codes "fung offen.")))))))));
      link = codes "/projects?projekt=" ++ rt.string_of work.project_id;
      workspace = work.workspace;
    }

-- `${userId}|${department.toUpperCase()}`.
abbrev pub row_key : Runtime → Text → Text → Text
row_key rt user department = user ++ (b'|' ∷ rt.to_upper department)

-- `rowOf`: a later row takes the place of an earlier one.
unfoldable pub rows_by_key :
    Runtime → List SubscriptionRow → List (Text × SubscriptionRow) → List (Text × SubscriptionRow)
unfolding put
rows_by_key rt [] m = m
rows_by_key rt (r ∷ rows) m = rows_by_key rt rows (put (row_key rt r.user_id r.department) r m)

abbrev pub row_of : Runtime → List SubscriptionRow → Text → Text → Option SubscriptionRow
row_of rt rows user department = get (row_key rt user department) (rows_by_key rt rows [])

abbrev pub as_principal : GrantHolder → Principal
as_principal h = record {
  id = h.principal_id;
  name = none;
  email = none;
  role = h.grant.role;
  workspaces = h.grant.workspaces;
  departments = h.grant.departments;
}

-- The four tests of the loop, in their order.
unfoldable pub is_recipient :
    Runtime → SubmittedWork → List SubscriptionRow → Text → Text → GrantHolder → Bool
unfolding eligible_for_department can_view_project is_subscribed rows_by_key get
is_recipient rt work rows actor department h =
    if text_beq h.principal_id actor
    then false
    else if not (eligible_for_department rt h.grant department)
    then false
    else if not (can_view_project rt (as_principal h) work.workspace)
    then false
    else is_subscribed rt h.grant department (row_of rt rows h.principal_id department)

module _ (rt : Runtime) (work : SubmittedWork) (holders : List GrantHolder)
    (rows : List SubscriptionRow) (actor : Text) (label : WorkLabel) where
  unfoldable pub plan_for : Text → List GrantHolder → List DepartmentNotification
  unfolding is_recipient dedup_key_for
  plan_for department [] = []
  plan_for department (h ∷ hs) =
      let rest = plan_for department hs in
      if is_recipient rt work rows actor department h
      then notification_for rt work label department h ∷ rest
      else rest

  unfoldable pub plan_from : List Text → List DepartmentNotification
  unfolding plan_for
  plan_from [] = []
  plan_from (department ∷ more) = plan_for department holders ++ plan_from more

  -- `planDepartmentNotifications`.
  unfoldable pub plan_department_notifications : List DepartmentNotification
  unfolding plan_from
  plan_department_notifications = plan_from work.departments
