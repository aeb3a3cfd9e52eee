-- ===== src/Examples/Notices.antt =====
-- The notifications of an update and of a submission.
use bahn_project_manager.Prelude.{◌↔◌, none, some, [], ◌∷◌, In, codes}
use bahn_project_manager.Runtime.{plain_runtime}
use bahn_project_manager.Event.{DomainEvent}
use bahn_project_manager.Notification.{NotifiedProject}
use bahn_project_manager.Notification.Departments.{
  GrantHolder, SubmittedWork, WorkLabel, notification_for, plan_department_notifications,
}
use bahn_project_manager.Notification.Recipients.{PlannedFor, recipients_iff}
use bahn_project_manager.Examples.{anna, ulm, in_ulm}

abbrev stopped : DomainEvent
stopped = record in_ulm {
  changes =
      (codes "projektstand", record { from = some (codes "EP"); to = some (codes "Gestoppt") })
      ∷ [];
}

abbrev notified : NotifiedProject
notified = record { id = 1; projektnummer = none; station = some (codes "Ulm Hbf") }

abbrev holder : GrantHolder
holder = record {
  principal_id = anna.id;
  grant = record { role = anna.role; workspaces = anna.workspaces; departments = anna.departments };
}

abbrev work : SubmittedWork
work = record { checklist_id = 3; project_id = 1; workspace = ulm; departments = codes "ITK" ∷ [] }

abbrev work_label : WorkLabel
work_label = record { station = none; projektnummer = none; actor_name = none }

recipients_iff_example :
    In
      (notification_for plain_runtime work work_label (codes "ITK") holder)
      (plan_department_notifications plain_runtime work (holder ∷ []) [] (codes "1") work_label)
    ↔ PlannedFor plain_runtime work
        (holder ∷ [])
        []
        (codes "1")
        work_label
        work.departments
        (notification_for plain_runtime work work_label (codes "ITK") holder)
recipients_iff_example =
    recipients_iff plain_runtime work (holder ∷ []) [] (codes "1") work_label
      (notification_for plain_runtime work work_label (codes "ITK") holder)
