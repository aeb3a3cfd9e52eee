-- ===== src/Examples/Delivery.antt =====
-- Events on their way to a principal of one workspace.
use bahn_project_manager.Prelude.{◌≡◌, ◌≢◌, refl, ◌↔◌, true, false, none, some, codes, arith, ap}
use bahn_project_manager.Runtime.{plain_runtime}
use bahn_project_manager.Event.{
  DomainEvent, project, booking, notification, project_updated, booking_updated,
  notification_created,
}
use bahn_project_manager.Event.Slug.{slugify}
use bahn_project_manager.Permissions.{can_view_project}
use bahn_project_manager.Visibility.{event_for_principal}
use bahn_project_manager.Visibility.Safety.{
  WithoutHistory, SaysRemoved, OnlyStatus, SeesOld, unseen_not_delivered, delivered_hides_old,
  delivered_hides_new, booking_redacted, update_whole_iff,
}
use bahn_project_manager.Examples.{anna, ulm, bonn, event_of, into_ulm, out_of_ulm}

abbrev in_bonn : DomainEvent
in_bonn = event_of project project_updated bonn none

abbrev slot_in_bonn : DomainEvent
slot_in_bonn = event_of booking booking_updated bonn none

abbrev message : DomainEvent
message = event_of notification notification_created ulm none

not_bonn : can_view_project plain_runtime anna bonn ≡ false
unfolding can_view_project slugify
not_bonn = refl

not_nowhere : can_view_project plain_runtime anna none ≡ false
unfolding can_view_project slugify
not_nowhere = refl

sees_ulm : can_view_project plain_runtime anna ulm ≡ true
unfolding can_view_project slugify
sees_ulm = refl

unseen_not_delivered_example : event_for_principal plain_runtime anna in_bonn ≡ none
unseen_not_delivered_example =
    unseen_not_delivered plain_runtime anna in_bonn refl not_bonn not_nowhere

delivered_hides_old_example :
    (d : DomainEvent) × (event_for_principal plain_runtime anna into_ulm ≡ some d)
    × WithoutHistory into_ulm d
delivered_hides_old_example =
    delivered_hides_old plain_runtime anna into_ulm (codes "bonn") refl refl refl sees_ulm not_bonn

delivered_hides_new_example :
    (d : DomainEvent) × (event_for_principal plain_runtime anna out_of_ulm ≡ some d)
    × SaysRemoved (codes "ulm") out_of_ulm d
delivered_hides_new_example =
    delivered_hides_new plain_runtime anna out_of_ulm (codes "ulm") refl refl refl not_bonn sees_ulm

booking_redacted_example :
    (d : DomainEvent) × (event_for_principal plain_runtime anna slot_in_bonn ≡ some d)
    × OnlyStatus slot_in_bonn d
booking_redacted_example = booking_redacted plain_runtime anna slot_in_bonn refl not_bonn

not_hidden : into_ulm.context.workspace_before ≢ some (codes "*")
not_hidden e = ground (arith, ap (λ w. w) e)

update_whole_iff_example : (event_for_principal plain_runtime anna into_ulm ≡ some into_ulm) ↔ (
    (can_view_project plain_runtime anna into_ulm.context.workspace ≡ true)
    × SeesOld plain_runtime anna into_ulm.context.workspace_before)
update_whole_iff_example = update_whole_iff plain_runtime anna into_ulm refl refl not_hidden
