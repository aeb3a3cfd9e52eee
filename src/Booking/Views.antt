-- ===== src/Booking/Views.antt =====
-- server/domain/bookingService.ts: what `view` shows of a slot, and to whom.
use bahn_project_manager.Prelude.{◌≡◌, refl, true, false, not, ◌&&◌, ◌||◌, none, arith}
use bahn_project_manager.Permissions.{Principal, can_view_project}
use bahn_project_manager.Booking.Contract.{is_frei, SlotDto}
use bahn_project_manager.Booking.{ScheduleSlot, SlotDetails, BookingEnv, view, to_slot_dto}

-- Nothing is told of a booking but its time and its status.
abbrev pub HidesDetails : SlotDto → Type 0
HidesDetails d =
    (d.redacted ≡ true)
    × (d.station ≡ none)
    × (d.projektleitung ≡ none)
    × (d.projektstand ≡ none)
    × (d.info ≡ none)
    × (d.hinweis ≡ none)
    × (d.project_id ≡ none)

-- All columns are told as they are.
abbrev pub ShowsDetails : SlotDetails → SlotDto → Type 0
ShowsDetails e d =
    (d.redacted ≡ false)
    × (d.station ≡ e.station)
    × (d.projektleitung ≡ e.projektleitung)
    × (d.projektstand ≡ e.projektstand)
    × (d.info ≡ e.info)
    × (d.hinweis ≡ e.hinweis)
    × (d.project_id ≡ e.project_id)

-- Everyone sees the version and the status of a slot. Its details are shown when it is free or in a
-- workspace that the reader may see, and otherwise none of them is.
pub view_details :
    (b : BookingEnv) (p : Principal) (r : ScheduleSlot)
    → ((view b p r).status ≡ r.status)
      × ((view b p r).version ≡ r.sync_version)
      × ((is_frei r.status || can_view_project b.env.rt p r.details.bahnhofsmanagement) ≡ true
          → ShowsDetails r.details (view b p r))
      × ((is_frei r.status || can_view_project b.env.rt p r.details.bahnhofsmanagement) ≡ false
          → HidesDetails (view b p r))
unfolding view to_slot_dto
view_details b p r =
    let redacted =
      not (is_frei r.status) && not (can_view_project b.env.rt p r.details.bahnhofsmanagement) in
    (
      refl,
      refl,
      λ h.
          let e : redacted ≡ false = ground arith in
          rw e (refl, refl, refl, refl, refl, refl, refl),
      λ h.
          let e : redacted ≡ true = ground arith in rw e (refl, refl, refl, refl, refl, refl, refl),
    )
