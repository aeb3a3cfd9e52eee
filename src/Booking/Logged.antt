-- ===== src/Booking/Logged.antt =====
-- server/domain/bookingService.ts: what a transition of a slot leaves in the audit log and among the
-- events, against the columns of the two rows.
use mathlib.Core.Option
use bahn_project_manager.Prelude.{
  ℕ, ◌+◌, ◌≡◌, ◌≢◌, refl, sym, subst, ap, ◌∙◌, ◌⊎◌, ◌↔◌, inl, inr, Option, none, some, List, [],
  ◌∷◌, ◌++◌, All, In, map, arith, Text, codes, opt_text_beq, opt_text_beq_iff, Bool-cases,
}
use bahn_project_manager.Event.{DomainEvent, Changes, FieldChange, booking, booking_updated}
use bahn_project_manager.Permissions.{Principal}
use bahn_project_manager.Store.{Db, AuditRow, booking_entity, update}
use bahn_project_manager.Store.Log.{event_row}
use bahn_project_manager.Service.{user_name}
use bahn_project_manager.Booking.Contract.{status_text}
use bahn_project_manager.Booking.{ScheduleSlot, BookingEnv, slot_fields, slot_diff}
use bahn_project_manager.Booking.Operations.{slot_event, slot_audit}

-- The tables of the log once a transition is in them.
abbrev pub logged_db : BookingEnv → Principal → DomainEvent → Db → Db
logged_db b p e db = record db {
  issued = db.issued + 1;
  audit = db.audit ++ slot_audit b p e e.changes;
  events = db.events ++ event_row b.env.rt e ∷ [];
}

-- The columns of a slot that are logged, as texts.
abbrev pub columns : BookingEnv → List (Text × (ScheduleSlot → Option Text))
columns b =
    (codes "status", λ r. some (status_text r.status))
    ∷ (codes "station", λ r. r.details.station)
    ∷ (codes "projektleitung", λ r. r.details.projektleitung)
    ∷ (codes "projektstand", λ r. r.details.projektstand)
    ∷ (codes "info", λ r. r.details.info)
    ∷ (codes "hinweis", λ r. r.details.hinweis)
    ∷ (codes "projectId", λ r. Option.map b.env.rt.string_of r.details.project_id)
    ∷ (codes "bahnhofsmanagement", λ r. r.details.bahnhofsmanagement)
    ∷ []

-- A column in which two rows differ, with its two values.
abbrev pub DiffersIn :
    List (Text × (ScheduleSlot → Option Text))
    → ScheduleSlot
    → ScheduleSlot
    → Text × FieldChange
    → Type 0
DiffersIn [] old new c = ⊥
DiffersIn ((f, column) ∷ more) old new c =
    ((c.0 ≡ f) × (c.1.from ≡ column old) × (c.1.to ≡ column new) × (column old ≢ column new))
    ⊎ DiffersIn more old new c

change_eq :
    (c : Text × FieldChange) (f : Text) (a z : Option Text)
    → c.0 ≡ f
    → c.1.from ≡ a
    → c.1.to ≡ z
    → c ≡ (f, record { from = a; to = z })
change_eq c f a z name from to =
    ap (λ (x : Text). (x, c.1)) name
    ∙ ap (λ (x : Option Text). (f, record { from = x; to = c.1.to })) from
    ∙ ap (λ (x : Option Text). (f, record { from = a; to = x })) to

slot_diff-DiffersIn :
    (cols : List (Text × (ScheduleSlot → Option Text))) (old new : ScheduleSlot)
    (c : Text × FieldChange)
    → In c (slot_diff (map (λ k. (k.0, k.1 old)) cols) (map (λ k. (k.0, k.1 new)) cols))
      ↔ DiffersIn cols old new c
unfolding slot_diff
slot_diff-DiffersIn [] old new c = (λ i. i, λ d. d)
slot_diff-DiffersIn ((f, column) ∷ more) old new c =
    let rest = slot_diff-DiffersIn more old new c in
    elim (Bool-cases (opt_text_beq (column old) (column new))) [
      | inl e ↦ rw e (
        λ i. inr (rest.0 i),
        λ d. elim d [
          | inl (_, _, _, n) ↦ absurd (n ((opt_text_beq_iff (column old) (column new)).0 e))
          | inr later ↦ rest.1 later
        ],
      )
      | inr e ↦ rw e (
        λ i. elim i [
          | inl same ↦ inl (
            ap (λ k. k.0) same,
            ap (λ k. k.1.from) same,
            ap (λ k. k.1.to) same,
            λ q. ground (arith, e, (opt_text_beq_iff (column old) (column new)).1 q),
          )
          | inr later ↦ inr (rest.0 later)
        ],
        λ d. elim d [
          | inl (n, a, z, _) ↦ inl (change_eq c f (column old) (column new) n a z)
          | inr later ↦ inr (rest.1 later)
        ],
      )
    ]

-- The field and the values of an audit row, and what they are to be for given changes.
abbrev pub row_values : AuditRow → Option Text × Option Text × Option Text
row_values row = (row.field, row.old_value, row.new_value)

abbrev pub audited : Changes → List (Option Text × Option Text × Option Text)
audited [] = (none, none, none) ∷ []
audited (c ∷ cs) = map (λ d. (some d.0, d.1.from, d.1.to)) (c ∷ cs)

-- An audit row that belongs to an event of a slot.
abbrev pub RowOf : Principal → DomainEvent → AuditRow → Type 0
RowOf p e row =
    (row.entity ≡ booking_entity)
    × (row.action ≡ update)
    × (row.event_id ≡ e.event_id)
    × (row.aggregate_version ≡ some e.aggregate_version)
    × (row.workspace ≡ e.context.workspace)
    × (row.user_name ≡ user_name p)

-- What a transition of a slot from `old` to `new` leaves in the logs: one event of that slot at its
-- next version, whose changes are the columns that differ, and an audit row for each of them, or one
-- row without a field if there are none.
pub record Logged (b : BookingEnv) (p : Principal) (workspace : Option Text)
    (old new : ScheduleSlot) (e : DomainEvent) (before after : Db) : Type 0 where
  pub kind : (e.aggregate_type ≡ booking) × (e.event_type ≡ booking_updated)
  pub slot_id : e.aggregate_id ≡ b.env.rt.string_of old.id
  pub version : e.aggregate_version ≡ old.sync_version + 1
  pub actor : (e.actor_id ≡ p.id) × (e.actor_name ≡ p.name)
  pub placed : e.context.workspace ≡ workspace
  pub differences : (c : Text × FieldChange) → In c e.changes ↔ DiffersIn (columns b) old new c
  pub rows : List AuditRow
  pub audit_eq : after.audit ≡ before.audit ++ rows
  pub rows_of : All (RowOf p e) rows
  pub values_eq : map row_values rows ≡ audited e.changes
  pub events_eq :
      after.events
      ≡ before.events ++ record { aggregate = b.env.rt.number_of e.aggregate_id; event = e } ∷ []

audit_of_changes :
    (p : Principal) (e : DomainEvent) (f : Text × FieldChange → AuditRow) (cs : Changes)
    → ((c : Text × FieldChange) → RowOf p e (f c))
    → ((c : Text × FieldChange) → row_values (f c) ≡ (some c.0, c.1.from, c.1.to))
    → All (RowOf p e) (map f cs)
      × (map row_values (map f cs) ≡ map (λ d. (some d.0, d.1.from, d.1.to)) cs)
audit_of_changes p e f [] h k = (tt, refl)
audit_of_changes p e f (c ∷ cs) h k =
    let rest = audit_of_changes p e f cs h k in ((h c, rest.0), ground (arith, k c, rest.1))

slot_audit-RowOf :
    (b : BookingEnv) (p : Principal) (e : DomainEvent) (cs : Changes)
    → All (RowOf p e) (slot_audit b p e cs) × (map row_values (slot_audit b p e cs) ≡ audited cs)
unfolding slot_audit
slot_audit-RowOf b p e [] = (((refl, refl, refl, refl, refl, refl), tt), refl)
slot_audit-RowOf b p e (c ∷ cs) =
    audit_of_changes p e _ (c ∷ cs) (λ d. (refl, refl, refl, refl, refl, refl)) (λ d. refl)

fields_columns :
    (b : BookingEnv) (r : ScheduleSlot) → slot_fields b r ≡ map (λ k. (k.0, k.1 r)) (columns b)
unfolding slot_fields
fields_columns b r = refl

slot_event-Logged :
    (b : BookingEnv) (p : Principal) (trace : Text) (workspace : Option Text)
    (old new : ScheduleSlot) (drawn : ℕ) (db : Db)
    → let e =
        slot_event b p trace old.id
          (old.sync_version + 1)
          (slot_diff (slot_fields b old) (slot_fields b new))
          workspace
          drawn in
      Logged b p workspace old new e db (logged_db b p e db)
unfolding slot_event
slot_event-Logged b p trace workspace old new drawn db =
    let cs = slot_diff (slot_fields b old) (slot_fields b new) in
    let e = slot_event b p trace old.id (old.sync_version + 1) cs workspace drawn in
    let rows = slot_audit-RowOf b p e cs in
    record {
      kind = (refl, refl);
      slot_id = refl;
      version = refl;
      actor = (refl, refl);
      placed = refl;
      differences = λ c.
          rw (fields_columns b old, fields_columns b new)
            (slot_diff-DiffersIn (columns b) old new c);
      rows = slot_audit b p e cs;
      audit_eq = refl;
      rows_of = rows.0;
      values_eq = rows.1;
      events_eq = refl;
    }

-- The same for the event and the tables that a transition ends with.
pub Logged-of :
    (b : BookingEnv) (p : Principal) (trace : Text) (workspace : Option Text)
    (old new : ScheduleSlot) (drawn : ℕ) (db after : Db) (e : DomainEvent)
    → e
      ≡ slot_event b p trace old.id
          (old.sync_version + 1)
          (slot_diff (slot_fields b old) (slot_fields b new))
          workspace
          drawn
    → after ≡ logged_db b p e db
    → Logged b p workspace old new e db after
Logged-of b p trace workspace old new drawn db after e is_e is_after =
    subst (Logged b p workspace old new e db) (sym is_after) (
      subst (λ d. Logged b p workspace old new d db (logged_db b p d db)) (sym is_e)
        (slot_event-Logged b p trace workspace old new drawn db))
