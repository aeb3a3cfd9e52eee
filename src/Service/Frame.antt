-- ===== src/Service/Frame.antt =====
-- server/domain/projectService.ts: what the notifications of a write leave alone, and what the
-- shared end of a write (`publish`) does to the log.
use bahn_project_manager.Prelude.{
  ℕ, ◌+◌, ◌≡◌, refl, ap, false, ◌&&◌, Option, none, some, List, [], ◌∷◌, ◌++◌, Text, codes,
  text_beq, any, Bool-cases, Option-cases, inl, inr,
}
use bahn_project_manager.Event.{DomainEvent, Changes}
use bahn_project_manager.Permissions.{Principal}
use bahn_project_manager.Store.{
  Db, NotificationRow, ProjectRow, ok, insert_notification, append_event, append_audit, update,
  MutationResult,
}
use bahn_project_manager.Store.Log.{
  bind-ok, ok-injective, Keeps, Keeps-self, Keeps-trans, append_event-Keeps, append_event-ok,
  event_row, versions,
}
use bahn_project_manager.Service.{
  Env, Planned, notification_event, announce, notification_row, notify_one, notify_each,
  notify_watchers, column, audit_rows, label_of,
}
use bahn_project_manager.Service.Write.{publish}

insert_notification-Keeps :
    (row : NotificationRow) (db : Db) → Keeps db (insert_notification row db).0
unfolding insert_notification
insert_notification-Keeps row db =
    elim (Bool-cases (
      any (λ r. text_beq r.user_id row.user_id && text_beq r.dedup_key row.dedup_key)
        db.notifications)) [
          | inl b ↦ rw b (Keeps-self db)
          | inr b ↦ rw b (record {
            projects_eq = refl;
            keys_eq = refl;
            next_eq = refl;
            versions_eq = λ id. refl;
          })
        ]

announce-Keeps :
    (env : Env) (p : Principal) (e : DomainEvent) (plan : Planned) (user : Text) (db db' : Db)
    (n : Option ℕ)
    → announce env p e plan user (db, n) ≡ ok db'
    → Keeps db db'
unfolding notification_event
announce-Keeps env p e plan user db db' none h = rw (← ok-injective db db' h) (Keeps-self db)
announce-Keeps env p e plan user db db' (some n) h =
    Keeps-trans db (record db { issued = db.issued + 1 }) db'
      (record { projects_eq = refl; keys_eq = refl; next_eq = refl; versions_eq = λ id. refl })
      (append_event-Keeps env.rt (notification_event env p e plan user n db.issued) _ db' refl h)

notify_one-Keeps :
    (env : Env) (p : Principal) (e : DomainEvent) (plan : Planned) (user : Text) (db db' : Db)
    → notify_one env p e plan user db ≡ ok db'
    → Keeps db db'
unfolding notify_one
notify_one-Keeps env p e plan user db db' h =
    let stored = insert_notification (notification_row e plan user) db in
    elim (Bool-cases (text_beq user p.id)) [
      | inl b ↦ rw (← ok-injective db db' (rw (b, notify_one) at h)) (Keeps-self db)
      | inr b ↦
          Keeps-trans db stored.0 db' (insert_notification-Keeps (notification_row e plan user) db)
            (announce-Keeps env p e plan user stored.0 db' stored.1 (rw (b, notify_one) at h))
    ]

notify_each-Keeps :
    (env : Env) (p : Principal) (e : DomainEvent) (plan : Planned) (users : List Text) (db db' : Db)
    → notify_each env p e plan users db ≡ ok db'
    → Keeps db db'
unfolding notify_each
notify_each-Keeps env p e plan [] db db' h = rw (← ok-injective db db' h) (Keeps-self db)
notify_each-Keeps env p e plan (user ∷ users) db db' h =
    let (mid, one, more) = bind-ok (notify_one env p e plan user db) _ db' h in
    Keeps-trans db mid db' (notify_one-Keeps env p e plan user db mid one)
      (notify_each-Keeps env p e plan users mid db' more)

-- The notifications of a write leave the projects, the keys and the versions of projects alone.
pub notify_watchers-Keeps :
    (env : Env) (p : Principal) (e : DomainEvent) (id : ℕ) (nummer station : Option Text)
    (db db' : Db)
    → notify_watchers env p e id nummer station db ≡ ok db'
    → Keeps db db'
unfolding notify_watchers
notify_watchers-Keeps env p e id nummer station db db' h =
    elim (Option-cases (env.plan e id nummer station)) [
      | inl n ↦ rw (← ok-injective db db' (rw (n, notify_watchers) at h)) (Keeps-self db)
      | inr (plan, n) ↦ notify_each-Keeps env p e plan _ db db' (rw (n, notify_watchers) at h)
    ]

-- The end of a write that succeeds: the event is the one event of a project that enters the log,
-- the projects and keys stay, and the answer is fresh.
pub publish-Keeps :
    (env : Env) (p : Principal) (e : DomainEvent) (id : ℕ) (current : ProjectRow)
    → (changes : Changes) (station : Option Text) (db : Db) (r : MutationResult × Db)
    → publish env p e id current changes station db ≡ ok r
    → Keeps (record db { events = db.events ++ event_row env.rt e ∷ [] }) r.1
      × (r.0.replayed ≡ false)
unfolding publish append_audit
publish-Keeps env p e id current changes station db r h =
    let nummer = column (codes "projektnummer") current.fields in
    let rows = audit_rows env p e update changes (label_of env station nummer) none in
    let start = append_audit rows (record db { issued = db.issued + 1 }) in
    let (logged, one, rest) = bind-ok (append_event env.rt e start) _ r h in
    let (told, two, rest') = bind-ok (notify_watchers env p e id nummer station logged) _ r rest in
    let same = append_event-ok env.rt e start logged one in
    let answer = ok-injective _ r rest' in
    (
      rw (← answer) (
          Keeps-trans _ logged told
            (record {
              projects_eq = ap (λ d. d.projects) same;
              keys_eq = ap (λ d. d.keys) same;
              next_eq = ap (λ d. d.next_project) same;
              versions_eq = λ i. ap (λ d. versions i d.events) same;
            })
            (notify_watchers-Keeps env p e id nummer station logged told two)),
      rw (← answer),
    )
