-- ===== src/Store/Log.antt =====
-- The event log of server/infra/mysqlProjectStore.ts: what a statement does to the versions that
-- the log holds for each project, and to the rest of the tables.
use bahn_project_manager.Prelude.{
  ℕ, zero, suc, ◌+◌, ◌≡◌, ◌≢◌, ◌⊎◌, refl, sym, ap, subst, ◌∙◌, Bool, true, false, ◌&&◌, none, some,
  List, [], ◌∷◌, ◌++◌, any, arith, if◌then◌else◌, nat_beq, nat_beq_iff, Bool-cases, ◌≤◌, get, put,
  nat_eq, inl, inr, some-injective, get-put_self, get-put_ne, get-del_self, get-del_ne, del,
}
use bahn_project_manager.Runtime.{Runtime}
use bahn_project_manager.Event.{DomainEvent, project}
use bahn_project_manager.Store.{
  Db, EventRow, ProjectRow, Result, ok, err, ◌>>=◌, same_type, collides, append_event, Error,
}

abbrev ok_or {ℓ} : {A : Type ℓ} → A → Result A → A
ok_or d (ok a) = a
ok_or d (err e) = d

pub ok-injective {ℓ} : {A : Type ℓ} (a b : A) → ok a ≡ ok b → a ≡ b
ok-injective a b h = ap (ok_or a) h

abbrev is_ok {ℓ} : {A : Type ℓ} → Result A → Bool
is_ok (ok _) = true
is_ok (err _) = false

-- A chain that succeeds has a first part that succeeds.
pub bind-ok {ℓ κ} :
    {A : Type ℓ} {B : Type κ} (m : Result A) (f : A → Result B) (b : B)
    → m >>= f ≡ ok b
    → (a : A) × (m ≡ ok a) × (f a ≡ ok b)
bind-ok (ok a) f b h = (a, refl, h)
bind-ok (err e) f b h = absurd (ground (arith, ap is_ok h))

-- An event is an event of project `id`.
abbrev pub is_of : ℕ → EventRow → Bool
is_of id r = same_type r.event.aggregate_type project && nat_beq r.aggregate id

-- The versions of a project in the log, in the order in which they were written.
unfoldable pub versions : ℕ → List EventRow → List ℕ
versions id [] = []
versions id (r ∷ rs) =
    let rest = versions id rs in if is_of id r then r.event.aggregate_version ∷ rest else rest

-- 1 to `n`.
unfoldable pub upto : ℕ → List ℕ
upto zero = []
upto (suc n) = upto n ++ suc n ∷ []

pub versions-append :
    (id : ℕ) (rs : List EventRow) (r : EventRow)
    → versions id (rs ++ r ∷ [])
      ≡ (if is_of id r then versions id rs ++ r.event.aggregate_version ∷ [] else versions id rs)
unfolding versions
versions-append id [] r = ground arith
versions-append id (q ∷ rs) r = ground (arith, versions-append id rs r)

abbrev pub event_row : Runtime → DomainEvent → EventRow
event_row rt e = record { aggregate = rt.number_of e.aggregate_id; event = e }

-- An event that is accepted is the last one of the log, and nothing else changes.
pub append_event-ok :
    (rt : Runtime) (e : DomainEvent) (db db' : Db)
    → append_event rt e db ≡ ok db'
    → db' ≡ record db { events = db.events ++ event_row rt e ∷ [] }
unfolding append_event
append_event-ok rt e db db' h = elim (Bool-cases (any (collides (event_row rt e)) db.events)) [
  | inl c ↦ absurd (ground (arith, ap is_ok (rw c at h)))
  | inr c ↦ sym (ok-injective _ _ (rw c at h))
]

-- What writes of other aggregates keep: the rows, the keys, and each project's versions in the log.
pub record Keeps (db db' : Db) : Type 0 where
  pub projects_eq : db'.projects ≡ db.projects
  pub keys_eq : db'.keys ≡ db.keys
  pub next_eq : db'.next_project ≡ db.next_project
  pub versions_eq : (id : ℕ) → versions id db'.events ≡ versions id db.events

pub Keeps-self : (db : Db) → Keeps db db
Keeps-self db = record {
  projects_eq = refl;
  keys_eq = refl;
  next_eq = refl;
  versions_eq = λ id. refl;
}

pub Keeps-trans : (a b c : Db) → Keeps a b → Keeps b c → Keeps a c
Keeps-trans a b c h k = record {
  projects_eq = k.projects_eq ∙ h.projects_eq;
  keys_eq = k.keys_eq ∙ h.keys_eq;
  next_eq = k.next_eq ∙ h.next_eq;
  versions_eq = λ id. k.versions_eq id ∙ h.versions_eq id;
}

-- The event of another aggregate leaves the versions of projects alone.
pub append_event-Keeps :
    (rt : Runtime) (e : DomainEvent) (db db' : Db)
    → same_type e.aggregate_type project ≡ false
    → append_event rt e db ≡ ok db'
    → Keeps db db'
append_event-Keeps rt e db db' t h =
    let same = append_event-ok rt e db db' h in
    record {
      projects_eq = ap (λ d. d.projects) same;
      keys_eq = ap (λ d. d.keys) same;
      next_eq = ap (λ d. d.next_project) same;
      versions_eq = λ id.
          ap (λ d. versions id d.events) same
          ∙ versions-append id db.events (event_row rt e)
          ∙ rw t;
    }

-- The log holds every version of each project that exists, from 1 up to the row's, once and in
-- order; an id that has not been given out has neither a row nor events.
pub record Gapless (db : Db) : Type 0 where
  pub complete :
      (id : ℕ) (r : ProjectRow)
      → get id db.projects ≡ some r
      → versions id db.events ≡ upto r.sync_version
  pub unused :
      (id : ℕ) → db.next_project ≤ id → (get id db.projects ≡ none) × (versions id db.events ≡ [])

pub Gapless-Keeps : (db db' : Db) → Keeps db db' → Gapless db → Gapless db'
Gapless-Keeps db db' k g = record {
  complete = λ id r h. k.versions_eq id ∙ g.complete id r (rw k.projects_eq at h);
  unused = λ id h. (
    rw k.projects_eq ((g.unused id (rw k.next_eq at h)).0),
    k.versions_eq id ∙ (g.unused id (rw k.next_eq at h)).1,
  );
}

upto-next : (n : ℕ) → upto (n + 1) ≡ upto n ++ (n + 1) ∷ []
unfolding upto
upto-next n = let e : n + 1 ≡ suc n = omega arith in rw e

-- A row's next version, with its event at the end of the log.
pub Gapless-next :
    (db : Db) (id : ℕ) (old new : ProjectRow) (e : EventRow)
    → Gapless db
    → get id db.projects ≡ some old
    → new.sync_version ≡ old.sync_version + 1
    → is_of id e ≡ true
    → e.event.aggregate_version ≡ new.sync_version
    → Gapless (record db { projects = put id new db.projects; events = db.events ++ e ∷ [] })
unfolding upto
Gapless-next db id old new e g h v t w = record {
  complete = λ j r k. elim (Bool-cases (nat_beq id j)) [
    | inl same ↦
        let same' : id ≡ j = (nat_beq_iff id j).0 same in
        let k' : some new ≡ some r = sym (get-put_self id new db.projects) ∙ (rw (← same') at k) in
        let r' : new ≡ r = some-injective new r k' in
        let v' : r.sync_version ≡ old.sync_version + 1 = ap (λ q. q.sync_version) (sym r') ∙ v in
        let w' : e.event.aggregate_version ≡ old.sync_version + 1 = w ∙ v in
        let h' : get j db.projects ≡ some old = ap (λ i. get i db.projects) (sym same') ∙ h in
        let t' : is_of j e ≡ true = ap (λ i. is_of i e) (sym same') ∙ t in
        versions-append j db.events e
        ∙ rw (t', v', w', g.complete j old h') (sym (upto-next old.sync_version))
    | inr other ↦
        let ne : id ≢ j = λ s. ground (arith, nat_beq_iff id j) in
        let k' : get j db.projects ≡ some r = sym (get-put_ne id j new db.projects ne) ∙ k in
        let o : is_of j e ≡ false =
          ground (arith, nat_beq_iff e.aggregate id, nat_beq_iff e.aggregate j) in
        versions-append j db.events e ∙ rw o (g.complete j r k')
  ];
  unused = λ j l.
      let (n, none_yet) = g.unused j l in
      let ne : id ≢ j =
        λ s. absurd (cc (h, (g.unused id (subst (λ i. db.next_project ≤ i) (sym s) l)).0)) in
      let o : is_of j e ≡ false =
        ground (arith, nat_beq_iff e.aggregate id, nat_beq_iff e.aggregate j, ne) in
      (get-put_ne id j new db.projects ne ∙ n, versions-append j db.events e ∙ rw o none_yet);
}

-- A row that is deleted, with the event of its deletion at the end of the log.
pub Gapless-del :
    (db : Db) (id : ℕ) (old : ProjectRow) (e : EventRow)
    → Gapless db
    → get id db.projects ≡ some old
    → is_of id e ≡ true
    → Gapless (record db { projects = del id db.projects; events = db.events ++ e ∷ [] })
Gapless-del db id old e g h t = record {
  complete = λ j r k. elim (Bool-cases (nat_beq id j)) [
    | inl same ↦
        let same' : id ≡ j = (nat_beq_iff id j).0 same in
        absurd (cc (k, get-del_self id db.projects, same'))
    | inr other ↦
        let ne : id ≢ j = λ s. ground (arith, nat_beq_iff id j) in
        let k' : get j db.projects ≡ some r = sym (get-del_ne id j db.projects ne) ∙ k in
        let o : is_of j e ≡ false =
          ground (arith, nat_beq_iff e.aggregate id, nat_beq_iff e.aggregate j) in
        versions-append j db.events e ∙ rw o (g.complete j r k')
  ];
  unused = λ j l.
      let (n, none_yet) = g.unused j l in
      let ne : id ≢ j =
        λ s. absurd (cc (h, (g.unused id (subst (λ i. db.next_project ≤ i) (sym s) l)).0)) in
      let o : is_of j e ≡ false =
        ground (arith, nat_beq_iff e.aggregate id, nat_beq_iff e.aggregate j, ne) in
      (get-del_ne id j db.projects ne ∙ n, versions-append j db.events e ∙ rw o none_yet);
}

pub err-ne-ok {ℓ} : {A : Type ℓ} (e : Error) (a : A) → err e ≢ ok a
err-ne-ok e a h = ground (arith, ap is_ok h)

-- A guard that was passed.
pub guard-ok {ℓ} :
    {A : Type ℓ} (b : Bool) (e : Error) (rest : Result A) (a : A)
    → (if b then err e else rest) ≡ ok a
    → (b ≡ false) × (rest ≡ ok a)
guard-ok true e rest a h = absurd (err-ne-ok e a h)
guard-ok false e rest a h = (refl, h)

-- A new row under the next id, with its event at the end of the log.
pub Gapless-insert :
    (db : Db) (new : ProjectRow) (e : EventRow)
    → Gapless db
    → new.sync_version ≡ 1
    → is_of db.next_project e ≡ true
    → e.event.aggregate_version ≡ 1
    → Gapless (record db {
      projects = put db.next_project new db.projects;
      events = db.events ++ e ∷ [];
      next_project = db.next_project + 1;
    })
unfolding upto
Gapless-insert db new e g v t w = record {
  complete = λ j r k. elim (Bool-cases (nat_beq db.next_project j)) [
    | inl same ↦
        let same' : db.next_project ≡ j = (nat_beq_iff db.next_project j).0 same in
        let k' : some new ≡ some r =
          sym (get-put_self db.next_project new db.projects) ∙ (rw (← same') at k) in
        let v' : r.sync_version ≡ 1 =
          ap (λ q. q.sync_version) (sym (some-injective new r k')) ∙ v in
        let t' : is_of j e ≡ true = ap (λ i. is_of i e) (sym same') ∙ t in
        let empty : versions j db.events ≡ [] =
          ap (λ i. versions i db.events) (sym same') ∙ (g.unused db.next_project (omega arith)).1 in
        versions-append j db.events e ∙ rw (t', v', w, empty)
    | inr other ↦
        let ne : db.next_project ≢ j = λ s. ground (arith, nat_beq_iff db.next_project j) in
        let k' : get j db.projects ≡ some r =
          sym (get-put_ne db.next_project j new db.projects ne) ∙ k in
        let o : is_of j e ≡ false =
          ground (arith, nat_beq_iff e.aggregate db.next_project, nat_beq_iff e.aggregate j, ne) in
        versions-append j db.events e ∙ rw o (g.complete j r k')
  ];
  unused = λ j l.
      let (n, none_yet) = g.unused j (omega arith) in
      let ne : db.next_project ≢ j = λ s. omega arith in
      let o : is_of j e ≡ false =
        ground (arith, nat_beq_iff e.aggregate db.next_project, nat_beq_iff e.aggregate j, ne) in
      (
        get-put_ne db.next_project j new db.projects ne ∙ n,
        versions-append j db.events e ∙ rw o none_yet,
      );
}

pub Result-cases {ℓ} :
    {A : Type ℓ} (m : Result A) → ((a : A) × (m ≡ ok a)) ⊎ ((e : Error) × (m ≡ err e))
Result-cases (ok a) = inl (a, refl)
Result-cases (err e) = inr (e, refl)
