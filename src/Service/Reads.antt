-- ===== src/Service/Reads.antt =====
-- server/domain/projectService.ts: `get` and `sync`, the reads from which a client recovers.
use bahn_project_manager.Prelude.{
  ℕ, ◌+◌, ◌-◌, ◌≡◌, ◌<◌, refl, sym, ap, subst, ◌∙◌, ◌⊎◌, inl, inr, Bool, true, false, ◌&&◌, Option,
  none, some, List, [], ◌∷◌, ◌++◌, arith, if◌then◌else◌, nat_eq, nat_beq, nat_beq_iff, leb, length,
  Bool-cases, Option-cases, All, In,
}
use bahn_project_manager.Event.{DomainEvent}
use bahn_project_manager.Permissions.{Principal, can_view_project}
use bahn_project_manager.Visibility.{event_for_principal}
use bahn_project_manager.Project.{ProjectDetail}
use bahn_project_manager.Sync.Recovery.{SyncResult}
use bahn_project_manager.Store.{
  Db, EventRow, ProjectRow, Result, ok, err, not_found, lock_project, detail, detail_from,
  events_since,
}
use bahn_project_manager.Store.Since.{IsSince, events_since-Since}
use bahn_project_manager.Service.{Env, workspace_of}

-- `get`.
unfoldable pub get_project : Env → Principal → ℕ → Db → Result ProjectDetail
unfolding lock_project detail can_view_project
get_project env p id db = elim (lock_project id db) [
  | none ↦ err not_found
  | some row ↦
      if can_view_project env.rt p (workspace_of row)
      then elim (detail env.by_department id db) [ none ↦ err not_found | some d ↦ ok d ]
      else err not_found
]

abbrev pub max_replay_events : ℕ
max_replay_events = 25

-- `evs.every((e, i) => e.aggregateVersion === k.version + 1 + i)`.
unfoldable pub follows : ℕ → List DomainEvent → Bool
follows v [] = true
follows v (e ∷ es) = let rest = follows (v + 1) es in nat_beq e.aggregate_version (v + 1) && rest

abbrev pub keep_event : Option DomainEvent → List DomainEvent → List DomainEvent
keep_event none rest = rest
keep_event (some d) rest = d ∷ rest

-- The events that the recipient filter lets through, in its form.
unfoldable pub kept : Env → Principal → List DomainEvent → List DomainEvent
unfolding event_for_principal
kept env p [] = []
kept env p (e ∷ es) = keep_event (event_for_principal env.rt p e) (kept env p es)

abbrev pub snapshot_of : Option ProjectDetail → SyncResult
snapshot_of none = record { events = []; snapshots = []; deleted = [] }
snapshot_of (some d) = record { events = []; snapshots = d ∷ []; deleted = [] }

abbrev pub gone : ℕ → SyncResult
gone id = record { events = []; snapshots = []; deleted = id ∷ [] }

abbrev pub nothing_missed : SyncResult
nothing_missed = record { events = []; snapshots = []; deleted = [] }

-- The events if they are all there, or else the row.
unfoldable pub replay_or_snapshot : Env → Principal → ℕ → ℕ → ℕ → List DomainEvent → Db → SyncResult
unfolding kept follows detail
replay_or_snapshot env p id version missed es db =
    if nat_beq (length es) missed && follows version es
    then record { events = kept env p es; snapshots = []; deleted = [] }
    else snapshot_of (detail env.by_department id db)

-- A row that may be seen, against the version that the client holds.
unfoldable pub sync_row : Env → Principal → ℕ → ℕ → ProjectRow → Db → SyncResult
unfolding replay_or_snapshot events_since
sync_row env p id version row db =
    let missed = row.sync_version - version in
    if leb row.sync_version version
    then nothing_missed
    else replay_or_snapshot env p id version missed
        (if leb missed max_replay_events then events_since id version max_replay_events db else [])
        db

abbrev pub sync_found : Env → Principal → ℕ → ℕ → Option ProjectRow → Db → SyncResult
sync_found env p id version none db = gone id
sync_found env p id version (some row) db =
    if can_view_project env.rt p (workspace_of row)
    then sync_row env p id version row db
    else gone id

-- One round of the loop of `sync`.
unfoldable pub sync_one : Env → Principal → ℕ × ℕ → Db → SyncResult
unfolding lock_project sync_row can_view_project
sync_one env p (id, version) db = sync_found env p id version (lock_project id db) db

abbrev pub joined : SyncResult → SyncResult → SyncResult
joined a b = record {
  events = a.events ++ b.events;
  snapshots = a.snapshots ++ b.snapshots;
  deleted = a.deleted ++ b.deleted;
}

-- `sync`.
unfoldable pub sync : Env → Principal → List (ℕ × ℕ) → Db → SyncResult
unfolding sync_one
sync env p [] db = nothing_missed
sync env p (k ∷ known) db = joined (sync_one env p k db) (sync env p known db)

-- The events after version `v`, one per version.
abbrev pub Consecutive : ℕ → List DomainEvent → Type 0
Consecutive v [] = Unit
Consecutive v (e ∷ es) = (e.aggregate_version ≡ v + 1) × Consecutive (v + 1) es

follows-Consecutive : (v : ℕ) (es : List DomainEvent) → follows v es ≡ true → Consecutive v es
unfolding follows
follows-Consecutive v [] h = tt
follows-Consecutive v (e ∷ es) h = (
  ground (arith, nat_beq_iff e.aggregate_version (v + 1)),
  follows-Consecutive (v + 1) es (ground arith),
)

-- What a recipient gets of a list of events: in order, each event in the recipient's form, unless
-- there is none.
pub data Received (env : Env) (p : Principal) : List DomainEvent → List DomainEvent → Type 0 where
  all_read : Received env p [] []
  withheld :
      (e : DomainEvent) (es ds : List DomainEvent)
      → event_for_principal env.rt p e ≡ none
      → Received env p es ds
      → Received env p (e ∷ es) ds
  passed_on :
      (e d : DomainEvent) (es ds : List DomainEvent)
      → event_for_principal env.rt p e ≡ some d
      → Received env p es ds
      → Received env p (e ∷ es) (d ∷ ds)

kept-Received :
    (env : Env) (p : Principal) (es : List DomainEvent) → Received env p es (kept env p es)
unfolding kept
kept-Received env p [] = all_read
kept-Received env p (e ∷ es) =
    let rest = kept env p es in
    let done = kept-Received env p es in
    let by = λ (o : Option DomainEvent) (h : event_for_principal env.rt p e ≡ o).
      subst (λ q. Received env p (e ∷ es) (keep_event q rest)) (sym h) in
    elim (Option-cases (event_for_principal env.rt p e)) [
      | inl n ↦ by none n (withheld e es rest n done)
      | inr (d, y) ↦ by (some d) y (passed_on e d es rest y done)
    ]

-- An answer that brings the client from version `known` to the row: of one logged event of the
-- project for each version in between, in order, what the recipient may get, or the row itself.
pub data BringsUp (env : Env) (p : Principal) (id known : ℕ) (row : ProjectRow) (db : Db)
    (r : SyncResult) : Type 0 where
  replayed :
      (es : List DomainEvent)
      → length es ≡ row.sync_version - known
      → Consecutive known es
      → All
          (λ e.
            (logged : EventRow) × In logged db.events
            × (logged.event ≡ e)
            × IsSince id known logged)
          es
      → Received env p es r.events
      → r.snapshots ≡ []
      → r.deleted ≡ []
      → BringsUp env p id known row db r
  snapshot :
      (d : ProjectDetail)
      → d.id ≡ row.id
      → d.version ≡ row.sync_version
      → d.fields ≡ row.fields
      → r ≡ record { events = []; snapshots = d ∷ []; deleted = [] }
      → BringsUp env p id known row db r

detail-held :
    (env : Env) (id : ℕ) (row : ProjectRow) (db : Db)
    → lock_project id db ≡ some row
    → (d : ProjectDetail) × (detail env.by_department id db ≡ some d)
      × (d.id ≡ row.id)
      × (d.version ≡ row.sync_version)
      × (d.fields ≡ row.fields)
unfolding detail lock_project
detail-held env id row db h = (_, ap (detail_from _) h, refl, refl, refl)

-- The events of the project behind a version, in the log.
abbrev AreLogged : ℕ → ℕ → Db → List DomainEvent → Type 0
AreLogged id known db =
    All (λ e.
      (logged : EventRow) × In logged db.events × (logged.event ≡ e) × IsSince id known logged)

replay_or_snapshot-BringsUp :
    (env : Env) (p : Principal) (id known : ℕ) (row : ProjectRow) (es : List DomainEvent) (db : Db)
    → lock_project id db ≡ some row
    → AreLogged id known db es
    → BringsUp env p id known row db
        (replay_or_snapshot env p id known (row.sync_version - known) es db)
unfolding replay_or_snapshot
replay_or_snapshot-BringsUp env p id known row es db h l =
    let missed = row.sync_version - known in
    let (d, held, i, v, fs) = detail-held env id row db h in
    elim (Bool-cases (nat_beq (length es) missed)) [
      | inr n ↦ snapshot d i v fs (rw n (ap snapshot_of held))
      | inl y ↦ elim (Bool-cases (follows known es)) [
        | inr n ↦ snapshot d i v fs (rw (y, n) (ap snapshot_of held))
        | inl f ↦
            rw (y, f)
              (replayed es ((nat_beq_iff (length es) missed).0 y) (follows-Consecutive known es f) l
                (kept-Received env p es) refl refl)
      ]
    ]

sync_row-BringsUp :
    (env : Env) (p : Principal) (id known : ℕ) (row : ProjectRow) (db : Db)
    → lock_project id db ≡ some row
    → known < row.sync_version
    → BringsUp env p id known row db (sync_row env p id known row db)
unfolding sync_row
sync_row-BringsUp env p id known row db h l =
    let b : leb row.sync_version known ≡ false = ground arith in
    let missed = row.sync_version - known in
    let found = events_since-Since id known max_replay_events db in
    rw b (elim (Bool-cases (leb missed max_replay_events)) [
      | inl few ↦ rw few (replay_or_snapshot-BringsUp env p id known row _ db h found.logged)
      | inr many ↦ rw many (replay_or_snapshot-BringsUp env p id known row [] db h tt)
    ])

-- A client that is behind a project that its user may see gets the row, or, of one logged event of the
-- project for each version that it misses, in order, those that the user may receive, in the form of
-- the recipient.
pub sync_one-BringsUp :
    (env : Env) (p : Principal) (id known : ℕ) (row : ProjectRow) (db : Db)
    → lock_project id db ≡ some row
    → can_view_project env.rt p (workspace_of row) ≡ true
    → known < row.sync_version
    → BringsUp env p id known row db (sync_one env p (id, known) db)
unfolding sync_one
sync_one-BringsUp env p id known row db h v l =
    let here : sync_one env p (id, known) db ≡ sync_row env p id known row db =
      ap (λ o. sync_found env p id known o db) h ∙ rw v in
    subst (BringsUp env p id known row db) (sym here) (sync_row-BringsUp env p id known row db h l)

-- For a project that does not exist and for one that the user may not see the answer is the same:
-- it is gone.
pub sync_one-gone :
    (env : Env) (p : Principal) (id known : ℕ) (db : Db)
    → (lock_project id db ≡ none)
      ⊎ ((row : ProjectRow) × (lock_project id db ≡ some row)
          × (can_view_project env.rt p (workspace_of row) ≡ false))
    → sync_one env p (id, known) db ≡ gone id
unfolding sync_one
sync_one-gone env p id known db (inl h) = ap (λ o. sync_found env p id known o db) h
sync_one-gone env p id known db (inr (row, h, v)) =
    ap (λ o. sync_found env p id known o db) h ∙ rw v
