-- ===== src/Notification.antt =====
-- server/domain/notificationPolicy.ts: which events of a project notify, and how they read. A value of
-- `plan` in Service's Env is `plan_notification` of this module.
pub mod Departments
pub mod Kinds
pub mod Recipients
use bahn_project_manager.Prelude.{
  ℕ, ◌+◌, ◌-◌, Bool, true, false, not, ◌&&◌, ◌||◌, Option, none, some, List, [], ◌∷◌, ◌++◌, length,
  take, if◌then◌else◌, ltb, leb, nat_beq, Text, codes, text_beq,
}
use bahn_project_manager.Runtime.{Runtime}
use bahn_project_manager.Event.{
  DomainEvent, EventType, project_deleted, project_updated, project, AggregateType, Changes,
  FieldChange,
}
use bahn_project_manager.Project.{ReviewField, status, pruefer_name, datum, parse_review_key}
use bahn_project_manager.Store.{same_type}
use bahn_project_manager.Service.{Planned, or_text}

-- In the order of their rank.
pub data NotificationKind : Type 0 where
  system workflow mention assignment deadline critical : NotificationKind

abbrev pub rank : NotificationKind → ℕ
rank system = 0
rank workflow = 1
rank mention = 2
rank assignment = 3
rank deadline = 4
rank critical = 5

abbrev pub kind_text : NotificationKind → Text
kind_text system = codes "system"
kind_text workflow = codes "workflow"
kind_text mention = codes "mention"
kind_text assignment = codes "assignment"
kind_text deadline = codes "deadline"
kind_text critical = codes "critical"

-- A letter without its case, for a pattern of ASCII letters.
abbrev pub fold_char : ℕ → ℕ
fold_char c = if leb b'A' c && leb c b'Z' then c + 32 else c

unfoldable pub starts_folded : Text → Text → Bool
starts_folded [] s = true
starts_folded (p ∷ ps) [] = false
starts_folded (p ∷ ps) (c ∷ s) = nat_beq (fold_char c) p && starts_folded ps s

-- `/word/i.test(s)` for a word of small letters.
unfoldable pub has_word : Text → Text → Bool
unfolding starts_folded
has_word word [] = starts_folded word []
has_word word (c ∷ s) = starts_folded word (c ∷ s) || has_word word s

-- `BLOCKING.test(s)`.
unfoldable pub blocking : Text → Bool
unfolding has_word
blocking s =
    has_word (codes "gestoppt") s
    || has_word (codes "gestopp") s
    || has_word (codes "stopp") s
    || has_word (codes "abgelehnt") s

-- `c.to && BLOCKING.test(c.to)`.
abbrev pub blocks : Option Text → Bool
blocks none = false
blocks (some []) = false
blocks (some (c ∷ s)) = blocking (c ∷ s)

abbrev pub show : Option Text → Text
show v = or_text v (codes "leer")

-- `${show(c.from)} → ${show(c.to)}`.
abbrev pub arrow : FieldChange → Text
arrow c = show c.from ++ (b' ' ∷ 8594 ∷ b' ' ∷ show c.to)

abbrev pub by_blocking : FieldChange → NotificationKind
by_blocking c = if blocks c.to then critical else workflow

-- The line of a change of a review, and its kind.
abbrev pub review_line : Text → ReviewField → FieldChange → Option (Text × NotificationKind)
review_line dept status c = some (dept ++ (codes ": " ++ arrow c), by_blocking c)
review_line dept pruefer_name c =
    some (dept ++ (codes "-Pr" ++ (252 ∷ codes "fer: ") ++ arrow c), assignment)
review_line dept datum c = none

-- The line of a change of a field, and its kind; most fields are not worth a notification.
abbrev pub field_line : Text → FieldChange → Option (Text × NotificationKind)
field_line key c =
    if text_beq key (codes "projektstand")
    then some (codes "Projektstand: " ++ arrow c, by_blocking c)
    else if text_beq key (codes "projektleiter")
    then some (codes "Projektleitung: " ++ arrow c, assignment)
    else if text_beq key (codes "terminProjektvorstellung")
    then some (codes "Termin Projektvorstellung: " ++ arrow c, deadline)
    else none

abbrev pub line_by :
    Option (Text × ReviewField) → Text → FieldChange → Option (Text × NotificationKind)
line_by (some (dept, f)) key c = review_line dept f c
line_by none key c = field_line key c

unfoldable pub line_of : Text × FieldChange → Option (Text × NotificationKind)
unfolding parse_review_key blocking
line_of (key, c) = line_by (parse_review_key key) key c

abbrev pub add_line :
    Option (Text × NotificationKind)
    → List (Text × NotificationKind)
    → List (Text × NotificationKind)
add_line none rest = rest
add_line (some l) rest = l ∷ rest

-- `lines`, each with the kind that it bumps.
unfoldable pub lines_of : Changes → List (Text × NotificationKind)
unfolding line_of
lines_of [] = []
lines_of (c ∷ cs) = add_line (line_of c) (lines_of cs)

-- `bump`.
abbrev pub bump : Option NotificationKind → NotificationKind → Option NotificationKind
bump none k = some k
bump (some j) k = if ltb (rank j) (rank k) then some k else some j

unfoldable pub bump_all :
    Option NotificationKind → List (Text × NotificationKind) → Option NotificationKind
bump_all kind [] = kind
bump_all kind ((l, k) ∷ rest) = bump_all (bump kind k) rest

-- `lines.join("; ")`.
unfoldable pub join : List (Text × NotificationKind) → Text
join [] = []
join ((l, k) ∷ []) = l
join ((l, k) ∷ m ∷ rest) = l ++ (codes "; " ++ join (m ∷ rest))

-- What `planNotification` is told of the project.
pub record NotifiedProject : Type 0 where
  pub id : ℕ
  pub projektnummer : Option Text
  pub station : Option Text

abbrev pub label_of_project : Runtime → NotifiedProject → Text
label_of_project rt p =
    or_text p.station (or_text p.projektnummer (codes "Projekt " ++ rt.string_of p.id))

abbrev pub actor_label : Option Text → Text
actor_label none = codes "Jemand"
actor_label (some name) = name

abbrev pub deleted_plan : Text → Text → Planned
deleted_plan label actor = record {
  kind = kind_text critical;
  title = label ++ (codes ": Projekt gel" ++ (246 ∷ codes "scht"));
  body = some (actor ++ (codes " hat das Projekt gel" ++ (246 ∷ codes "scht.")));
  link = codes "/projects";
}

abbrev pub more_lines : Runtime → List (Text × NotificationKind) → Text
more_lines rt ls =
    if ltb 1 (length ls)
    then b' '
      ∷ 183
      ∷ b' '
      ∷ (rt.string_of (length ls) ++ (b' ' ∷ 196 ∷ codes "nderungen: " ++ join ls))
    else []

abbrev pub updated_plan :
    Runtime
    → Text
    → Text
    → Text
    → List (Text × NotificationKind)
    → Option NotificationKind
    → Option Planned
updated_plan rt label actor link [] kind = none
updated_plan rt label actor link (l ∷ ls) none = none
updated_plan rt label actor link (l ∷ ls) (some kind) = some (record {
  kind = kind_text kind;
  title = label ++ (codes ": " ++ l.0);
  body = some (take 1000 (actor ++ more_lines rt (l ∷ ls)));
  link = link;
})

abbrev pub plan_by_type : Runtime → DomainEvent → NotifiedProject → EventType → Option Planned
plan_by_type rt e p project_deleted =
    some (deleted_plan (label_of_project rt p) (actor_label e.actor_name))
plan_by_type rt e p project_updated =
    updated_plan rt (label_of_project rt p) (actor_label e.actor_name)
      (codes "/projects?projekt=" ++ rt.string_of p.id) (lines_of e.changes)
      (bump_all none (lines_of e.changes))
plan_by_type rt e p _ = none

-- `planNotification`.
unfoldable pub plan_notification : Runtime → DomainEvent → NotifiedProject → Option Planned
unfolding lines_of bump_all join
plan_notification rt e p =
    if same_type e.aggregate_type project then plan_by_type rt e p e.event_type else none
