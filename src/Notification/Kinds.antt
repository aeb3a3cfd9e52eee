-- ===== src/Notification/Kinds.antt =====
-- server/domain/notificationPolicy.ts: which updates notify, and how urgently.
use bahn_project_manager.Prelude.{
  ◌≤◌, ◌≡◌, ◌⊎◌, some, List, ◌∷◌, ◌++◌, All, In, take, length, Text, codes,
}
use bahn_project_manager.Runtime.{Runtime}
use bahn_project_manager.Service.{Planned}
use bahn_project_manager.Notification.{NotificationKind, rank, kind_text, more_lines}

-- The kind is the one of a line, or the one before, and no line is more urgent.
record IsTop (start : NotificationKind) (ls : List (Text × NotificationKind)) (k : NotificationKind)
    : Type 0 where
  from : (k ≡ start) ⊎ ((l : Text) × In (l, k) ls)
  above_start : rank start ≤ rank k
  above_lines : All (λ l. rank (l.1) ≤ rank k) ls

-- The notification of an update, by its lines.
pub record Notifies (ls : List (Text × NotificationKind)) (plan : Planned) : Type 0 where
  pub kind : NotificationKind
  pub kind_eq : plan.kind ≡ kind_text kind
  pub of_line : (l : Text) × In (l, kind) ls
  pub most_urgent : All (λ l. rank (l.1) ≤ rank kind) ls
  pub text : Text
  pub body_eq : plan.body ≡ some text
  pub short : length text ≤ 1000

abbrev updated_one :
    Runtime
    → Text
    → Text
    → Text
    → Text
    → NotificationKind
    → List (Text × NotificationKind)
    → NotificationKind
    → Planned
updated_one rt label actor link l j ls k = record {
  kind = kind_text k;
  title = label ++ (codes ": " ++ l);
  body = some (take 1000 (actor ++ more_lines rt ((l, j) ∷ ls)));
  link = link;
}
