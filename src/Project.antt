-- ===== src/Project.antt =====
-- shared/project-contract.ts: projects and reviews as they travel, the editable fields, and the
-- keys of changes. A project's nullable columns are a map from field names to values; its id,
-- version and times stand apart, since no change key names them.
use bahn_project_manager.Prelude.{
  ℕ, Bool, Option, none, some, List, [], ◌∷◌, ◌++◌, if◌then◌else◌, Text, text_beq, text_eq, codes,
  starts_with, split_at, drop,
}
use bahn_project_manager.Event.{Changes}

pub record Review : Type 0 where
  pub id : ℕ
  pub department : Text
  pub pruefer_name : Option Text
  pub datum : Option Text
  pub status : Option Text
  pub updated_at : Text

abbrev pub Fields : Type 0
Fields = List (Text × Option Text)

pub record ProjectDetail : Type 0 where
  pub id : ℕ
  pub version : ℕ
  pub updated_at : Text
  pub created_at : Text
  pub fields : Fields
  pub reviews : List Review

pub data ReviewField : Type 0 where
  status pruefer_name datum : ReviewField

-- `EDITABLE_PROJECT_FIELDS`.
abbrev pub editable_project_fields : List Text
editable_project_fields =
    codes "projektnummer"
    ∷ codes "bahnhofsmanagement"
    ∷ codes "station"
    ∷ codes "bahnhofsnummer"
    ∷ codes "streckennummer"
    ∷ codes "projektbeschreibung"
    ∷ codes "projektstand"
    ∷ codes "eigvEinstufung"
    ∷ codes "projektleiter"
    ∷ codes "terminProjektvorstellung"
    ∷ codes "kommentar"
    ∷ codes "projektLink"
    ∷ []

abbrev pub review_field_name : ReviewField → Text
review_field_name status = codes "status"
review_field_name pruefer_name = codes "prueferName"
review_field_name datum = codes "datum"

-- `reviewChangeKey`.
abbrev pub review_change_key : Text → ReviewField → Text
review_change_key department f =
    codes "review." ++ (department ++ (codes "." ++ review_field_name f))

abbrev pub review_field_of : Text → Option ReviewField
review_field_of s =
    if text_beq s (codes "status")
    then some status
    else if text_beq s (codes "prueferName")
    then some pruefer_name
    else if text_beq s (codes "datum")
    then some datum
    else none

abbrev with_department : Text → Option ReviewField → Option (Text × ReviewField)
with_department [] f = none
with_department (c ∷ s) none = none
with_department (c ∷ s) (some f) = some (c ∷ s, f)

abbrev parse_review_rest : Option (Text × Text) → Option (Text × ReviewField)
parse_review_rest none = none
parse_review_rest (some (department, field)) = with_department department (review_field_of field)

-- `REVIEW_KEY_RE.exec(key)`: the department and the field of a review key.
unfoldable pub parse_review_key : Text → Option (Text × ReviewField)
unfolding starts_with split_at
parse_review_key key =
    if starts_with key (codes "review.")
    then parse_review_rest (split_at b'.' (drop 7 key))
    else none

-- Who changed the project last, and when.
pub record LastChange : Type 0 where
  pub actor_id : Text
  pub actor_name : Option Text
  pub at : Text

pub record ConflictInfo : Type 0 where
  pub project_id : ℕ
  pub expected_version : ℕ
  pub current_version : ℕ
  pub server_values : Fields
  pub local_values : Fields
  pub conflicting_fields : List Text
  pub changed_since : Changes
  pub last_change : Option LastChange
  pub disjoint : Bool
  pub current : ProjectDetail
