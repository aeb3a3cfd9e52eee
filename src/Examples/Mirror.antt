-- ===== src/Examples/Mirror.antt =====
-- A client that loads a project, edits it, and receives the change of somebody else.
use bahn_project_manager.Prelude.{
  ℕ, ◌+◌, ◌≡◌, refl, subst, true, false, some, [], ◌∷◌, arith, codes, Text, if◌then◌else◌, get, put,
  nat_eq, text_eq, leb,
}
use bahn_project_manager.Runtime.{plain_runtime}
use bahn_project_manager.Project.{ProjectDetail, Fields, parse_review_key}
use bahn_project_manager.Sync.Engine.{Engine, new_engine, seed, view, list_of, new_values}
use bahn_project_manager.Sync.Events.{apply_event, commit}
use bahn_project_manager.Sync.Edits.{edit_optimistic}
use bahn_project_manager.Sync.Cells.{Cell, field, review, cell_of, value_at, last_value}
use bahn_project_manager.Sync.Mirror.{History, IsGenuine, IsTrueEvent, Mirrors}
use bahn_project_manager.Sync.Mirror.Reach.{
  Reach, start, next, row_loads, edit_starts, event_arrives, Reach-Mirrors,
}
use bahn_project_manager.Sync.Overlay.{touches, commit_keeps_edits}
use bahn_project_manager.Sync.Versions.{StepsTo, apply_event-StepsTo}
use bahn_project_manager.Examples.{in_ulm}

abbrev with_kommentar : ℕ → Text → ProjectDetail
with_kommentar version kommentar = record {
  id = 1;
  version = version;
  updated_at = codes "t";
  created_at = codes "t";
  fields = (codes "kommentar", some kommentar) ∷ [];
  reviews = [];
}

-- The server's history of every project: "a", and "b" from version 2 on.
abbrev history : History
history id version c =
    if leb version 1
    then value_at (with_kommentar 1 (codes "a")) c
    else value_at (with_kommentar 2 (codes "b")) c

loaded_IsGenuine : IsGenuine history 1 (with_kommentar 1 (codes "a"))
loaded_IsGenuine c = refl

changed_at : (c : Cell) → history 1 2 c ≡ last_value c (new_values in_ulm.changes) (history 1 1 c)
unfolding value_at last_value new_values cell_of parse_review_key get
changed_at (field key) = ground arith
changed_at (review department f) = ground arith

event_IsTrueEvent : IsTrueEvent plain_runtime history in_ulm
event_IsTrueEvent n v r c =
    let one : 1 ≡ n = omega arith in
    subst (λ k. history 1 (k + 1) c ≡ last_value c (new_values in_ulm.changes) (history 1 k c)) one
      (changed_at c)

abbrev edits : Fields
edits = (codes "station", some (codes "Ulm Hbf")) ∷ []

abbrev loaded : Engine
loaded = seed (with_kommentar 1 (codes "a")) true new_engine

abbrev edited : Engine
edited = edit_optimistic 1 (codes "m") edits loaded

abbrev changed : Engine
changed = (apply_event plain_runtime in_ulm edited).0

abbrev run : Reach plain_runtime history changed
run =
    next
      (next (next start (row_loads (with_kommentar 1 (codes "a")) true loaded_IsGenuine))
        (edit_starts 1 (codes "m") edits))
      (event_arrives in_ulm event_IsTrueEvent)

Reach-Mirrors_example : Mirrors plain_runtime history changed
Reach-Mirrors_example = Reach-Mirrors plain_runtime history run

apply_event-StepsTo_example : StepsTo 1 in_ulm edited.projects changed.projects
apply_event-StepsTo_example = apply_event-StepsTo plain_runtime in_ulm edited

edited_holds : get 1 edited.projects ≡ some (with_kommentar 1 (codes "a"))
unfolding edit_optimistic seed new_engine get put
edited_holds = refl

commit_keeps_edits_example :
    (old new : ProjectDetail) × (view edited 1 ≡ some old)
    × (view (commit 1 in_ulm edited) 1 ≡ some new)
    × ((c : Cell)
        → ((touches c (list_of (get 1 edited.pending)) ≡ true) → value_at new c ≡ value_at old c)
          × ((touches c (list_of (get 1 edited.pending)) ≡ false)
              → value_at new c
                ≡ last_value c
                    (new_values in_ulm.changes)
                    (value_at (with_kommentar 1 (codes "a")) c)))
commit_keeps_edits_example =
    commit_keeps_edits edited 1 (with_kommentar 1 (codes "a")) in_ulm edited_holds refl
