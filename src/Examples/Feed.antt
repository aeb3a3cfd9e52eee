-- ===== src/Examples/Feed.antt =====
-- Gap detection and duplicate detection on short histories.
use bahn_project_manager.Prelude.{
  ◌+◌, ◌≡◌, ◌≤◌, refl, ◌↔◌, some, true, false, [], ◌∷◌, List, Text, length, codes, arith,
}
use bahn_project_manager.Event.Decide.{decide_event, decide_event_iff, apply, stale, gap}
use bahn_project_manager.Event.Seen.{empty_seen, seen, seen_all, seen_all-IsBounded, seen_remembers}
use bahn_project_manager.Examples.{in_ulm}

decide_event_iff_example :
    (decide_event (some 0) in_ulm ≡ apply ↔ in_ulm.aggregate_version ≡ 0 + 1)
    × (decide_event (some 0) in_ulm ≡ stale ↔ in_ulm.aggregate_version ≤ 0)
    × (decide_event (some 0) in_ulm ≡ gap 1 1
        ↔ (1 ≡ 0 + 1) × (1 + 1 ≡ in_ulm.aggregate_version) × (1 ≤ 1))
decide_event_iff_example = decide_event_iff 0 in_ulm 1 1

abbrev ids : List Text
ids = codes "a" ∷ codes "b" ∷ codes "c" ∷ []

seen_all-IsBounded_example : length (seen_all (empty_seen 2) ids).ids ≤ 2
seen_all-IsBounded_example = seen_all-IsBounded 2 ids

new_id : (seen (seen_all (empty_seen 2) ids) (codes "d")).1 ≡ false
unfolding seen_all seen empty_seen
new_id = refl

seen_remembers_example :
    (seen
      (seen_all (seen (seen_all (empty_seen 2) ids) (codes "d")).0 (codes "e" ∷ []))
      (codes "d")).1
    ≡ true
seen_remembers_example = seen_remembers 2 ids (codes "d") (codes "e" ∷ []) new_id (omega arith)

old_id : (seen (seen_all (empty_seen 2) ids) (codes "c")).1 ≡ true
unfolding seen_all seen empty_seen
old_id = refl
