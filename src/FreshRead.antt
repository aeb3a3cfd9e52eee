-- ===== src/FreshRead.antt =====
-- server/infra/freshRead.ts: reads that share loads. A promise is named by the time at which its
-- load starts; what the loads return is left out.
pub mod Freshness
use bahn_project_manager.Prelude.{
  ℕ, suc, Bool, true, false, Option, none, some, List, [], ◌∷◌, ◌++◌, map, leb, if◌then◌else◌,
}

-- The load that runs, whether one is queued, and how many were started; then who reads: those who
-- hold the queued promise, by their `after`, and those who hold a started load, with its start.
pub record FreshRead : Type 0 where
  pub running : Option ℕ
  pub queued : Bool
  pub loads : ℕ
  pub waiting : List ℕ
  pub handed : List (ℕ × ℕ)

abbrev pub new_fresh_read : FreshRead
new_fresh_read = record { running = none; queued = false; loads = 0; waiting = []; handed = [] }

-- Joins the queued load, which is queued now if it was not.
abbrev pub join_queued : ℕ → FreshRead → FreshRead
join_queued after s = record s { queued = true; waiting = after ∷ s.waiting }

abbrev pub read_running : ℕ → Option ℕ → FreshRead → FreshRead
read_running after none s = join_queued after s
read_running after (some started_at) s =
    if leb after started_at
    then record s { handed = (after, started_at) ∷ s.handed }
    else join_queued after s

-- `read(after)`.
unfoldable pub read : ℕ → FreshRead → FreshRead
read after s = read_running after s.running s

abbrev pub hand_out : ℕ → List ℕ → List (ℕ × ℕ)
hand_out now [] = []
hand_out now (after ∷ afters) = (after, now) ∷ hand_out now afters

-- `start`, at the time `now`: whoever waited holds the load that starts.
unfoldable pub start : ℕ → FreshRead → FreshRead
start now s = record s {
  running = some now;
  queued = false;
  loads = suc s.loads;
  waiting = [];
  handed = hand_out now s.waiting ++ s.handed;
}

-- The load that runs settles, by a value or by a failure.
abbrev pub clear : FreshRead → FreshRead
clear s = record s { running = none }
