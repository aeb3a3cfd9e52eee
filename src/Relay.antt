-- ===== src/Relay.antt =====
-- server/realtime/relay.ts: the loop that drains the outbox, as a state and the steps of the process:
-- it is started, stopped, nudged after a commit; its timer fires; a drain ends.
pub mod Wakes
use bahn_project_manager.Prelude.{
  ℕ, ◌+◌, ◌*◌, ◌^◌, min, Bool, true, false, Option, none, some, if◌then◌else◌, nat_beq,
}

pub record RelayOptions : Type 0 where
  pub batch : ℕ
  pub poll_ms : ℕ
  pub max_backoff_ms : ℕ

-- `timer` is the delay of the timeout that is set and has not fired.
pub record Relay : Type 0 where
  pub timer : Option ℕ
  pub running : Bool
  pub again : Bool
  pub stopped : Bool
  pub failures : ℕ

unfoldable pub new_relay : Relay
new_relay = record { timer = none; running = false; again = false; stopped = true; failures = 0 }

-- How a drain ends: it throws, another relay holds the lock, or it has published so many events, with
-- or without a failure of the bus.
pub data DrainEnd : Type 0 where
  threw locked_out : DrainEnd
  published : ℕ → Bool → DrainEnd

-- `schedule`.
abbrev pub schedule_if : Bool → ℕ → Relay → Relay
schedule_if true ms s = s
schedule_if false ms s = record s { timer = some ms }

unfoldable pub schedule : ℕ → Relay → Relay
schedule ms s = schedule_if s.stopped ms s

unfoldable pub start : Relay → Relay
unfolding schedule
start s = schedule 0 (record s { stopped = false })

unfoldable pub stop : Relay → Relay
stop s = record s { stopped = true; timer = none }

-- `nudge`, by `stopped` and `running`.
abbrev pub nudge_if : Bool → Bool → Relay → Relay
nudge_if true running s = s
nudge_if false true s = record s { again = true }
nudge_if false false s = schedule 0 (record s { again = true })

unfoldable pub nudge : Relay → Relay
unfolding schedule
nudge s = nudge_if s.stopped s.running s

-- The timer fires: `tick` up to its call of `drain`.
abbrev pub begin_if : Bool → Relay → Relay
begin_if true s = record s { timer = none; again = true }
begin_if false s = record s { timer = none; running = true }

unfoldable pub begin_tick : Relay → Relay
begin_tick s = begin_if s.running s

-- The delay when nothing failed, and the state before the next timeout.
abbrev pub settled : ℕ → Relay → Relay × ℕ
settled next s = if s.again then (record s { again = false }, min next 0) else (s, next)

-- The delay after a failure.
abbrev pub backed_off : RelayOptions → Relay → Relay × ℕ
backed_off opt s =
    (record s { failures = s.failures + 1 }, min opt.max_backoff_ms (100 * 2 ^ (s.failures + 1)))

abbrev pub drain_end : RelayOptions → DrainEnd → Relay → Relay × ℕ
drain_end opt threw s = backed_off opt s
drain_end opt locked_out s = settled opt.poll_ms s
drain_end opt (published n true) s = backed_off opt s
drain_end opt (published n false) s =
    settled (if nat_beq n opt.batch then 0 else opt.poll_ms) (record s { failures = 0 })

abbrev pub rescheduled : Relay × ℕ → Relay
rescheduled (s, next) = schedule next (record s { running = false })

-- `tick` from the end of its drain on.
unfoldable pub end_tick : RelayOptions → DrainEnd → Relay → Relay
unfolding schedule
end_tick opt e s = rescheduled (drain_end opt e s)
