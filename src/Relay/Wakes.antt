-- ===== src/Relay/Wakes.antt =====
-- server/realtime/relay.ts: the runs of a relay and its wake-ups.
use bahn_project_manager.Prelude.{
  ℕ, ◌≤◌, ◌≡◌, ◌⊎◌, inl, inr, refl, sym, ◌∙◌, subst, max, Bool, true, false, some, if◌then◌else◌,
  nat_beq, arith, Bool-cases,
}
use bahn_project_manager.Relay.{
  RelayOptions, Relay, DrainEnd, threw, locked_out, published, new_relay, schedule, start, stop,
  nudge, schedule_if, nudge_if, begin_if, begin_tick, end_tick, settled, drain_end,
}

-- The steps of the process. A timer fires only when one is set, a drain ends only when one runs.
pub data Steps (opt : RelayOptions) : Relay → Type 0 where
  created : Steps opt new_relay
  started : (s : Relay) → Steps opt s → Steps opt (start s)
  was_stopped : (s : Relay) → Steps opt s → Steps opt (stop s)
  nudged : (s : Relay) → Steps opt s → Steps opt (nudge s)
  fired : (s : Relay) (ms : ℕ) → Steps opt s → s.timer ≡ some ms → Steps opt (begin_tick s)
  ended : (s : Relay) (e : DrainEnd) → Steps opt s → s.running ≡ true → Steps opt (end_tick opt e s)

-- The next drain is on its way: one runs, or a timeout is set, no longer than the options allow.
abbrev pub Awake : RelayOptions → Relay → Type 0
Awake opt s =
    (s.running ≡ true)
    ⊎ ((ms : ℕ) × (s.timer ≡ some ms) × (ms ≤ max opt.poll_ms opt.max_backoff_ms))

set_timer :
    (opt : RelayOptions) (s : Relay) (ms : ℕ)
    → s.stopped ≡ false
    → ms ≤ max opt.poll_ms opt.max_backoff_ms
    → Awake opt (schedule ms s)
unfolding schedule
set_timer opt s ms h b = subst (λ o. Awake opt (schedule_if o ms s)) (sym h) (inr (ms, refl, b))

stopped-schedule_if : (o : Bool) (ms : ℕ) (s : Relay) → (schedule_if o ms s).stopped ≡ s.stopped
stopped-schedule_if true ms s = refl
stopped-schedule_if false ms s = refl

nudge_if-Awake :
    (opt : RelayOptions) (o run : Bool) (s : Relay)
    → s.stopped ≡ o
    → s.running ≡ run
    → (nudge_if o run s).stopped ≡ false
    → Awake opt (nudge_if o run s)
nudge_if-Awake opt true run s e f h = absurd (cc (e, h))
nudge_if-Awake opt false true s e f h = inl f
nudge_if-Awake opt false false s e f h = set_timer opt (record s { again = true }) 0 e (omega arith)

begin_if-Awake :
    (opt : RelayOptions) (run : Bool) (s : Relay) → s.running ≡ run → Awake opt (begin_if run s)
begin_if-Awake opt true s e = inl e
begin_if-Awake opt false s e = inl refl

settled-bounds :
    (opt : RelayOptions) (next : ℕ) (s : Relay)
    → next ≤ opt.poll_ms
    → ((settled next s).1 ≤ opt.poll_ms) × ((settled next s).0.stopped ≡ s.stopped)
settled-bounds opt next s h = elim (Bool-cases s.again) [
  | inl b ↦ rw b (omega arith, refl)
  | inr b ↦ rw b (h, refl)
]

drain_end-bounds :
    (opt : RelayOptions) (e : DrainEnd) (s : Relay)
    → ((drain_end opt e s).1 ≤ max opt.poll_ms opt.max_backoff_ms)
      × ((drain_end opt e s).0.stopped ≡ s.stopped)
drain_end-bounds opt threw s = (omega arith, refl)
drain_end-bounds opt locked_out s =
    let (b, e) = settled-bounds opt opt.poll_ms s (omega arith) in (omega arith, e)
drain_end-bounds opt (published n true) s = (omega arith, refl)
drain_end-bounds opt (published n false) s =
    let next = if nat_beq n opt.batch then 0 else opt.poll_ms in
    let small : next ≤ opt.poll_ms = ground arith in
    let (b, e) = settled-bounds opt next (record s { failures = 0 }) small in (omega arith, e)

-- Whatever happens, and however often a drain fails, a relay that is not stopped has a drain running
-- or a timeout set, which is at most the longer of the polling interval and the longest back-off.
pub Steps-Awake : (opt : RelayOptions) (s : Relay) → Steps opt s → s.stopped ≡ false → Awake opt s
unfolding new_relay start stop nudge begin_tick end_tick schedule
Steps-Awake opt _ created h = absurd (cc h)
Steps-Awake opt _ (started s r) h =
    set_timer opt (record s { stopped = false }) 0 refl (omega arith)
Steps-Awake opt _ (was_stopped s r) h = absurd (cc h)
Steps-Awake opt _ (nudged s r) h = nudge_if-Awake opt s.stopped s.running s refl refl h
Steps-Awake opt _ (fired s ms r e) h = begin_if-Awake opt s.running s refl
Steps-Awake opt _ (ended s e r running) h =
    let (b, o) = drain_end-bounds opt e s in
    let t = (drain_end opt e s).0 in
    let live : t.stopped ≡ false =
      sym (stopped-schedule_if t.stopped ((drain_end opt e s).1) (record t { running = false }))
      ∙ h in
    set_timer opt (record t { running = false }) ((drain_end opt e s).1) live b
