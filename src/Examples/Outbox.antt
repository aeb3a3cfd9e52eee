-- ===== src/Examples/Outbox.antt =====
-- An outbox with one event that goes out and one envelope that cannot be read.
use bahn_project_manager.Prelude.{
  ℕ, ◌≡◌, refl, true, false, none, some, [], ◌∷◌, ◌++◌, if◌then◌else◌, get, nat_eq, Text, text_beq,
  codes, inl, arith,
}
use bahn_project_manager.Event.{DomainEvent}
use bahn_project_manager.Outbox.{
  OutboxRow, Table, Parsed, valid, invalid, Published, drain, backlog, is_sent, insert_by,
}
use bahn_project_manager.Outbox.Stamps.{new_row}
use bahn_project_manager.Outbox.Delivery.{
  Reach, start, insert, drained, Reach-one_event, Reach-at_least_once,
}
use bahn_project_manager.Outbox.Progress.{drains, drains-empty}
use bahn_project_manager.Relay.{RelayOptions, Relay, new_relay, begin_tick, end_tick, threw}
use bahn_project_manager.Relay.{start as start_relay}
use bahn_project_manager.Relay.Wakes.{Steps, created, started, fired, ended, Awake, Steps-Awake}
use bahn_project_manager.Examples.{in_ulm}

abbrev read : Text → Parsed
read envelope = if text_beq envelope (codes "good") then valid in_ulm else invalid (codes "broken")

-- The row with the larger id came first.
abbrev two_rows : Table
two_rows = new_row 1 (codes "bad") ∷ new_row 2 (codes "good") ∷ []

two_rows_reached : Reach read two_rows []
two_rows_reached =
    insert (new_row 2 (codes "good") ∷ []) [] 1 (codes "bad")
      (insert [] [] 2 (codes "good") start tt) (omega arith, tt)

abbrev row_2 : OutboxRow
row_2 = record { envelope = codes "good"; feed_seq = some 1; processed = true; failed = none }

abbrev after : Table
after =
    (
      1,
      record {
        envelope = codes "bad";
        feed_seq = none;
        processed = true;
        failed = some (codes "broken");
      },
    )
    ∷ (2, row_2)
    ∷ []

abbrev sent : Published
sent = record {
  sent = (2, record in_ulm { feed_seq = some 1 }) ∷ [];
  dead = (1, codes "broken") ∷ [];
  failure = false;
}

drained_two : drain read true 10 (λ e. true) two_rows ≡ some (after, sent)
unfolding drain insert_by get
drained_two = refl

after_reached : Reach read after ([] ++ sent.sent)
after_reached = drained two_rows after [] 10 (λ e. true) sent two_rows_reached drained_two

Reach-one_event_example :
    ◌≡◌ {A = ℕ × DomainEvent}
      (2, record in_ulm { feed_seq = some 1 })
      (2, record in_ulm { feed_seq = some 1 })
Reach-one_event_example =
    Reach-one_event read after ([] ++ sent.sent) (2, record in_ulm { feed_seq = some 1 })
      (2, record in_ulm { feed_seq = some 1 }) 1 after_reached (inl refl) (inl refl) refl refl

row_2_held : get 2 after ≡ some row_2
unfolding get
row_2_held = refl

Reach-at_least_once_example : is_sent 2 ([] ++ sent.sent) ≡ true
Reach-at_least_once_example =
    Reach-at_least_once read after ([] ++ sent.sent) 2 row_2 after_reached row_2_held refl refl

drains-empty_example : backlog (drains read (backlog two_rows) 1 two_rows) ≡ 0
drains-empty_example = drains-empty read 0 two_rows [] two_rows_reached

abbrev options : RelayOptions
options = record { batch = 200; poll_ms = 250; max_backoff_ms = 10000 }

-- The first drain throws.
abbrev failed_once : Relay
failed_once = end_tick options threw (begin_tick (start_relay new_relay))

failed_once_reached : Steps options failed_once
unfolding new_relay start_relay begin_tick
failed_once_reached =
    ended (begin_tick (start_relay new_relay)) threw
      (fired (start_relay new_relay) 0 (started new_relay created) refl) refl

not_stopped : failed_once.stopped ≡ false
unfolding new_relay start_relay begin_tick end_tick
not_stopped = refl

Steps-Awake_example : Awake options failed_once
Steps-Awake_example = Steps-Awake options failed_once failed_once_reached not_stopped
