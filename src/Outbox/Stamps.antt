-- ===== src/Outbox/Stamps.antt =====
-- server/infra/mysqlOutbox.ts: what the stamps and a new row leave alone.
use bahn_project_manager.Prelude.{
  ℕ, ◌≡◌, ◌≢◌, ◌⊎◌, refl, sym, ap, ◌∙◌, true, false, inl, inr, Option, none, some, List, [], ◌∷◌,
  ◌++◌, All, get, nat_eq, nat_beq, nat_beq_iff, Text, Bool-cases, arith, some-injective,
}
use bahn_project_manager.Event.{DomainEvent}
use bahn_project_manager.Outbox.{
  OutboxRow, Table, Parsed, valid, invalid, is_sent, stamp_sent, stamp_dead, dead_for,
}
use bahn_project_manager.Outbox.Selection.{DiffersFrom}

pub is_sent-append :
    (i : ℕ) (log sent : List (ℕ × DomainEvent))
    → is_sent i log ≡ true
    → is_sent i (log ++ sent) ≡ true
is_sent-append i [] sent h = absurd (ground arith)
is_sent-append i (x ∷ log) sent h = ground (arith, is_sent-append i log sent)

pub is_sent-append_later :
    (i : ℕ) (log sent : List (ℕ × DomainEvent))
    → is_sent i sent ≡ true
    → is_sent i (log ++ sent) ≡ true
is_sent-append_later i [] sent h = h
is_sent-append_later i (x ∷ log) sent h = ground (arith, is_sent-append_later i log sent)

abbrev pub KeepsPositions : (ℕ → OutboxRow → OutboxRow) → Type 0
KeepsPositions f =
    (i : ℕ) (r : OutboxRow) → ((f i r).feed_seq ≡ r.feed_seq) × ((f i r).envelope ≡ r.envelope)

pub unsent-unchanged :
    (i : ℕ) (sent : List (ℕ × DomainEvent)) (r : OutboxRow)
    → is_sent i sent ≡ false
    → stamp_sent sent i r ≡ r
unsent-unchanged i sent r b = rw b

pub stamp_sent-KeepsPositions : (sent : List (ℕ × DomainEvent)) → KeepsPositions (stamp_sent sent)
stamp_sent-KeepsPositions sent i r = elim (Bool-cases (is_sent i sent)) [
  | inl b ↦ rw b (refl, refl)
  | inr b ↦ rw b (refl, refl)
]

pub dead_for-keeps :
    (o : Option Text) (r : OutboxRow)
    → ((dead_for o r).feed_seq ≡ r.feed_seq) × ((dead_for o r).envelope ≡ r.envelope)
dead_for-keeps none r = (refl, refl)
dead_for-keeps (some reason) r = (refl, refl)

pub stamp_dead-KeepsPositions : (dead : List (ℕ × Text)) → KeepsPositions (stamp_dead dead)
stamp_dead-KeepsPositions dead i r = dead_for-keeps (get i dead) r

pub dead_for-alive :
    (o : Option Text) (r : OutboxRow) → (dead_for o r).failed ≡ none → dead_for o r ≡ r
dead_for-alive none r h = refl
dead_for-alive (some reason) r h = absurd (cc h)

pub get-nothing : (i : ℕ) (r : OutboxRow) (t : Table) → t ≡ [] → get i t ≢ some r
unfolding get
get-nothing i r [] e h = absurd (cc h)
get-nothing i r (x ∷ t) e h = absurd (cc e)

pub get-skip :
    (k j : ℕ) (q : OutboxRow) (t : Table) → nat_beq k j ≡ false → get j ((k, q) ∷ t) ≡ get j t
unfolding get
get-skip k j q t b = rw b

-- A row as its transaction inserts it.
abbrev pub new_row : ℕ → Text → ℕ × OutboxRow
new_row i envelope =
    (i, record { envelope = envelope; feed_seq = none; processed = false; failed = none })

pub stored-differs :
    (i j : ℕ) (r : OutboxRow) (t : Table) → All (DiffersFrom i) t → get j t ≡ some r → i ≢ j
stored-differs i j r [] a h e = absurd (get-nothing j r [] refl h)
stored-differs i j r ((k, q) ∷ t) (ne, a) h e = elim (Bool-cases (nat_beq k j)) [
  | inl b ↦ ne (e ∙ sym ((nat_beq_iff k j).0 b))
  | inr b ↦ stored-differs i j r t a (sym (get-skip k j q t b) ∙ h) e
]

-- What stands under an id once a row is new.
pub stored-cases :
    (i : ℕ) (envelope : Text) (j : ℕ) (r : OutboxRow) (t : Table)
    → get j (new_row i envelope ∷ t) ≡ some r
    → (r ≡ (new_row i envelope).1) ⊎ (get j t ≡ some r)
unfolding get
stored-cases i envelope j r t h = elim (Bool-cases (nat_beq i j)) [
  | inl b ↦ inl (sym (some-injective _ r (rw b at h)))
  | inr b ↦ inr (rw b at h)
]

abbrev event_or : DomainEvent → Parsed → DomainEvent
event_or d (valid e) = e
event_or d (invalid reason) = d

pub valid-injective : (d e : DomainEvent) → valid d ≡ valid e → d ≡ e
valid-injective d e h = ap (event_or d) h
