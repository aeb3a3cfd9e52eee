-- ===== src/Hub/Publish.antt =====
-- server/realtime/hub.ts: one event on the channels of a subscription.
use bahn_project_manager.Prelude.{
  ℕ, ◌≤◌, ◌≡◌, ◌≢◌, refl, sym, ap, ◌∙◌, Bool, true, false, ◌||◌, some, List, [], ◌∷◌, any, length,
  leb, if◌then◌else◌, get, nat_eq, nat_beq, nat_beq_iff, text_eq, Bool-cases, Option-cases, inl,
  inr, get-put_self, get-put_ne, arith,
}
use bahn_project_manager.Runtime.{Runtime}
use bahn_project_manager.Event.{DomainEvent}
use bahn_project_manager.Event.Scopes.{ScopeKey, scopes_for_event}
use bahn_project_manager.Event.Seen.{SeenEvents, seen, seen-twice}
use bahn_project_manager.Hub.{
  Sub, LocalHub, enqueue, unless_seen, unless_closed, offer, on_sub, update_sub, deliver_to,
  members, deliver, deliver_all, publish,
}

unless_closed-again :
    (shut : Bool) (e : DomainEvent) (s : Sub)
    → seen s.seen e.event_id ≡ (s.seen, true)
    → unless_closed shut e s ≡ s
unless_closed-again true e s h = refl
unless_closed-again false e s h = ap (unless_seen e s) h

seen-enqueue : (e : DomainEvent) (full : Bool) (s : Sub) → (enqueue e full s).seen ≡ s.seen
seen-enqueue e true s = refl
seen-enqueue e false s = refl

seen-unless_seen :
    (e : DomainEvent) (s : Sub) (q : SeenEvents × Bool) → (unless_seen e s q).seen ≡ q.0
seen-unless_seen e s (known, true) = refl
seen-unless_seen e s (known, false) =
    seen-enqueue e (leb s.max (length s.queue)) (record s { seen = known })

-- The ids that a subscription remembers are within bounds.
abbrev pub Remembers : Sub → Type 0
Remembers s = (length s.seen.ids ≤ s.seen.capacity) × (1 ≤ s.seen.capacity)

offer-again_if :
    (shut : Bool) (e : DomainEvent) (s : Sub)
    → s.closed ≡ shut
    → Remembers s
    → let t = unless_closed shut e s in unless_closed t.closed e t ≡ t
offer-again_if true e s h b = ap (λ o. unless_closed o e s) h
offer-again_if false e s h (b, c) =
    let t = unless_seen e s (seen s.seen e.event_id) in
    let known = seen-unless_seen e s (seen s.seen e.event_id) in
    unless_closed-again t.closed e t (
      ap (λ k. seen k e.event_id) known
      ∙ seen-twice s.seen e.event_id b c
      ∙ ap (λ k. (k, true)) (sym known))

-- The same event again changes nothing.
offer-again : (e : DomainEvent) (s : Sub) → Remembers s → offer e (offer e s) ≡ offer e s
unfolding offer
offer-again e s b = offer-again_if s.closed e s refl b

or-none : (b : Bool) → b ≡ (b || false)
or-none true = refl
or-none false = refl

or-true : (b c d : Bool) → c ≡ true → true ≡ (b || (c || d))
or-true true c d h = refl
or-true false c d h = ap (λ o. o || d) (sym h)

or_assoc : (b c d : Bool) → ((b || c) || d) ≡ (b || (c || d))
or_assoc true c d = refl
or_assoc false c d = refl

abbrev after : Bool → DomainEvent → Sub → Sub
after false e s = s
after true e s = offer e s

offer-after :
    (b : Bool) (e : DomainEvent) (s : Sub) → Remembers s → offer e (after b e s) ≡ offer e s
offer-after false e s h = refl
offer-after true e s h = offer-again e s h

update_sub-other :
    (f : Sub → Sub) (i id : ℕ) (hub : LocalHub)
    → i ≢ id
    → get id (update_sub f i hub).subs ≡ get id hub.subs
unfolding update_sub
update_sub-other f i id hub ne = elim (Option-cases (get i hub.subs)) [
  | inl n ↦ ap (λ o. get id (on_sub f i o hub).subs) n
  | inr (s, h) ↦ ap (λ o. get id (on_sub f i o hub).subs) h ∙ get-put_ne i id (f s) hub.subs ne
]

update_sub-own :
    (f : Sub → Sub) (id : ℕ) (s : Sub) (hub : LocalHub)
    → get id hub.subs ≡ some s
    → get id (update_sub f id hub).subs ≡ some (f s)
unfolding update_sub
update_sub-own f id s hub h =
    ap (λ o. get id (on_sub f id o hub).subs) h ∙ get-put_self id (f s) hub.subs

channels-update_sub :
    (f : Sub → Sub) (i : ℕ) (hub : LocalHub) → (update_sub f i hub).channels ≡ hub.channels
unfolding update_sub
channels-update_sub f i hub = elim (Option-cases (get i hub.subs)) [
  | inl n ↦ ap (λ o. (on_sub f i o hub).channels) n
  | inr (s, h) ↦ ap (λ o. (on_sub f i o hub).channels) h
]

channels-deliver_to :
    (e : DomainEvent) (ids : List ℕ) (hub : LocalHub)
    → (deliver_to e ids hub).channels ≡ hub.channels
unfolding deliver_to
channels-deliver_to e [] hub = refl
channels-deliver_to e (i ∷ ids) hub =
    channels-deliver_to e ids (update_sub (offer e) i hub) ∙ channels-update_sub (offer e) i hub

after-if : (e : DomainEvent) (s : Sub) (b : Bool) → after b e s ≡ (if b then offer e s else s)
after-if e s true = refl
after-if e s false = refl

-- Whether the subscription listens on one of the channels.
abbrev pub listens : ℕ → List (ScopeKey × List ℕ) → List ScopeKey → Bool
listens id channels [] = false
listens id channels (c ∷ cs) = any (nat_beq id) (members (get c channels)) || listens id channels cs

module _ (e : DomainEvent) (id : ℕ) (s : Sub) (memory : Remembers s) where
  deliver_to-after :
      (ids : List ℕ) (b : Bool) (hub : LocalHub)
      → get id hub.subs ≡ some (after b e s)
      → get id (deliver_to e ids hub).subs ≡ some (after (b || any (nat_beq id) ids) e s)
  unfolding deliver_to
  deliver_to-after [] b hub h = h ∙ ap (λ o. some (after o e s)) (or-none b)
  deliver_to-after (i ∷ ids) b hub h = elim (Bool-cases (nat_beq id i)) [
    | inl same ↦
        let own = (nat_beq_iff id i).0 same in
        let now =
          ap (λ j. get id (update_sub (offer e) j hub).subs) (sym own)
          ∙ update_sub-own (offer e) id (after b e s) hub h
          ∙ ap some (offer-after b e s memory) in
        deliver_to-after ids true (update_sub (offer e) i hub) now
        ∙ ap (λ o. some (after o e s)) (or-true b (nat_beq id i) (any (nat_beq id) ids) same)
    | inr other ↦
        let ne : i ≢ id = λ q. ground (arith, nat_beq_iff id i) in
        deliver_to-after ids b (update_sub (offer e) i hub)
          (update_sub-other (offer e) i id hub ne ∙ h)
        ∙ ap (λ o. some (after (b || (o || any (nat_beq id) ids)) e s)) (sym other)
  ]

  deliver_all-after :
      (cs : List ScopeKey) (b : Bool) (hub : LocalHub)
      → get id hub.subs ≡ some (after b e s)
      → get id (deliver_all cs e hub).subs ≡ some (after (b || listens id hub.channels cs) e s)
  unfolding deliver_all deliver
  deliver_all-after [] b hub h = h ∙ ap (λ o. some (after o e s)) (or-none b)
  deliver_all-after (c ∷ cs) b hub h =
      let ids = members (get c hub.channels) in
      let first = any (nat_beq id) ids in
      deliver_all-after cs (b || first) (deliver_to e ids hub) (deliver_to-after ids b hub h)
      ∙ ap (λ m. some (after ((b || first) || listens id m cs) e s)) (channels-deliver_to e ids hub)
      ∙ ap (λ o. some (after o e s)) (or_assoc b first (listens id hub.channels cs))

-- An event that is published is offered once to each subscription that listens on one or more of its
-- channels, and not at all to the others.
pub get-publish :
    (rt : Runtime) (e : DomainEvent) (id : ℕ) (s : Sub) (hub : LocalHub)
    → Remembers s
    → get id hub.subs ≡ some s
    → get id (publish rt e hub).subs
      ≡ some (if listens id hub.channels (scopes_for_event rt e) then offer e s else s)
unfolding publish
get-publish rt e id s hub memory h =
    deliver_all-after e id s memory (scopes_for_event rt e) false hub h
    ∙ ap some (after-if e s (listens id hub.channels (scopes_for_event rt e)))
