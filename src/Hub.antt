-- ===== src/Hub.antt =====
-- server/realtime/hub.ts: subscriptions with bounded queues, the channels that lead to them, and the
-- delivery of one event on its channels. Subscriptions are numbered; the confirmations of the
-- transport and the hooks of channels are left out.
pub mod Queues
pub mod Publish
use bahn_project_manager.Prelude.{
  ℕ, ◌+◌, Bool, true, false, not, ◌||◌, Option, none, some, List, [], ◌∷◌, ◌++◌, filter, length,
  leb, any, if◌then◌else◌, get, put, del, nat_eq, nat_beq, Text, text_eq, text_beq,
}
use bahn_project_manager.Runtime.{Runtime}
use bahn_project_manager.Event.{DomainEvent}
use bahn_project_manager.Event.Scopes.{ScopeKey, scopes_for_event}
use bahn_project_manager.Event.Seen.{SeenEvents, empty_seen, seen}

-- What a consumer gets: an event, or the mark that events were lost.
pub data Delivery : Type 0 where
  event_item : DomainEvent → Delivery
  overflow : Delivery

pub record Sub : Type 0 where
  pub queue : List Delivery
  pub closed : Bool
  pub seen : SeenEvents
  pub max : ℕ
  pub channels : List ScopeKey

unfoldable pub new_sub : ℕ → Sub
unfolding empty_seen
new_sub max = record { queue = []; closed = false; seen = empty_seen 512; max = max; channels = [] }

-- A new event: into the queue, or in its place the mark when the queue is full.
abbrev pub enqueue : DomainEvent → Bool → Sub → Sub
enqueue e true s = record s { queue = overflow ∷ []; closed = true }
enqueue e false s = record s { queue = s.queue ++ event_item e ∷ [] }

-- Whether the event was delivered before, on this channel or on another.
abbrev pub unless_seen : DomainEvent → Sub → SeenEvents × Bool → Sub
unless_seen e s (known, true) = record s { seen = known }
unless_seen e s (known, false) = enqueue e (leb s.max (length s.queue)) (record s { seen = known })

abbrev pub unless_closed : Bool → DomainEvent → Sub → Sub
unless_closed true e s = s
unless_closed false e s = unless_seen e s (seen s.seen e.event_id)

-- The loop of `deliver`, for one subscription.
unfoldable pub offer : DomainEvent → Sub → Sub
unfolding seen
offer e s = unless_closed s.closed e s

pub record LocalHub : Type 0 where
  pub channels : List (ScopeKey × List ℕ)
  pub subs : List (ℕ × Sub)

abbrev pub on_sub : (Sub → Sub) → ℕ → Option Sub → LocalHub → LocalHub
on_sub f id none hub = hub
on_sub f id (some s) hub = record hub { subs = put id (f s) hub.subs }

unfoldable pub update_sub : (Sub → Sub) → ℕ → LocalHub → LocalHub
unfolding get put
update_sub f id hub = on_sub f id (get id hub.subs) hub

unfoldable pub deliver_to : DomainEvent → List ℕ → LocalHub → LocalHub
unfolding update_sub offer
deliver_to e [] hub = hub
deliver_to e (id ∷ ids) hub = deliver_to e ids (update_sub (offer e) id hub)

abbrev pub members : Option (List ℕ) → List ℕ
members none = []
members (some ids) = ids

-- `deliver`.
unfoldable pub deliver : ScopeKey → DomainEvent → LocalHub → LocalHub
unfolding get deliver_to
deliver channel e hub = deliver_to e (members (get channel hub.channels)) hub

unfoldable pub deliver_all : List ScopeKey → DomainEvent → LocalHub → LocalHub
unfolding deliver
deliver_all [] e hub = hub
deliver_all (c ∷ cs) e hub = deliver_all cs e (deliver c e hub)

-- `InProcessBus.publish`.
unfoldable pub publish : Runtime → DomainEvent → LocalHub → LocalHub
unfolding deliver_all scopes_for_event
publish rt e hub = deliver_all (scopes_for_event rt e) e hub

abbrev pub add_once : ℕ → List ℕ → List ℕ
add_once id ids = if any (nat_beq id) ids then ids else ids ++ id ∷ []

abbrev pub add_channel : ScopeKey → Sub → Sub
add_channel c s = record s {
  channels = if any (text_beq c) s.channels then s.channels else s.channels ++ c ∷ [];
}

-- `attach`.
unfoldable pub attach : ℕ → ScopeKey → LocalHub → LocalHub
unfolding update_sub get put
attach id c hub =
    let attached = update_sub (add_channel c) id hub in
    record attached { channels = put c (add_once id (members (get c hub.channels))) hub.channels }

abbrev drop_channel : ScopeKey → Sub → Sub
drop_channel c s = record s { channels = filter (λ d. not (text_beq c d)) s.channels }

-- A channel whose last subscription leaves is closed.
abbrev pub without_member : ScopeKey → List ℕ → List (ScopeKey × List ℕ) → List (ScopeKey × List ℕ)
without_member c [] channels = del c channels
without_member c (id ∷ ids) channels = put c (id ∷ ids) channels

abbrev leaving : ℕ → ScopeKey → Option (List ℕ) → LocalHub → LocalHub
leaving id c none hub = hub
leaving id c (some ids) hub = record hub {
  channels = without_member c (filter (λ i. not (nat_beq id i)) ids) hub.channels;
}

abbrev detach_sub : ℕ → ScopeKey → Option Sub → LocalHub → LocalHub
detach_sub id c none hub = hub
detach_sub id c (some s) hub =
    if any (text_beq c) s.channels
    then leaving id c (get c hub.channels) (update_sub (drop_channel c) id hub)
    else hub

-- `detach`.
unfoldable pub detach : ℕ → ScopeKey → LocalHub → LocalHub
unfolding update_sub get put del
detach id c hub = detach_sub id c (get id hub.subs) hub

unfoldable pub attach_all : ℕ → List ScopeKey → LocalHub → LocalHub
unfolding attach
attach_all id [] hub = hub
attach_all id (c ∷ cs) hub = attach_all id cs (attach id c hub)

unfoldable pub detach_all : ℕ → List ScopeKey → LocalHub → LocalHub
unfolding detach
detach_all id [] hub = hub
detach_all id (c ∷ cs) hub = detach_all id cs (detach id c hub)

-- `subscribe`, once its iterator is asked for.
unfoldable pub subscribe : ℕ → ℕ → List ScopeKey → LocalHub → LocalHub
unfolding attach_all new_sub put
subscribe id max channels hub =
    attach_all id channels (record hub { subs = put id (new_sub max) hub.subs })

abbrev channels_of : Option Sub → List ScopeKey
channels_of none = []
channels_of (some s) = s.channels

abbrev pub close : Sub → Sub
close s = record s { closed = true }

-- `release`.
unfoldable pub release : ℕ → LocalHub → LocalHub
unfolding detach_all update_sub get
release id hub = detach_all id (channels_of (get id hub.subs)) (update_sub close id hub)

-- What `next` does to the subscription when an item waits: the mark ends it.
abbrev pub after_item : Delivery → Sub → Sub
after_item (event_item e) s = s
after_item overflow s = close s

unfoldable pub take_item : Delivery → List Delivery → Sub → Sub
take_item item rest s = after_item item (record s { queue = rest })
