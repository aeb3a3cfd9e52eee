-- ===== src/Examples/Hub.antt =====
-- A subscription whose queue overflows, and one that hears an event on two channels.
use bahn_project_manager.Prelude.{
  ◌≡◌, refl, some, [], ◌∷◌, get, nat_eq, codes, arith, if◌then◌else◌,
}
use bahn_project_manager.Runtime.{plain_runtime}
use bahn_project_manager.Event.Scopes.{scopes_for_event}
use bahn_project_manager.Event.Seen.{empty_seen}
use bahn_project_manager.Hub.{Sub, new_sub, offer, LocalHub, publish}
use bahn_project_manager.Hub.Queues.{opened, offered, taken_in, Sound, Consumed-Sound}
use bahn_project_manager.Hub.Publish.{Remembers, listens, get-publish}
use bahn_project_manager.Examples.{in_ulm, into_ulm}

-- A queue of one, and two events.
abbrev full_sub : Sub
full_sub = offer (record into_ulm { event_id = codes "e2" }) (offer in_ulm (new_sub 1))

Consumed-Sound_example :
    Sound 1 full_sub
      (taken_in
        (offer in_ulm (new_sub 1))
        (record into_ulm { event_id = codes "e2" })
        (taken_in (new_sub 1) in_ulm []))
      []
Consumed-Sound_example =
    Consumed-Sound 1 (omega arith) full_sub
      (taken_in (offer in_ulm (new_sub 1)) (record into_ulm { event_id = codes "e2" })
        (taken_in (new_sub 1) in_ulm []))
      []
      (offered (offer in_ulm (new_sub 1)) (record into_ulm { event_id = codes "e2" })
        (taken_in (new_sub 1) in_ulm []) [] (offered (new_sub 1) in_ulm [] [] opened))

abbrev one_sub : LocalHub
one_sub = record {
  channels = (codes "workspace:ulm", 5 ∷ []) ∷ (codes "project:1", 5 ∷ []) ∷ [];
  subs = (5, new_sub 256) ∷ [];
}

new_sub-Remembers : Remembers (new_sub 256)
unfolding new_sub empty_seen
new_sub-Remembers = (omega arith, omega arith)

one_sub_held : get 5 one_sub.subs ≡ some (new_sub 256)
unfolding get
one_sub_held = refl

get-publish_example :
    get 5 (publish plain_runtime in_ulm one_sub).subs
    ≡ some (
        if listens 5 one_sub.channels (scopes_for_event plain_runtime in_ulm)
        then offer in_ulm (new_sub 256)
        else new_sub 256)
get-publish_example =
    get-publish plain_runtime in_ulm 5 (new_sub 256) one_sub new_sub-Remembers one_sub_held
