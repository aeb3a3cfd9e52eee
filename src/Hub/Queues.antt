-- ===== src/Hub/Queues.antt =====
-- server/realtime/hub.ts: what the consumer of one subscription gets.
use bahn_project_manager.Prelude.{
  ℕ, ◌≤◌, ◌≡◌, refl, sym, ap, ◌∙◌, Bool, true, false, ◌||◌, List, [], ◌∷◌, ◌++◌, map, length,
  length-append, leb, if◌then◌else◌, arith,
}
use mathlib.Core.List.{append_assoc}
use bahn_project_manager.Event.{DomainEvent}
use bahn_project_manager.Event.Seen.{SeenEvents, seen}
use bahn_project_manager.Hub.{
  Delivery, event_item, overflow, Sub, new_sub, enqueue, unless_seen, unless_closed, offer, close,
  take_item,
}

-- The events that the subscription took in so far: those offered while it was open and not seen
-- before.
abbrev pub taken_in : Sub → DomainEvent → List DomainEvent → List DomainEvent
taken_in s e fresh = if s.closed || (seen s.seen e.event_id).1 then fresh else fresh ++ e ∷ []

-- A subscription with what it took in and what its consumer got.
pub data Consumed (max : ℕ) : Sub → List DomainEvent → List Delivery → Type 0 where
  opened : Consumed max (new_sub max) [] []
  offered :
      (s : Sub) (e : DomainEvent) (fresh : List DomainEvent) (got : List Delivery)
      → Consumed max s fresh got
      → Consumed max (offer e s) (taken_in s e fresh) got
  took :
      (s : Sub) (fresh : List DomainEvent) (got rest : List Delivery) (item : Delivery)
      → Consumed max s fresh got
      → s.queue ≡ item ∷ rest
      → Consumed max (take_item item rest s) fresh (got ++ item ∷ [])
  released :
      (s : Sub) (fresh : List DomainEvent) (got : List Delivery)
      → Consumed max s fresh got
      → Consumed max (close s) fresh got

abbrev pub items : List DomainEvent → List Delivery
items es = map event_item es

-- All of it came or is still queued; or a part of it, with the mark after it, and nothing after that.
pub data Outcome (s : Sub) (fresh : List DomainEvent) (got : List Delivery) : Type 0 where
  complete : got ++ s.queue ≡ items fresh → Outcome s fresh got
  told :
      (kept lost : List DomainEvent)
      → fresh ≡ kept ++ lost
      → s.closed ≡ true
      → got ++ s.queue ≡ items kept ++ overflow ∷ []
      → Outcome s fresh got

-- The queue stays within its bound.
pub record Fits (max : ℕ) (s : Sub) : Type 0 where
  pub same_max : s.max ≡ max
  pub within : length s.queue ≤ max

abbrev first_or : Delivery → List Delivery → Delivery
first_or d [] = d
first_or d (x ∷ xs) = x

abbrev rest_of : List Delivery → List Delivery
rest_of [] = []
rest_of (x ∷ xs) = xs

head-injective :
    (x y : Delivery) (xs ys : List Delivery) → ◌≡◌ {A = List Delivery} (x ∷ xs) (y ∷ ys) → x ≡ y
head-injective x y xs ys h = ap (first_or x) h

tail-injective :
    (x y : Delivery) (xs ys : List Delivery) → ◌≡◌ {A = List Delivery} (x ∷ xs) (y ∷ ys) → xs ≡ ys
tail-injective x y xs ys h = ap rest_of h

items-append :
    (es : List DomainEvent) (e : DomainEvent) → items (es ++ e ∷ []) ≡ items es ++ event_item e ∷ []
items-append [] e = refl
items-append (x ∷ es) e = ap (λ xs. event_item x ∷ xs) (items-append es e)

-- Everything that holds of a subscription.
pub record Sound (max : ℕ) (s : Sub) (fresh : List DomainEvent) (got : List Delivery) : Type 0 where
  pub outcome : Outcome s fresh got
  pub fits : Fits max s

complete-or-told :
    (s t : Sub) (fresh fresh' : List DomainEvent) (got got' : List Delivery)
    → fresh ≡ fresh'
    → got' ++ t.queue ≡ got ++ s.queue
    → (s.closed ≡ true → t.closed ≡ true)
    → Outcome s fresh got
    → Outcome t fresh' got'
complete-or-told s t fresh fresh' got got' f q c (complete h) = complete (q ∙ h ∙ ap items f)
complete-or-told s t fresh fresh' got got' f q c (told kept lost e k h) =
    told kept lost (sym f ∙ e) (c k) (q ∙ h)

-- What came first of the items came from the first events.
items-prefix :
    (got queue : List Delivery) (fresh : List DomainEvent)
    → got ++ queue ≡ items fresh
    → (kept : List DomainEvent) × (rest : List DomainEvent) × (fresh ≡ kept ++ rest)
      × (got ≡ items kept)
items-prefix [] queue fresh h = ([], fresh, refl, refl)
items-prefix (x ∷ got) queue [] h = absurd (cc h)
items-prefix (x ∷ got) queue (e ∷ fresh) h =
    let (kept, rest, f, g) = items-prefix got queue fresh (tail-injective _ _ _ _ h) in
    (
      e ∷ kept,
      rest,
      ap (λ es. e ∷ es) f,
      ap (λ y. y ∷ got) (head-injective _ _ _ _ h) ∙ ap (λ is. event_item e ∷ is) g,
    )

-- The mark in place of a full queue: the consumer has the first events only.
overflowed :
    (s : Sub) (e : DomainEvent) (fresh : List DomainEvent) (got : List Delivery)
    → s.closed ≡ false
    → Outcome s fresh got
    → Outcome (enqueue e true s) (fresh ++ e ∷ []) got
overflowed s e fresh got live (told kept lost a closed h) = absurd (cc (live, closed))
overflowed s e fresh got live (complete h) =
    let (kept, rest, f, g) = items-prefix got s.queue fresh h in
    told kept (rest ++ e ∷ []) (ap (λ es. es ++ e ∷ []) f ∙ append_assoc kept rest (e ∷ [])) refl
      (ap (λ xs. xs ++ overflow ∷ []) g)

module _ (max : ℕ) (pos : 1 ≤ max) where
  -- A new event in the queue, or the mark in its place, of a subscription that is not closed.
  enqueue-Sound :
      (s : Sub) (e : DomainEvent) (fresh : List DomainEvent) (got : List Delivery) (full : Bool)
      → leb s.max (length s.queue) ≡ full
      → s.closed ≡ false
      → Sound max s fresh got
      → Sound max (enqueue e full s) (fresh ++ e ∷ []) got
  enqueue-Sound s e fresh got true f live sound = record {
    outcome = overflowed s e fresh got live sound.outcome;
    fits = record { same_max = sound.fits.same_max; within = pos };
  }
  enqueue-Sound s e fresh got false f live sound = record {
    outcome = elim sound.outcome [
      | told kept lost a closed h ↦ absurd (cc (live, closed))
      | complete h ↦ complete (
          sym (append_assoc got s.queue (event_item e ∷ []))
          ∙ ap (λ xs. xs ++ event_item e ∷ []) h
          ∙ sym (items-append fresh e))
    ];
    fits = record {
      same_max = sound.fits.same_max;
      within =
          let same = sound.fits.same_max in
          ground (arith, f, same, length-append {0} s.queue (event_item e ∷ []));
    };
  }

  unless_seen-Sound :
      (s : Sub) (e : DomainEvent) (fresh : List DomainEvent) (got : List Delivery)
      (q : SeenEvents × Bool)
      → s.closed ≡ false
      → Sound max s fresh got
      → Sound max (unless_seen e s q) (if q.1 then fresh else fresh ++ e ∷ []) got
  unless_seen-Sound s e fresh got (known, true) live sound = record {
    outcome =
        complete-or-told s (record s { seen = known }) fresh fresh got got refl refl (λ h. h)
          sound.outcome;
    fits = record { same_max = sound.fits.same_max; within = sound.fits.within };
  }
  unless_seen-Sound s e fresh got (known, false) live sound =
      enqueue-Sound (record s { seen = known }) e fresh got (leb s.max (length s.queue)) refl live
        (record {
          outcome =
              complete-or-told s (record s { seen = known }) fresh fresh got got refl refl (λ h. h)
                sound.outcome;
          fits = record { same_max = sound.fits.same_max; within = sound.fits.within };
        })

  unless_closed-Sound :
      (s : Sub) (e : DomainEvent) (fresh : List DomainEvent) (got : List Delivery) (shut : Bool)
      → s.closed ≡ shut
      → Sound max s fresh got
      → Sound max
          (unless_closed shut e s)
          (if shut || (seen s.seen e.event_id).1 then fresh else fresh ++ e ∷ [])
          got
  unless_closed-Sound s e fresh got true h sound = sound
  unless_closed-Sound s e fresh got false h sound =
      unless_seen-Sound s e fresh got (seen s.seen e.event_id) h sound

  take_item-Sound :
      (s : Sub) (fresh : List DomainEvent) (got rest : List Delivery) (item : Delivery)
      → s.queue ≡ item ∷ rest
      → Sound max s fresh got
      → Sound max (take_item item rest s) fresh (got ++ item ∷ [])
  unfolding take_item
  take_item-Sound s fresh got rest (event_item e) q sound = record {
    outcome =
        complete-or-told s (record s { queue = rest }) fresh fresh got (got ++ event_item e ∷ [])
          refl (append_assoc got (event_item e ∷ []) rest ∙ ap (λ xs. got ++ xs) (sym q)) (λ h. h)
          sound.outcome;
    fits = record {
      same_max = sound.fits.same_max;
      within = let w = sound.fits.within in omega (arith, w, ap length q);
    };
  }
  take_item-Sound s fresh got rest overflow q sound = record {
    outcome =
        complete-or-told s (close (record s { queue = rest })) fresh fresh got
          (got ++ overflow ∷ []) refl
          (append_assoc got (overflow ∷ []) rest ∙ ap (λ xs. got ++ xs) (sym q)) (λ h. refl)
          sound.outcome;
    fits = record {
      same_max = sound.fits.same_max;
      within = let w = sound.fits.within in omega (arith, w, ap length q);
    };
  }

  -- Whatever is offered to a subscription and taken from it: either its consumer got, or still has in
  -- its queue, every event that the subscription took in, once and in order; or it got the first of
  -- them, then the mark that events were lost, and nothing after it. The queue never holds more than
  -- its bound.
  pub Consumed-Sound :
      (s : Sub) (fresh : List DomainEvent) (got : List Delivery)
      → Consumed max s fresh got
      → Sound max s fresh got
  unfolding new_sub offer
  Consumed-Sound _ _ _ opened = record {
    outcome = complete refl;
    fits = record { same_max = refl; within = omega arith };
  }
  Consumed-Sound _ _ got (offered s e fresh _ c) =
      unless_closed-Sound s e fresh got s.closed refl (Consumed-Sound s fresh got c)
  Consumed-Sound _ fresh _ (took s _ got rest item c q) =
      take_item-Sound s fresh got rest item q (Consumed-Sound s fresh got c)
  Consumed-Sound _ fresh got (released s _ _ c) =
      let sound = Consumed-Sound s fresh got c in
      record {
        outcome =
            complete-or-told s (close s) fresh fresh got got refl refl (λ h. refl) sound.outcome;
        fits = record { same_max = sound.fits.same_max; within = sound.fits.within };
      }
