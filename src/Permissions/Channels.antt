-- ===== src/Permissions/Channels.antt =====
-- Subscriptions against visibility: `canSubscribe` of server/domain/permissions.ts and
-- `scopesForEvent` of shared/domain-events.ts.
use bahn_project_manager.Prelude.{
  ◌≡◌, ◌≢◌, refl, ◌⊎◌, inl, inr, true, false, Option, none, some, List, [], ◌∷◌, ◌++◌, arith, any,
  All, All-append, if◌then◌else◌, starts_with, Text, text_beq, text_beq_iff, codes, Bool-cases,
  is_slug_char,
}
use bahn_project_manager.Runtime.{Runtime}
use bahn_project_manager.Event.{DomainEvent, project}
use bahn_project_manager.Event.Slug.{slugify, slugify-IsSlug, Words-slug_char}
use bahn_project_manager.Event.Scopes.{
  ScopeKey, project_scope, workspace_scope, collection_scope, add_scope, add_named,
  scopes_for_event, scopes_for_event-project, project_scopes, is_membership_event,
}
use bahn_project_manager.Permissions.{
  Principal, allows_key, is_unrestricted, workspace_restriction, can_view_project, can_subscribe,
}

-- A workspace channel is open to exactly those who may view the workspace's projects.
pub can_subscribe-workspace_scope :
    (rt : Runtime) (p : Principal) (ws : Text)
    → can_subscribe rt p (workspace_scope rt ws) ≡ can_view_project rt p (some ws)
unfolding can_subscribe can_view_project
can_subscribe-workspace_scope rt p ws = ground arith

All-slug : (rt : Runtime) (ws : Text) → All (λ c. is_slug_char c ≡ true) (slugify rt ws)
All-slug rt ws = elim (slugify-IsSlug rt ws) [
  | inl e ↦ rw e tt
  | inr h ↦ Words-slug_char false (slugify rt ws) h
]

abbrev Plain : Text → Type 0
Plain s = All (λ c. is_slug_char c ≡ true) s

Plain-starts_with : (s p : Text) → starts_with s p ≡ true → Plain s → Plain p
unfolding starts_with
Plain-starts_with s [] e h = tt
Plain-starts_with [] (d ∷ p) e h = cc
Plain-starts_with (c ∷ s) (d ∷ p) e (k, h) = (ground arith, Plain-starts_with s p (ground arith) h)

-- A slug has no dot, so it names neither the booking calendar nor a checklist collection.
slug-ne-booking : (s : Text) → Plain s → text_beq s (codes "booking.all") ≡ false
slug-ne-booking s h = elim (Bool-cases (text_beq s (codes "booking.all"))) [
  | inl e ↦
      let dotted : Plain (codes "booking.all") =
        rw ((text_beq_iff s (codes "booking.all")).0 e) at h in
      ground (arith, dotted)
  | inr e ↦ e
]

slug-ne-checklist : (s : Text) → Plain s → starts_with s (codes "checklist.") ≡ false
slug-ne-checklist s h = elim (Bool-cases (starts_with s (codes "checklist."))) [
  | inl e ↦ let dotted = Plain-starts_with s (codes "checklist.") e h in ground (arith, dotted)
  | inr e ↦ e
]

collection_lem :
    (rt : Runtime) (p : Principal) (key : Text)
    → Plain key
    → can_subscribe rt p (codes "collection:" ++ key) ≡ (
        if text_beq key (codes "all")
        then is_unrestricted (workspace_restriction p)
        else allows_key rt (workspace_restriction p) key)
unfolding can_subscribe
collection_lem rt p key h = ground (arith, slug-ne-booking key h, slug-ne-checklist key h)

collection_all :
    (rt : Runtime) (p : Principal)
    → can_subscribe rt p (codes "collection:all") ≡ is_unrestricted (workspace_restriction p)
unfolding can_subscribe
collection_all rt p = refl

unrestricted-view :
    (rt : Runtime) (p : Principal) (ws : Option Text)
    → is_unrestricted (workspace_restriction p) ≡ true
    → can_view_project rt p ws ≡ true
unfolding can_view_project
unrestricted-view rt p ws h = ground arith

allows_key-view :
    (rt : Runtime) (p : Principal) (ws : Text)
    → allows_key rt (workspace_restriction p) (slugify rt ws) ≡ can_view_project rt p (some ws)
unfolding can_view_project
allows_key-view rt p ws = ground arith

-- Nobody may subscribe to the membership feed of a workspace whose projects they may not view; and
-- unless its key is that of the feed over all workspaces, everybody who may view them may.
pub can_subscribe-collection_scope :
    (rt : Runtime) (p : Principal) (ws : Text)
    → (can_subscribe rt p (collection_scope rt ws) ≡ true → can_view_project rt p (some ws) ≡ true)
      × (ws ≢ codes "all"
          → slugify rt ws ≢ codes "all"
          → can_view_project rt p (some ws) ≡ true
          → can_subscribe rt p (collection_scope rt ws) ≡ true)
can_subscribe-collection_scope rt p ws = ground (
  arith,
  collection_all rt p,
  collection_lem rt p (slugify rt ws) (All-slug rt ws),
  unrestricted-view rt p (some ws),
  allows_key-view rt p ws,
  text_beq_iff ws (codes "all"),
  text_beq_iff (slugify rt ws) (codes "all"),
)

-- What may be said of each channel of an event: it is the project's own, which the gateway checks
-- against the row, or its subscribers may view the workspace after or before the change.
abbrev pub Covers : Runtime → Principal → DomainEvent → ScopeKey → Type 0
Covers rt p e s =
    can_subscribe rt p s ≡ true
    → (s ≡ project_scope e.aggregate_id)
      ⊎ ((can_view_project rt p e.context.workspace ≡ true)
          ⊎ (can_view_project rt p e.context.workspace_before ≡ true))

All-add_scope :
    (P : ScopeKey → Type 0) (out : List ScopeKey) (s : ScopeKey)
    → All P out
    → P s
    → All P (add_scope out s)
All-add_scope P out s h k = elim (Bool-cases (any (text_beq s) out)) [
  | inl e ↦ rw e h
  | inr e ↦ rw e (All-append P out (s ∷ []) h (k, tt))
]

All-add_named :
    (P : ScopeKey → Type 0) (f : Text → ScopeKey) (o : Option Text) (out : List ScopeKey)
    → All P out
    → ((ws : Text) → o ≡ some ws → P (f ws))
    → All P (add_named f o out)
All-add_named P f none out h k = h
All-add_named P f (some []) out h k = h
All-add_named P f (some (c ∷ ws)) out h k = All-add_scope P out (f (c ∷ ws)) h (k (c ∷ ws) refl)

module _ (rt : Runtime) (p : Principal) (e : DomainEvent) where
  now-Covers :
      (s ws : Text)
      → (can_subscribe rt p s ≡ true → can_view_project rt p (some ws) ≡ true)
      → e.context.workspace ≡ some ws
      → Covers rt p e s
  now-Covers s ws h w c = inr (inl (rw w (h c)))

  before-Covers :
      (s ws : Text)
      → (can_subscribe rt p s ≡ true → can_view_project rt p (some ws) ≡ true)
      → e.context.workspace_before ≡ some ws
      → Covers rt p e s
  before-Covers s ws h w c = inr (inr (rw w (h c)))

  workspace_covers :
      (ws : Text)
      → can_subscribe rt p (workspace_scope rt ws) ≡ true
      → can_view_project rt p (some ws) ≡ true
  workspace_covers ws h = rw (← can_subscribe-workspace_scope rt p ws) h

  routed : List ScopeKey
  routed =
      add_named (workspace_scope rt) e.context.workspace_before
        (add_named (workspace_scope rt) e.context.workspace (project_scope e.aggregate_id ∷ []))

  routed-Covers : All (Covers rt p e) routed
  unfolding routed
  routed-Covers =
      All-add_named (Covers rt p e) (workspace_scope rt) e.context.workspace_before _
        (All-add_named (Covers rt p e) (workspace_scope rt) e.context.workspace _
          ((λ c. inl refl), tt)
          (λ ws w. now-Covers (workspace_scope rt ws) ws (workspace_covers ws) w))
        (λ ws w. before-Covers (workspace_scope rt ws) ws (workspace_covers ws) w)

  collection_covers :
      (ws : Text)
      → can_subscribe rt p (collection_scope rt ws) ≡ true
      → can_view_project rt p (some ws) ≡ true
  collection_covers ws = (can_subscribe-collection_scope rt p ws).0

  all-Covers : Covers rt p e (codes "collection:all")
  all-Covers h =
      inr (inl (unrestricted-view rt p e.context.workspace (rw (← collection_all rt p) h)))

  -- No channel that a project event is delivered on, other than the project's own, is open to a
  -- principal who may view neither the workspace of the project nor the one that it left.
  pub scopes_for_event-Covers :
      e.aggregate_type ≡ project → All (Covers rt p e) (scopes_for_event rt e)
  unfolding project_scopes routed
  scopes_for_event-Covers h = elim (Bool-cases (is_membership_event e)) [
    | inl m ↦
        rw (scopes_for_event-project rt e h, project_scopes, m)
          (All-add_named (Covers rt p e) (collection_scope rt) e.context.workspace_before _
            (All-add_named (Covers rt p e) (collection_scope rt) e.context.workspace _
              (All-add_scope (Covers rt p e) routed (codes "collection:all") routed-Covers
                all-Covers)
              (λ ws w. now-Covers (collection_scope rt ws) ws (collection_covers ws) w))
            (λ ws w. before-Covers (collection_scope rt ws) ws (collection_covers ws) w))
    | inr m ↦ rw (scopes_for_event-project rt e h, project_scopes, m) routed-Covers
  ]
