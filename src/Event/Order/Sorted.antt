-- ===== src/Event/Order/Sorted.antt =====
-- Lists of events in the order of their versions, and the first of them.
use bahn_project_manager.Prelude.{
  ℕ, zero, suc, ◌≤◌, ◌≡◌, ◌⊎◌, refl, ap, inl, inr, List, [], ◌∷◌, All, All-map, All-take, All-In,
  In, length, take, leb, leb→le, Bool-cases, arith,
}
use bahn_project_manager.Event.{DomainEvent}
use bahn_project_manager.Event.Order.{insert_by_version, sort_by_version}

module _ (P : DomainEvent → Type 0) where
  All-insert_by_version :
      (e : DomainEvent) (es : List DomainEvent) → P e → All P es → All P (insert_by_version e es)
  unfolding insert_by_version
  All-insert_by_version e [] p h = (p, tt)
  All-insert_by_version e (d ∷ ds) p (q, h) =
      elim (Bool-cases (leb e.aggregate_version d.aggregate_version)) [
        | inl b ↦ rw b (p, (q, h))
        | inr b ↦ rw b (q, All-insert_by_version e ds p h)
      ]

  pub All-sort_by_version : (es : List DomainEvent) → All P es → All P (sort_by_version es)
  unfolding sort_by_version
  All-sort_by_version [] h = tt
  All-sort_by_version (e ∷ es) (p, h) =
      All-insert_by_version e (sort_by_version es) p (All-sort_by_version es h)

-- No event has a smaller version than one before it.
abbrev pub Ascending : List DomainEvent → Type 0
Ascending [] = Unit
Ascending (e ∷ es) = All (λ d. e.aggregate_version ≤ d.aggregate_version) es × Ascending es

insert_by_version-Ascending :
    (e : DomainEvent) (es : List DomainEvent) → Ascending es → Ascending (insert_by_version e es)
unfolding insert_by_version
insert_by_version-Ascending e [] h = (tt, tt)
insert_by_version-Ascending e (d ∷ ds) (below, h) =
    elim (Bool-cases (leb e.aggregate_version d.aggregate_version)) [
      | inl b ↦
          let le = leb→le e.aggregate_version d.aggregate_version b in
          rw b (
            (
              le,
              All-map (λ x. d.aggregate_version ≤ x.aggregate_version) ds (λ x q. omega arith)
                  below,
            ),
            (below, h),
          )
      | inr b ↦ rw b (
        All-insert_by_version (λ x. d.aggregate_version ≤ x.aggregate_version) e ds (ground arith)
            below,
        insert_by_version-Ascending e ds h,
      )
    ]

pub sort_by_version-Ascending : (es : List DomainEvent) → Ascending (sort_by_version es)
unfolding sort_by_version
sort_by_version-Ascending [] = tt
sort_by_version-Ascending (e ∷ es) =
    insert_by_version-Ascending e (sort_by_version es) (sort_by_version-Ascending es)

In-insert_by_version :
    (x e : DomainEvent) (es : List DomainEvent) → In x (e ∷ es) → In x (insert_by_version e es)
unfolding insert_by_version
In-insert_by_version x e [] i = i
In-insert_by_version x e (d ∷ ds) i =
    elim (Bool-cases (leb e.aggregate_version d.aggregate_version)) [
      | inl b ↦ rw b i
      | inr b ↦ rw b (elim i [
        | inl same ↦ inr (In-insert_by_version x e ds (inl same))
        | inr later ↦ elim later [
          | inl same ↦ inl same
          | inr rest ↦ inr (In-insert_by_version x e ds (inr rest))
        ]
      ])
    ]

pub In-sort_by_version :
    (x : DomainEvent) (es : List DomainEvent) → In x es → In x (sort_by_version es)
unfolding sort_by_version
In-sort_by_version x [] i = i
In-sort_by_version x (e ∷ es) (inl same) = In-insert_by_version x e (sort_by_version es) (inl same)
In-sort_by_version x (e ∷ es) (inr later) =
    In-insert_by_version x e (sort_by_version es) (inr (In-sort_by_version x es later))

-- An event is among the first `n`, or these are `n` events of smaller versions or the same.
pub take-first :
    (n : ℕ) (x : DomainEvent) (es : List DomainEvent)
    → Ascending es
    → In x es
    → In x (take n es)
      ⊎ ((length (take n es) ≡ n)
          × All (λ d. d.aggregate_version ≤ x.aggregate_version) (take n es))
take-first zero x es h i = inr (refl, tt)
take-first (suc n) x (e ∷ es) h (inl same) = inl (inl same)
take-first (suc n) x (e ∷ es) (below, h) (inr later) = elim (take-first n x es h later) [
  | inl i ↦ inl (inr i)
  | inr (full, first) ↦ inr (
    ap suc full,
    (All-In (λ d. e.aggregate_version ≤ d.aggregate_version) x es below later, first),
  )
]
take-first (suc n) x [] h i = absurd i

pub take-Ascending : (n : ℕ) (es : List DomainEvent) → Ascending es → Ascending (take n es)
take-Ascending zero es h = tt
take-Ascending (suc n) [] h = tt
take-Ascending (suc n) (e ∷ es) (below, h) =
    (All-take (λ d. e.aggregate_version ≤ d.aggregate_version) n es below, take-Ascending n es h)
