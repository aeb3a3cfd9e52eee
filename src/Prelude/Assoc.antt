-- ===== src/Prelude/Assoc.antt =====
-- JavaScript's `Map`: entries in insertion order; a new value for an old key keeps its place.
use Prim.Native.Nat.{◌≤◌}
use mathlib.Core.Path.{◌≡◌, refl}
use mathlib.Core.Bool.{Bool, true, false, ◌||◌}
use mathlib.Core.Logic.{◌≢◌}
use mathlib.Core.List.{List, [], ◌∷◌}
use mathlib.Core.Option.{Option, none, some}
use native.Mathlib.Omega.{arith}
use bahn_project_manager.Prelude.Tests.{Eq, ◌==◌, if◌then◌else◌}
use bahn_project_manager.Prelude.Lists.{length}

module _ {ℓ κ} {K : Type ℓ} {V : Type κ} ⦃e : Eq K⦄ where
  -- `m.get(k)`.
  unfoldable pub get : K → List (K × V) → Option V
  get k [] = none
  get k ((j, v) ∷ m) = if j == k then some v else get k m

  -- `m.set(k, v)`.
  unfoldable pub put : K → V → List (K × V) → List (K × V)
  put k v [] = (k, v) ∷ []
  put k v ((j, w) ∷ m) = if j == k then (j, v) ∷ m else (j, w) ∷ put k v m

  -- `m.delete(k)`.
  unfoldable pub del : K → List (K × V) → List (K × V)
  del k [] = []
  del k ((j, w) ∷ m) = if j == k then del k m else (j, w) ∷ del k m

  -- `m.has(k)`.
  unfoldable pub has : K → List (K × V) → Bool
  has k [] = false
  has k ((j, w) ∷ m) = j == k || has k m

  pub get-put_self : (k : K) (v : V) (m : List (K × V)) → get k (put k v m) ≡ some v
  unfolding get put
  get-put_self k v [] = ground (arith, e.beq_iff k k)
  get-put_self k v ((j, w) ∷ m) = ground (arith, get-put_self k v m)

  pub get-put_ne : (k j : K) (v : V) (m : List (K × V)) → k ≢ j → get j (put k v m) ≡ get j m
  unfolding get put
  get-put_ne k j v [] h = ground (arith, e.beq_iff k j)
  get-put_ne k j v ((i, w) ∷ m) h =
      ground (arith, get-put_ne k j v m h, e.beq_iff i k, e.beq_iff i j)

  pub get-del_self : (k : K) (m : List (K × V)) → get k (del k m) ≡ none
  unfolding get del
  get-del_self k [] = refl
  get-del_self k ((j, w) ∷ m) = ground (arith, get-del_self k m)

  pub get-del_ne : (k j : K) (m : List (K × V)) → k ≢ j → get j (del k m) ≡ get j m
  unfolding get del
  get-del_ne k j [] h = refl
  get-del_ne k j ((i, w) ∷ m) h = ground (arith, get-del_ne k j m h, e.beq_iff i k, e.beq_iff i j)

  pub has-get : (k : K) (m : List (K × V)) → has k m ≡ false → get k m ≡ none
  unfolding get has
  has-get k [] h = refl
  has-get k ((j, w) ∷ m) h = ground (arith, has-get k m)

  pub get-has : (k : K) (m : List (K × V)) (v : V) → get k m ≡ some v → has k m ≡ true
  unfolding get has
  get-has k [] v h = cc
  get-has k ((j, w) ∷ m) v h = ground (arith, get-has k m v)

  pub length-del-le : (k : K) (m : List (K × V)) → length (del k m) ≤ length m
  unfolding del
  length-del-le k [] = omega arith
  length-del-le k ((j, w) ∷ m) = ground (arith, length-del-le k m)

  pub get-none-has : (k : K) (m : List (K × V)) → get k m ≡ none → has k m ≡ false
  unfolding get has
  get-none-has k [] h = refl
  get-none-has k ((j, w) ∷ m) h = ground (arith, get-none-has k m)
