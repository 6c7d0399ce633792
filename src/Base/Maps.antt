-- ===== src/Base/Maps.antt =====
-- Go maps as association lists, in the order in which an iteration visits them.
use mathlib.Core.Path.{◌≡◌, refl}
use mathlib.Core.Logic.{◌≢◌}
use mathlib.Core.List.{List, [], ◌∷◌}
use mathlib.Core.Option.{Option, none, some}
use native.Mathlib.Omega.{arith}
use scheduler.Base.Tests.{if◌then◌else◌, Comparable, ◌==◌}

abbrev pub Map {ℓ} : Type ℓ → Type ℓ → Type ℓ
Map K V = List (K × V)

module _ {ℓ} {K V : Type ℓ} ⦃e : Comparable K⦄ where
  unfoldable pub lookup : K → Map K V → Option V
  lookup k [] = none
  lookup k ((j, v) ∷ m) = if j == k then some v else lookup k m

  -- m[k] = v
  unfoldable pub store : K → V → Map K V → Map K V
  store k v [] = (k, v) ∷ []
  store k v ((j, w) ∷ m) = if j == k then (j, v) ∷ m else (j, w) ∷ store k v m

  -- delete(m, k)
  unfoldable pub delete : K → Map K V → Map K V
  delete k [] = []
  delete k ((j, w) ∷ m) = if j == k then delete k m else (j, w) ∷ delete k m

  pub lookup-store :
      (k j : K) (v : V) (m : Map K V)
      → lookup j (store k v m) ≡ (if k == j then some v else lookup j m)
  unfolding lookup store
  lookup-store k j v [] = refl
  lookup-store k j v ((i, w) ∷ m) =
      ground (arith, e.same_iff i k, e.same_iff i j, e.same_iff k j, lookup-store k j v m)

  pub lookup-delete :
      (k j : K) (m : Map K V) → lookup j (delete k m) ≡ (if k == j then none else lookup j m)
  unfolding lookup delete
  lookup-delete k j [] = ground arith
  lookup-delete k j ((i, w) ∷ m) =
      ground (arith, e.same_iff i k, e.same_iff i j, e.same_iff k j, lookup-delete k j m)

  pub lookup-delete_self : (k : K) (m : Map K V) → lookup k (delete k m) ≡ none
  lookup-delete_self k m = ground (arith, e.same_iff k k, lookup-delete k k m)

  pub store_same : (k : K) (v : V) (m : Map K V) → lookup k m ≡ some v → store k v m ≡ m
  unfolding lookup store
  store_same k v [] h = cc
  store_same k v ((j, w) ∷ m) h = ground (arith, store_same k v m)

  pub store-store : (k : K) (v w : V) (m : Map K V) → store k v (store k w m) ≡ store k v m
  unfolding store
  store-store k v w [] = ground (arith, e.same_iff k k)
  store-store k v w ((j, x) ∷ m) = ground (arith, store-store k v w m)

  pub lookup-store_self : (k : K) (v : V) (m : Map K V) → lookup k (store k v m) ≡ some v
  lookup-store_self k v m = ground (arith, lookup-store k k v m, e.same_iff k k)

  pub lookup-store_ne :
      (k j : K) (v : V) (m : Map K V) → k ≢ j → lookup j (store k v m) ≡ lookup j m
  lookup-store_ne k j v m h = ground (arith, lookup-store k j v m, e.same_iff k j)
