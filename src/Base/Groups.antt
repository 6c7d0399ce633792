-- ===== src/Base/Groups.antt =====
-- Go's idiom of appending each value to the slice that a map has under its key.
use Prim.Native.String.{String}
use mathlib.Core.Path.{◌≡◌, sym, ap, ◌∙◌}
use mathlib.Core.Logic.{inl, inr}
use mathlib.Core.List.{List, [], ◌∷◌, ◌++◌, append_assoc, append-nil}
use mathlib.Core.Option.{Option, none, some}
use scheduler.Base.Tests.{◌==◌, if◌then◌else◌, Bool-cases, comparable_string}
use scheduler.Base.Maps.{Map, lookup, store, lookup-store}

module _ {A : Type 0} where
  -- A missing key reads as an empty slice.
  abbrev pub or_empty : Option (List A) → List A
  or_empty none = []
  or_empty (some xs) = xs

  unfoldable pub group_by : (A → String) → List A → Map String (List A) → Map String (List A)
  unfolding lookup store
  group_by key [] m = m
  group_by key (x ∷ xs) m =
      group_by key xs (store (key x) (or_empty (lookup (key x) m) ++ x ∷ []) m)

  -- The values with a key, in order.
  abbrev pub with_key : (A → String) → String → List A → List A
  with_key key k [] = []
  with_key key k (x ∷ xs) = if key x == k then x ∷ with_key key k xs else with_key key k xs

  store-or_empty :
      (key : A → String) (k : String) (x : A) (m : Map String (List A))
      → or_empty (lookup k (store (key x) (or_empty (lookup (key x) m) ++ x ∷ []) m))
        ≡ or_empty (lookup k m) ++ (if key x == k then x ∷ [] else [])
  store-or_empty key k x m =
      rw (lookup-store (key x) k (or_empty (lookup (key x) m) ++ x ∷ []) m)
        (elim (Bool-cases (key x == k)) [
          | inl same ↦
              let eq : key x ≡ k = (comparable_string.same_iff (key x) k).0 same in
              rw same (ap (λ (t : String). or_empty (lookup t m) ++ x ∷ []) eq)
          | inr other ↦ rw other (sym (append-nil (or_empty (lookup k m))))
        ])

  pub group_by-with_key :
      (key : A → String) (k : String) (xs : List A) (m : Map String (List A))
      → or_empty (lookup k (group_by key xs m)) ≡ or_empty (lookup k m) ++ with_key key k xs
  unfolding group_by
  group_by-with_key key k [] m = sym (append-nil (or_empty (lookup k m)))
  group_by-with_key key k (x ∷ xs) m =
      group_by-with_key key k xs (store (key x) (or_empty (lookup (key x) m) ++ x ∷ []) m)
      ∙ ap (λ l. l ++ with_key key k xs) (store-or_empty key k x m)
      ∙ append_assoc (or_empty (lookup k m)) (if key x == k then x ∷ [] else []) (with_key key k xs)
      ∙ ap (λ l. or_empty (lookup k m) ++ l)
          (elim (Bool-cases (key x == k)) [ inl same ↦ rw same | inr other ↦ rw other ])
