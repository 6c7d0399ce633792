-- ===== src/SharedRepo/Orders.antt =====
-- The rows that are selected by some ids of pkg/shared_repo/shared_repo.go, whatever their order.
use mathlib.Core.List.{Perm, Perm-prop, Permᴰ, perm_append_comm}
use mathlib.Core.List.Perm
use mathlib.Core.Logic.{∥∥₁_elim}
use scheduler.Base.{ℕ, ◌≡◌, ap, ◌∙◌, subst, List, [], ◌∷◌, ◌++◌, append_assoc}
use scheduler.SharedRepo.Tables.{at, at_all}

swapped_at :
    {A : Type 0} (rows : List (ℕ × A)) {i j i' j' : ℕ} (ids : List ℕ)
    → i ≡ j'
    → j ≡ i'
    → Perm (at_all rows (i ∷ j ∷ ids)) (at_all rows (i' ∷ j' ∷ ids))
swapped_at rows {i} {j} {i'} {j'} ids e e' =
    let swapped : Perm (at_all rows (i ∷ j ∷ ids)) (at_all rows (j ∷ i ∷ ids)) =
      subst (λ x. Perm x (at_all rows (j ∷ i ∷ ids)))
        (append_assoc (at rows i) (at rows j) (at_all rows ids))
        (subst (λ x. Perm ((at rows i ++ at rows j) ++ at_all rows ids) x)
          (append_assoc (at rows j) (at rows i) (at_all rows ids))
          (Perm.append_right (at_all rows ids) (perm_append_comm (at rows i) (at rows j)))) in
    subst (λ x. Perm (at_all rows (i ∷ j ∷ ids)) x)
      (ap (λ x. at_all rows (x ∷ i ∷ ids)) e' ∙ ap (λ x. at_all rows (i' ∷ x ∷ ids)) e) swapped

at_all-Permᴰ :
    {A : Type 0} (rows : List (ℕ × A)) {ids ids' : List ℕ}
    → Permᴰ ids ids'
    → Perm (at_all rows ids) (at_all rows ids')
at_all-Permᴰ rows Permᴰ.nil = Perm.refl []
at_all-Permᴰ rows (Permᴰ.cons {a = a} {l₁ = ids} {l₂ = ids'} e p) =
    subst (λ x. Perm (at_all rows (a ∷ ids)) (at_all rows (x ∷ ids'))) e
      (Perm.append_left (at rows a) (at_all-Permᴰ rows p))
at_all-Permᴰ rows (Permᴰ.swap {l = ids} e e') = swapped_at rows ids e e'
at_all-Permᴰ rows (Permᴰ.trans p q) = Perm.trans (at_all-Permᴰ rows p) (at_all-Permᴰ rows q)

pub at_all-Perm :
    {A : Type 0} (rows : List (ℕ × A)) {ids ids' : List ℕ}
    → Perm ids ids'
    → Perm (at_all rows ids) (at_all rows ids')
at_all-Perm rows p = ∥∥₁_elim p Perm-prop (λ d. at_all-Permᴰ rows d)
