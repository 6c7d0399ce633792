-- ===== src/SharedRepo/Ids.antt =====
-- Ascending ids: the range from the least to the greatest id of a table finds every row, in order.
use scheduler.Base.{
  ℕ, zero, suc, ◌+◌, ◌-◌, ◌^◌, ◌<◌, ◌≤◌, ◌≡◌, ◌≢◌, refl, ap, sym, ◌∙◌, true, false, ◌==◌, List, [],
  ◌∷◌, ◌++◌, append_assoc, length, All, All-mono, if◌then◌else◌, leb, nat_beq, arith, Bool-cases,
  inl, inr, comparable_uint,
}
use scheduler.Base.Words.{add64, sub64, sle}
use scheduler.Sql.{count_up, signed_range, ok}
use scheduler.SharedRepo.Tables.{at, at_all, IsAscending, max_id, min_id}

pub IsAscending-append : (xs ys : List ℕ) → IsAscending (xs ++ ys) → IsAscending xs × IsAscending ys
IsAscending-append [] ys h = (tt, h)
IsAscending-append (x ∷ []) [] h = (tt, tt)
IsAscending-append (x ∷ []) (y ∷ ys) h = (tt, h.1)
IsAscending-append (x ∷ x' ∷ xs) ys h =
    let rest = IsAscending-append (x' ∷ xs) ys h.1 in ((h.0, rest.0), rest.1)

pub count_up-IsAscending : (n i : ℕ) → i + n ≤ 2 ^ 64 → IsAscending (count_up n i)
unfolding count_up
count_up-IsAscending zero i h = tt
count_up-IsAscending (suc zero) i h = tt
count_up-IsAscending (suc (suc n)) i h =
    let next : add64 i 1 ≡ i + 1 = omega arith in
    (omega (arith, next), count_up-IsAscending (suc n) (add64 i 1) (omega (arith, next)))

pub count_up-ne-nil : (n i : ℕ) → 0 < n → count_up n i ≢ []
unfolding count_up
count_up-ne-nil zero i pos h = absurd (omega (arith, pos))
count_up-ne-nil (suc n) i pos h = absurd (omega (arith, ap length h))

module _ {A : Type 0} where
  pub at_all-append :
      (rows : List (ℕ × A)) (xs ys : List ℕ)
      → at_all rows (xs ++ ys) ≡ at_all rows xs ++ at_all rows ys
  at_all-append rows [] ys = refl
  at_all-append rows (x ∷ xs) ys =
      ap (λ l. at rows x ++ l) (at_all-append rows xs ys)
      ∙ sym (append_assoc (at rows x) (at_all rows xs) (at_all rows ys))

  at_all-nil : (ids : List ℕ) → at_all {A = A} [] ids ≡ []
  at_all-nil [] = refl
  at_all-nil (i ∷ ids) = at_all-nil ids

  at-none : (i : ℕ) (rows : List (ℕ × A)) → All (λ e. i < e.0) rows → at rows i ≡ []
  at-none i [] h = refl
  at-none i ((j, a) ∷ rows) h = ground (arith, at-none i rows h.1)

  at_all-skip :
      (n i j : ℕ) (a : A) (rows : List (ℕ × A))
      → j < i
      → i + n < 2 ^ 64
      → at_all ((j, a) ∷ rows) (count_up n i) ≡ at_all rows (count_up n i)
  unfolding count_up
  at_all-skip zero i j a rows h k = refl
  at_all-skip (suc n) i j a rows h k =
      let next : add64 i 1 ≡ i + 1 = omega arith in
      let rest = at_all-skip n (add64 i 1) j a rows (omega (arith, next)) (omega (arith, next)) in
      ground (arith, rest)

  abbrev pub ids_of : List (ℕ × A) → List ℕ
  ids_of [] = []
  ids_of ((i, a) ∷ rows) = i ∷ ids_of rows

  abbrev pub values_of : List (ℕ × A) → List A
  values_of [] = []
  values_of ((i, a) ∷ rows) = a ∷ values_of rows

  abbrev IsWithin : ℕ → ℕ → ℕ × A → Type 0
  IsWithin low high e = (low ≤ e.0) × (e.0 < high)

  pub ascending-above :
      (j : ℕ) (rows : List (ℕ × A)) → IsAscending (j ∷ ids_of rows) → All (λ e. j < e.0) rows
  ascending-above j [] h = tt
  ascending-above j ((i, a) ∷ rows) h =
      (h.0, All-mono _ _ rows (λ e k. omega (arith, k, h.0)) (ascending-above i rows h.1))

  pub IsAscending-tail :
      (j : ℕ) (rows : List (ℕ × A)) → IsAscending (j ∷ ids_of rows) → IsAscending (ids_of rows)
  IsAscending-tail j [] h = tt
  IsAscending-tail j ((i, a) ∷ rows) h = h.1

  IsWithin-next :
      (n i j : ℕ) (rows : List (ℕ × A))
      → i ≤ j
      → add64 i 1 ≡ i + 1
      → All (λ e. j < e.0) rows
      → All (IsWithin i (i + suc n)) rows
      → All (IsWithin (add64 i 1) (add64 i 1 + n)) rows
  IsWithin-next n i j [] h next above in_range = tt
  IsWithin-next n i j (e ∷ rows) h next above in_range = (
    (omega (arith, h, next, above.0), omega (arith, next, in_range.0.1)),
    IsWithin-next n i j rows h next above.1 in_range.1,
  )

  pub at_all-count_up :
      (n i : ℕ) (rows : List (ℕ × A))
      → i + n < 2 ^ 64
      → IsAscending (ids_of rows)
      → All (IsWithin i (i + n)) rows
      → at_all rows (count_up n i) ≡ values_of rows
  unfolding count_up
  at_all-count_up zero i [] h asc in_range = refl
  at_all-count_up zero i ((j, a) ∷ rows) h asc in_range =
      absurd (omega (arith, in_range.0.0, in_range.0.1))
  at_all-count_up (suc n) i [] h asc in_range = at_all-nil (count_up n (add64 i 1))
  at_all-count_up (suc n) i ((j, a) ∷ rows) h asc in_range =
      let next : add64 i 1 ≡ i + 1 = omega arith in
      let above : All (λ e. i < e.0) rows =
        All-mono _ _ rows (λ e k. omega (arith, k, in_range.0.0)) (ascending-above j rows asc) in
      elim (Bool-cases (j == i)) [
        | inl same ↦ rw same (
            ap (λ l. a ∷ l ++ at_all ((j, a) ∷ rows) (count_up n (add64 i 1)))
              (at-none i rows above)
            ∙ ap (λ l. a ∷ l)
                (at_all-skip n (add64 i 1) j a rows (ground (arith, next, same))
                    (omega (arith, next))
                  ∙ at_all-count_up n (add64 i 1) rows (omega (arith, next))
                      (IsAscending-tail j rows asc)
                      (IsWithin-next n i j rows (ground (arith, same)) next
                        (ascending-above j rows asc) in_range.1)))
        | inr other ↦ rw other (
            ap (λ l. l ++ at_all ((j, a) ∷ rows) (count_up n (add64 i 1))) (at-none i rows above)
            ∙ at_all-count_up n (add64 i 1) ((j, a) ∷ rows) (omega (arith, next)) asc (
              (ground (arith, other, next, in_range.0.0), ground (arith, next, in_range.0.1)),
              IsWithin-next n i i rows (omega arith) next above in_range.1,
            ))
      ]

  pub max_id-bounds :
      (m : ℕ) (rows : List (ℕ × A)) → (m ≤ max_id m rows) × All (λ e. e.0 ≤ max_id m rows) rows
  max_id-bounds m [] = (omega arith, tt)
  max_id-bounds m ((i, a) ∷ rows) =
      let h = max_id-bounds (if leb m i then i else m) rows in
      (ground (arith, h.0), (ground (arith, h.0), h.1))

  pub min_id-bounds :
      (m : ℕ) (rows : List (ℕ × A)) → (min_id m rows ≤ m) × All (λ e. min_id m rows ≤ e.0) rows
  min_id-bounds m [] = (omega arith, tt)
  min_id-bounds m ((i, a) ∷ rows) =
      let h = min_id-bounds (if leb i m then i else m) rows in
      (ground (arith, h.0), (ground (arith, h.0), h.1))

  pub max_id-below :
      (b m : ℕ) (rows : List (ℕ × A)) → m < b → All (λ e. e.0 < b) rows → max_id m rows < b
  max_id-below b m [] h k = h
  max_id-below b m ((i, a) ∷ rows) h k =
      max_id-below b (if leb m i then i else m) rows (ground (arith, h, k.0)) k.1

  All-both :
      (low high : ℕ) (rows : List (ℕ × A))
      → All (λ e. low ≤ e.0) rows
      → All (λ e. e.0 ≤ high) rows
      → All (IsWithin low (low + (high - low + 1))) rows
  All-both low high [] h k = tt
  All-both low high (e ∷ rows) h k =
      ((h.0, omega (arith, h.0, k.0)), All-both low high rows h.1 k.1)

  -- The ids from the least to the greatest of a table below the largest int64: they ascend, and at them
  -- a table with ascending ids has all of its rows.
  pub range-covers :
      (i : ℕ) (a : A) (rows : List (ℕ × A))
      → IsAscending (ids_of ((i, a) ∷ rows))
      → All (λ e. e.0 < 2 ^ 63 - 1) ((i, a) ∷ rows)
      → (min_id i rows ≤ max_id i rows)
        × (max_id i rows < 2 ^ 63 - 1)
        × (at_all ((i, a) ∷ rows) (count_up (max_id i rows - min_id i rows + 1) (min_id i rows))
            ≡ values_of ((i, a) ∷ rows))
  range-covers i a rows asc small =
      let low = min_id-bounds i rows in
      let high = max_id-bounds i rows in
      let top = max_id-below (2 ^ 63 - 1) i rows small.0 small.1 in
      (
        omega (arith, low.0, high.0),
        top,
        at_all-count_up (max_id i rows - min_id i rows + 1) (min_id i rows) ((i, a) ∷ rows)
            (omega (arith, top, low.0, high.0)) asc
            (All-both (min_id i rows) (max_id i rows) ((i, a) ∷ rows) (low.0, low.1)
              (high.0, high.1)),
      )

pub signed_range-count_up :
    {E : Type 0} (min max : ℕ)
    → min ≤ max
    → max < 2 ^ 63 - 1
    → signed_range {E = E} min max ≡ ok (count_up (max - min + 1) min)
unfolding signed_range
signed_range-count_up min max h k =
    let d : sub64 max min ≡ max - min = omega (arith, h, k) in
    let a : sle min max ≡ true = ground (arith, h, k) in
    let b : nat_beq max (2 ^ 63 - 1) ≡ false = ground (arith, k) in rw (a, b, d) refl
