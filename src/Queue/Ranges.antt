-- ===== src/Queue/Ranges.antt =====
-- assignJobRangeToServers against its purpose: disjoint ranges that cover [minId, maxId].
use scheduler.Base.{
  ℕ, zero, suc, ◌+◌, ◌-◌, ◌*◌, ◌/◌, ◌^◌, ◌≤◌, ◌<◌, ◌≡◌, refl, ◌∙◌, ap, true, false, List, [], ◌∷◌,
  ◌++◌, some, append_assoc, append-nil, arith, leb, if◌then◌else◌, length, length-append,
  Bool-cases, inl, inr, ◌==◌, comparable_uint,
}
use scheduler.Base.Words.{sle, sle-leb, sub64, add64, sdiv64, sdiv64-div}
use scheduler.Base.Floats.{float_min_exact}
use scheduler.Queue.{ensure_slot, append_at, upper_of, assign_loop, assign_job_range_to_servers}

-- The pairs run from `lo` to `hi` without a gap or an overlap; none is wider than `width`.
abbrev pub IsPartition : ℕ → ℕ → ℕ → List (List ℕ) → Type 0
IsPartition width lo hi [] = lo ≡ hi + 1
IsPartition width lo hi ([] ∷ rs) = ⊥
IsPartition width lo hi ((a ∷ []) ∷ rs) = ⊥
IsPartition width lo hi ((a ∷ b ∷ []) ∷ rs) =
    (a ≡ lo) × (lo ≤ b) × (b ≤ hi) × (b ≤ lo + width) × IsPartition width (b + 1) hi rs
IsPartition width lo hi ((a ∷ b ∷ c ∷ l) ∷ rs) = ⊥

append_at_end :
    (lower upper : ℕ) (sa : List (List ℕ))
    → append_at (length sa) lower upper (sa ++ [] ∷ []) ≡ sa ++ (lower ∷ upper ∷ []) ∷ []
unfolding append_at
append_at_end lower upper [] = refl
append_at_end lower upper (s ∷ sa) = ap (◌∷◌ s) (append_at_end lower upper sa)

append_at-ensure_slot :
    (k lower upper : ℕ) (sa : List (List ℕ))
    → length sa ≡ k
    → append_at k lower upper (ensure_slot sa k) ≡ sa ++ (lower ∷ upper ∷ []) ∷ []
append_at-ensure_slot k lower upper sa e = rw (← e) (ground (arith, append_at_end lower upper sa))

abbrev minimum : ℕ → ℕ → ℕ
minimum a b = if leb a b then a else b

upper_of_lem :
    (epoc cycle hi : ℕ)
    → epoc ≤ hi
    → hi ≤ 2 ^ 52
    → cycle ≤ 2 ^ 52
    → upper_of epoc cycle hi ≡ minimum (epoc + cycle) hi
unfolding upper_of
upper_of_lem epoc cycle hi h k l =
    let e : add64 epoc cycle ≡ epoc + cycle = omega arith in
    rw e (float_min_exact (epoc + cycle) hi (omega arith) (omega arith))

sle-false : (a b : ℕ) → a < 2 ^ 63 → b < 2 ^ 63 → b < a → sle a b ≡ false
sle-false a b h k l = sle-leb a b h k ∙ ground arith

sle-true : (a b : ℕ) → b < 2 ^ 63 → a ≤ b → sle a b ≡ true
sle-true a b k l = sle-leb a b (omega arith) k ∙ ground arith

-- One pair is cut off the range; what is left fits one server less.
module _ (servers cycle hi : ℕ) (small : hi ≤ 2 ^ 52) (narrow : cycle ≤ 2 ^ 52) where
  abbrev last_of : ℕ → ℕ
  last_of epoc = minimum (epoc + cycle) hi

  last_of_bounds :
      (epoc : ℕ)
      → epoc ≤ hi
      → (epoc ≤ last_of epoc) × (last_of epoc ≤ hi) × (last_of epoc ≤ epoc + cycle)
  last_of_bounds epoc h = ground arith

  abbrev next_of : ℕ → ℕ
  next_of current = if current + 1 == servers then 0 else current + 1

  assign_loop_step :
      (r epoc current : ℕ) (sa : List (List ℕ))
      → epoc ≤ hi
      → length sa ≡ current
      → assign_loop (suc r) servers cycle hi epoc current sa
        ≡ assign_loop r servers cycle hi
            (last_of epoc + 1)
            (next_of current)
            (sa ++ (epoc ∷ last_of epoc ∷ []) ∷ [])
  unfolding assign_loop
  assign_loop_step r epoc current sa h len =
      let e : add64 (last_of epoc) 1 ≡ last_of epoc + 1 = omega (arith, last_of_bounds epoc h) in
      rw (
        sle-true epoc hi (omega arith) h,
        upper_of_lem epoc cycle hi h small narrow,
        e,
        append_at-ensure_slot current epoc (last_of epoc) sa len,
      )

  -- What the loop returns from a state in which `m` servers have no pair yet.
  abbrev Splits : ℕ → ℕ → ℕ → ℕ → List (List ℕ) → Type 0
  Splits rounds m epoc current sa =
      (rs : List (List ℕ)) × (assign_loop rounds servers cycle hi epoc current sa ≡ some (sa ++ rs))
      × IsPartition cycle epoc hi rs
      × (length rs ≤ m)

  Splits-done :
      (r m epoc current : ℕ) (sa : List (List ℕ)) → epoc ≡ hi + 1 → Splits (suc r) m epoc current sa
  unfolding assign_loop
  Splits-done r m epoc current sa e = (
    [],
    rw (sle-false epoc hi (omega arith) (omega arith) (omega arith)) (rw append-nil),
    e,
    omega arith,
  )

  assign_loop-Splits :
      (rounds m k epoc current : ℕ) (sa : List (List ℕ))
      → length sa ≡ k
      → m + k ≡ servers
      → (0 < m → current ≡ k)
      → hi + 1 ≤ epoc + m * (cycle + 1)
      → epoc ≤ hi + 1
      → hi + 1 < rounds + epoc
      → Splits rounds m epoc current sa
  assign_loop-Splits zero m k epoc current sa len sum at room below fuel = absurd (omega arith)
  assign_loop-Splits (suc r) zero k epoc current sa len sum at room below fuel =
      Splits-done r zero epoc current sa (omega arith)
  assign_loop-Splits (suc r) (suc m) k epoc current sa len sum at room below fuel =
      elim (Bool-cases (leb epoc hi)) [
        | inr stop ↦ Splits-done r (suc m) epoc current sa (ground (arith, stop))
        | inl more ↦
            let le : epoc ≤ hi = ground (arith, more) in
            let bounds = last_of_bounds epoc le in
            let here : current ≡ k = at (omega arith) in
            let pair : List ℕ = epoc ∷ last_of epoc ∷ [] in
            let (rs, e, part, len') =
              assign_loop-Splits r m (k + 1) (last_of epoc + 1) (next_of current) (sa ++ pair ∷ [])
                (omega (arith, length-append sa (pair ∷ []))) (omega arith) (λ p. ground arith)
                (ground arith) (omega arith) (omega arith) in
            (
              pair ∷ rs,
              assign_loop_step r epoc current sa le (omega arith)
                  ∙ e
                  ∙ ap some (append_assoc sa (pair ∷ []) rs),
              (refl, bounds.0, bounds.1, bounds.2, part),
              omega arith,
            )
      ]

-- The last of `servers` pairs of this width reaches the end of the range.
width_enough : (d n : ℕ) → d + 1 ≤ suc n * (d / suc n + 1)
width_enough d n = grind arith

-- With `servers + 1` nodes known, at least one of them another node, and 0 ≤ minId ≤ maxId ≤ 2 ^ 52,
-- assignJobRangeToServers returns; its pairs cover minId to maxId in order, without a gap or an
-- overlap; there are at most `servers` of them, so no server gets two; and no pair spans more than
-- (maxId - minId) / servers, rounded down.
pub assign-IsPartition :
    (servers lo hi : ℕ)
    → 0 < servers
    → servers < 2 ^ 63
    → lo ≤ hi
    → hi ≤ 2 ^ 52
    → (rs : List (List ℕ)) × (assign_job_range_to_servers (suc servers) lo hi ≡ some rs)
      × IsPartition ((hi - lo) / servers) lo hi rs
      × (length rs ≤ servers)
unfolding assign_job_range_to_servers
assign-IsPartition zero lo hi h w le small = absurd (omega arith)
assign-IsPartition (suc n) lo hi h w le small =
    let e : sub64 hi lo ≡ hi - lo = omega arith in
    let q : sdiv64 (hi - lo) (suc n) ≡ (hi - lo) / suc n =
      sdiv64-div (hi - lo) (suc n) (omega arith) w in
    rw (e, q)
      (assign_loop-Splits (suc n) ((hi - lo) / suc n) hi small (grind arith) (suc (suc (hi - lo)))
        (suc n) 0 lo 0 [] refl (omega arith) (λ _. refl) (omega (arith, width_enough (hi - lo) n))
        (omega arith) (omega arith))
