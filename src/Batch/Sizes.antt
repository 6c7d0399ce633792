-- ===== src/Batch/Sizes.antt =====
-- What `Batch` promises its callers: the rows in order, and batches that fit one statement.
use scheduler.Base.{
  ℕ, ◌*◌, ◌/◌, ◌≤◌, ◌<◌, ◌≡◌, refl, ◌≢◌, List, [], ◌∷◌, ◌++◌, append_assoc, append-nil, arith, ltb,
  nat_beq, length, All, concat, concat-append, length-append, All-append, All-mono, Bool-cases, inl,
  inr,
}
use scheduler.Base.Floats.{float64_exact}
use scheduler.Batch.{db_max_variable_size, max_var, batch_loop, flush, batch}

pub max_var_lem : (c : ℕ) → 0 < c → max_var c ≡ db_max_variable_size / c
unfolding max_var
max_var_lem c h = float64_exact (32766 / c) (omega arith)

pub max_var_fits : (c : ℕ) → 0 < c → max_var c * c ≤ db_max_variable_size
max_var_fits c h = grind (arith, max_var_lem c h)

module _ {ℓ} {A : Type ℓ} where
  concat-flush : (r : List (List A) × List A) → concat (flush r) ≡ concat (r.0) ++ r.1
  unfolding flush
  concat-flush (bs, []) = simp append-nil
  concat-flush (bs, t ∷ ts) = simp (concat-append, append-nil)

  concat-loop :
      (n : ℕ) (t : List A) (bs : List (List A)) (ids : List A)
      → concat (flush (batch_loop n t bs ids)) ≡ concat bs ++ (t ++ ids)
  unfolding batch_loop
  concat-loop n t bs [] = simp (concat-flush, append-nil)
  concat-loop n t bs (x ∷ ids) = elim (Bool-cases (nat_beq (length (t ++ x ∷ [])) n)) [
    | inl e ↦ rw e (
        simp (
          concat-loop n [] (bs ++ (t ++ x ∷ []) ∷ []) ids,
          concat-append,
          append_assoc,
          append-nil,
        ))
    | inr e ↦ rw e (simp (concat-loop n (t ++ x ∷ []) bs ids, append_assoc))
  ]

  -- The batches of `Batch`, joined in order, are the given rows: none lost, doubled or moved,
  -- whatever the number of columns.
  pub concat-batch :
      (ids : List A) (number_of_columns : ℕ) → concat (batch ids number_of_columns) ≡ ids
  unfolding batch
  concat-batch ids c = elim (Bool-cases (ltb (max_var c) (length ids))) [
    | inl e ↦ rw e (concat-loop (max_var c) [] [] ids)
    | inr e ↦ rw e (append-nil ids)
  ]

  -- A batch that may be sent: it has a row, and `n` rows at most.
  abbrev pub IsSendable : ℕ → List A → Type 0
  IsSendable n b = (0 < length b) × (length b ≤ n)

  loop-IsSendable :
      (n : ℕ) (t : List A) (bs : List (List A)) (ids : List A)
      → length t < n
      → All (IsSendable n) bs
      → All (IsSendable n) (flush (batch_loop n t bs ids))
  unfolding batch_loop flush
  loop-IsSendable n [] bs [] h all = all
  loop-IsSendable n (t ∷ ts) bs [] h all =
      All-append (IsSendable n) bs ((t ∷ ts) ∷ []) (all, ((omega arith, omega arith), tt))
  loop-IsSendable n t bs (x ∷ ids) h all = elim (Bool-cases (nat_beq (length (t ++ x ∷ [])) n)) [
    | inl e ↦ rw e (
        loop-IsSendable n [] (bs ++ (t ++ x ∷ []) ∷ []) ids (omega arith) (
          All-append (IsSendable n) bs ((t ++ x ∷ []) ∷ [])
            (all, ((omega (arith, length-append t (x ∷ [])), ground (arith, e)), tt))))
    | inr e ↦
        rw e
          (loop-IsSendable n (t ++ x ∷ []) bs ids (ground (arith, e, length-append t (x ∷ []))) all)
  ]

  batch-IsSendable :
      (ids : List A) (c : ℕ)
      → 0 < c
      → c ≤ db_max_variable_size
      → ids ≢ []
      → All (IsSendable (max_var c)) (batch ids c)
  unfolding batch
  batch-IsSendable [] c h k ne = absurd (ne refl)
  batch-IsSendable (x ∷ xs) c h k ne = elim (Bool-cases (ltb (max_var c) (length (x ∷ xs)))) [
    | inl e ↦ rw e (loop-IsSendable (max_var c) [] [] (x ∷ xs) (grind (arith, max_var_lem c h)) tt)
    | inr e ↦ rw e ((omega arith, ground (arith, e)), tt)
  ]

  -- For a statement with `c` parameters a row, 0 < c ≤ 32766, and at least one row, each batch has
  -- a row (so that `batch[0]` exists) and asks for at most DBMaxVariableSize parameters.
  pub batch_fits :
      (ids : List A) (c : ℕ)
      → 0 < c
      → c ≤ db_max_variable_size
      → ids ≢ []
      → All (λ b. (0 < length b) × (length b * c ≤ db_max_variable_size)) (batch ids c)
  batch_fits ids c h k ne =
      All-mono (IsSendable (max_var c)) _ (batch ids c)
        (λ b s. (s.0, grind (arith, s.1, max_var_fits c h))) (batch-IsSendable ids c h k ne)
