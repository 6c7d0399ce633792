-- ===== src/Batch.antt =====
-- pkg/utils/batcher.go, `Batch`: rows are cut into batches that fit the variable limit of sqlite.
pub mod Sizes
mod Examples
use scheduler.Base.{
  ℕ, ◌/◌, Bool, true, false, List, [], ◌∷◌, ◌++◌, ltb, nat_beq, if◌then◌else◌, length, ◌≡◌, refl,
}
use scheduler.Base.Floats.{float64}

-- constants.DBMaxVariableSize
abbrev pub db_max_variable_size : ℕ
db_max_variable_size = 32766

-- int64(math.Floor(float64(DBMaxVariableSize / numberOfColumns))); the division is already whole.
unfoldable pub max_var : ℕ → ℕ
max_var number_of_columns = float64 (db_max_variable_size / number_of_columns)

module _ {ℓ} {A : Type ℓ} where
  -- The `for count < len(ids)` loop: `temp` is cut off whenever it reaches `limit` rows.
  unfoldable pub batch_loop : ℕ → List A → List (List A) → List A → List (List A) × List A
  batch_loop limit temp batches [] = (batches, temp)
  batch_loop limit temp batches (id ∷ ids) =
      let temp' = temp ++ id ∷ [] in
      let full = nat_beq (length temp') limit in
      batch_loop limit (if full then [] else temp')
        (if full then batches ++ temp' ∷ [] else batches) ids

  -- `if len(temp) > 0`
  unfoldable pub flush : List (List A) × List A → List (List A)
  flush (batches, []) = batches
  flush (batches, t ∷ ts) = batches ++ (t ∷ ts) ∷ []

  unfoldable pub batch : List A → ℕ → List (List A)
  unfolding batch_loop flush
  batch ids number_of_columns =
      if ltb (max_var number_of_columns) (length ids)
      then flush (batch_loop (max_var number_of_columns) [] [] ids)
      else ids ∷ []
