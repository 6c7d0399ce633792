-- ===== src/Batch/Examples.antt =====
-- `Batch` at small inputs.
use scheduler.Base.{ℕ, ◌*◌, ◌≤◌, ◌<◌, ◌≡◌, refl, List, [], ◌∷◌, arith, length, All}
use scheduler.Base.Floats.{float64}
use scheduler.Batch.{batch, max_var}
use scheduler.Batch.Sizes.{batch_fits}

abbrev rows : List ℕ
rows = 1 ∷ 2 ∷ 3 ∷ []

batch-rows : batch rows 16383 ≡ (1 ∷ 2 ∷ []) ∷ (3 ∷ []) ∷ []
unfolding batch max_var float64
batch-rows = refl

batch_fits_example : All (λ b. (0 < length b) × (length b * 16383 ≤ 32766)) (batch rows 16383)
batch_fits_example = batch_fits rows 16383 (omega arith) (omega arith) (λ e. ground (arith, e))
