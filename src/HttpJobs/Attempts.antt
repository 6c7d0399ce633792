-- ===== src/HttpJobs/Attempts.antt =====
-- How often a batch is tried, and what the executor is told.
use scheduler.Base.{
  ℕ, zero, suc, ◌+◌, ◌<◌, ◌≡◌, refl, ◌∙◌, ap, subst, ◌⊎◌, inl, inr, Bool, true, false, List, [],
  ◌∷◌, ◌++◌, if◌then◌else◌, arith, Bool-cases,
}
use scheduler.HttpJobs.{
  Reply, no_request, no_response, status, Call, success_callback, error_callback, is_ok, by_status,
  attempt, retry_loop, retry_on_error,
}

-- The attempt returns an error.
abbrev pub fails : Reply → Bool
fails r = (attempt r).1

abbrev pub errors : ℕ → List Call
errors zero = []
errors (suc n) = error_callback ∷ errors n

-- Of the attempts from `i` on, at most `most`: `k` fail and the next one succeeds, or all fail.
abbrev pub IsRetried : ℕ → ℕ → (ℕ → Reply) → List Call × Bool → Type 0
IsRetried most i replies r =
    ((k : ℕ) × (k < most)
      × ((j : ℕ) → j < k → fails (replies (i + j)) ≡ true)
      × (fails (replies (i + k)) ≡ false)
      × (r ≡ (errors k ++ success_callback ∷ [], false)))
    ⊎ (((j : ℕ) → j < most → fails (replies (i + j)) ≡ true) × (r ≡ (errors most, true)))

by_status_failed : (b : Bool) → (by_status b).1 ≡ true → (by_status b).0 ≡ error_callback
by_status_failed true h = absurd (cc)
by_status_failed false h = refl

by_status_succeeded : (b : Bool) → (by_status b).1 ≡ false → (by_status b).0 ≡ success_callback
by_status_succeeded true h = refl
by_status_succeeded false h = absurd (cc)

attempt_failed : (r : Reply) → fails r ≡ true → (attempt r).0 ≡ error_callback
attempt_failed no_request h = refl
attempt_failed no_response h = refl
attempt_failed (status code) h = by_status_failed (is_ok code) h

attempt_succeeded : (r : Reply) → fails r ≡ false → (attempt r).0 ≡ success_callback
attempt_succeeded no_request h = absurd (cc)
attempt_succeeded no_response h = absurd (cc)
attempt_succeeded (status code) h = by_status_succeeded (is_ok code) h

abbrev tried : Reply → List Call × Bool → List Call × Bool
tried r rest = if fails r then ((attempt r).0 ∷ rest.0, rest.1) else ((attempt r).0 ∷ [], false)

tried_failed :
    (r : Reply) (rest : List Call × Bool)
    → fails r ≡ true
    → tried r rest ≡ (error_callback ∷ rest.0, rest.1)
tried_failed r rest h =
    ap (λ b. if b then ((attempt r).0 ∷ rest.0, rest.1) else ((attempt r).0 ∷ [], false)) h
    ∙ ap (λ c. (c ∷ rest.0, rest.1)) (attempt_failed r h)

tried_succeeded :
    (r : Reply) (rest : List Call × Bool)
    → fails r ≡ false
    → tried r rest ≡ (success_callback ∷ [], false)
tried_succeeded r rest h =
    ap (λ b. if b then ((attempt r).0 ∷ rest.0, rest.1) else ((attempt r).0 ∷ [], false)) h
    ∙ ap (λ c. (c ∷ [], false)) (attempt_succeeded r h)

-- A failed attempt before those from the next index on.
fails_from :
    (i most : ℕ) (replies : ℕ → Reply)
    → fails (replies i) ≡ true
    → ((j : ℕ) → j < most → fails (replies (i + 1 + j)) ≡ true)
    → (j : ℕ) → j < suc most
    → fails (replies (i + j)) ≡ true
fails_from i most replies here later zero lt =
    subst (λ n. fails (replies n) ≡ true) (omega arith) here
fails_from i most replies here later (suc j) lt =
    subst (λ n. fails (replies n) ≡ true) (omega arith) (later j (omega arith))

-- One attempt before the others.
IsRetried-step :
    (most i : ℕ) (replies : ℕ → Reply) (rest : List Call × Bool)
    → IsRetried most (i + 1) replies rest
    → IsRetried (suc most) i replies (tried (replies i) rest)
IsRetried-step most i replies rest h = elim (Bool-cases (fails (replies i))) [
  | inr done ↦ inl (
    0,
    omega arith,
    (λ j lt. absurd (omega arith)),
    subst (λ n. fails (replies n) ≡ false) (omega arith) done,
    tried_succeeded (replies i) rest done,
  )
  | inl failed ↦ elim h [
    | inl (k, lt, before, here, same) ↦ inl (
      suc k,
      omega arith,
      fails_from i k replies failed before,
      subst (λ n. fails (replies n) ≡ false) (omega arith) here,
      tried_failed (replies i) rest failed
          ∙ ap (λ (r : List Call × Bool). (error_callback ∷ r.0, r.1)) same,
    )
    | inr (all, same) ↦ inr (
      fails_from i most replies failed all,
      tried_failed (replies i) rest failed
          ∙ ap (λ (r : List Call × Bool). (error_callback ∷ r.0, r.1)) same,
    )
  ]
]

retry_loop-IsRetried :
    (left i : ℕ) (replies : ℕ → Reply) → IsRetried left i replies (retry_loop left i replies)
unfolding retry_loop
retry_loop-IsRetried zero i replies = inr ((λ j lt. absurd (omega arith)), refl)
retry_loop-IsRetried (suc left) i replies =
    IsRetried-step left i replies (retry_loop left (i + 1) replies)
      (retry_loop-IsRetried left (i + 1) replies)

-- RetryOnError tries at most maxRetry + 1 times: either some attempt succeeds and all before it fail,
-- and then the error callback was called for each of those, the success callback once after them, and
-- no error is returned; or all maxRetry + 1 attempts fail, the error callback was called for each, and an
-- error is returned.
pub retry_on_error-IsRetried :
    (max_retry : ℕ) (replies : ℕ → Reply)
    → IsRetried (max_retry + 1) 0 replies (retry_on_error max_retry replies)
unfolding retry_on_error
retry_on_error-IsRetried max_retry replies =
    subst (λ n. IsRetried n 0 replies (tried (replies 0) (retry_loop max_retry 1 replies)))
      (omega arith)
      (IsRetried-step max_retry 0 replies (retry_loop max_retry 1 replies)
        (retry_loop-IsRetried max_retry 1 replies))

-- Any response counts as a success: whatever the status of the first response is, the success callback
-- is called at once, and no error is returned.
pub retry_on_error-any_status :
    (max_retry code : ℕ) (replies : ℕ → Reply)
    → replies 0 ≡ status code
    → retry_on_error max_retry replies ≡ (success_callback ∷ [], false)
unfolding retry_on_error
retry_on_error-any_status max_retry code replies first =
    let ok : is_ok code ≡ true = ground arith in
    let done : fails (status code) ≡ false = ap (λ b. (by_status b).1) ok in
    ap (λ r. tried r (retry_loop max_retry 1 replies)) first
    ∙ tried_succeeded (status code) (retry_loop max_retry 1 replies) done
