-- ===== src/HttpJobs.antt =====
-- pkg/service/executor/executors/http_post.go, with RetryOnError of pkg/utils/controllers.go and
-- BatchByBytes of pkg/utils/batcher.go: jobs are posted to their callback urls, in batches.
pub mod Attempts
pub mod Batches
mod Examples
use scheduler.Base.{
  and_then, ℕ, zero, suc, ◌+◌, ◌%◌, Bool, true, false, ◌&&◌, ◌||◌, List, [], ◌∷◌, ◌++◌, map, Option,
  none, some, String, leb, ltb, nat_beq, ◌==◌, if◌then◌else◌, comparable_string,
}
use scheduler.Sql.Values.{Outcome, ok, panics, exits, and_then_ok}
use scheduler.Base.Groups.{group_by}
use scheduler.Base.Maps.{Map, lookup, store}
use scheduler.Models.{Job}

-- What one attempt meets: no request can be made, no response comes, or one with a status.
pub data Reply : Type 0 where
  no_request : Reply
  no_response : Reply
  status : ℕ → Reply

-- Which callback an attempt calls.
pub data Call : Type 0 where
  success_callback : Call
  error_callback : Call

abbrev pub is_ok : ℕ → Bool
is_ok code = leb 200 code || leb code 299

abbrev pub by_status : Bool → Call × Bool
by_status true = (success_callback, false)
by_status false = (error_callback, true)

-- The function that RetryOnError calls: the callback, and whether an error is returned.
abbrev pub attempt : Reply → Call × Bool
attempt no_request = (error_callback, true)
attempt no_response = (error_callback, true)
attempt (status code) = by_status (is_ok code)

-- The loop of RetryOnError, from an attempt on: the calls made, and the last known error.
unfoldable pub retry_loop : ℕ → ℕ → (ℕ → Reply) → List Call × Bool
retry_loop zero i replies = ([], true)
retry_loop (suc left) i replies =
    let r = attempt (replies i) in
    let rest = retry_loop left (i + 1) replies in
    if r.1 then (r.0 ∷ rest.0, rest.1) else (r.0 ∷ [], false)

-- RetryOnError, for the attempts that meet `replies 0`, `replies 1`, …
unfoldable pub retry_on_error : ℕ → (ℕ → Reply) → List Call × Bool
unfolding retry_loop
retry_on_error max_retry replies =
    let r = attempt (replies 0) in
    let rest = retry_loop max_retry 1 replies in
    if r.1 then (r.0 ∷ rest.0, rest.1) else (r.0 ∷ [], false)

-- urlJobCache; in both branches the job is appended to what the map had.
abbrev pub url_job_cache : List Job → Map String (List Job) → Map String (List Job)
url_job_cache jobs m = group_by (λ (j : Job). j.callback_url) jobs m

-- The text of the current collection is added to the results; the program exits when there is none.
abbrev pub with_batch : List String → Option String → Outcome String (List String)
with_batch results none = exits
with_batch results (some text) = ok (results ++ text ∷ [])

-- How BatchByBytes sees the outside: `json.Marshal`, where `none` is an error, the number of bytes of a
-- text, and `itemsPerBatch` of that number and of `maxBatchSizeMb`, which is computed in floats and of
-- which `i % itemsPerBatch` sees only the absolute value.
pub record BytesOutside : Type 0 where
  pub marshal : List Job → Option String
  pub size : String → ℕ
  pub items_per_batch : ℕ → ℕ → ℕ

module _ (o : BytesOutside) where
  abbrev pub last_batch : List String → List Job → Outcome String (List String)
  last_batch results [] = ok results
  last_batch results (job ∷ jobs) = with_batch results (o.marshal (job ∷ jobs))

  -- The loop of BatchByBytes, at the index `i`.
  unfoldable pub bytes_loop :
      ℕ → ℕ → List String → List Job → List Job → Outcome String (List String)
  bytes_loop items i results current [] = last_batch results current
  bytes_loop items i results current (job ∷ jobs) =
      let full = nat_beq (i % items) 0 && ltb 0 i in
      elim full [
        | true ↦
            and_then_ok (with_batch results (o.marshal current))
              (λ results. bytes_loop items (i + 1) results (job ∷ []) jobs)
        | false ↦ bytes_loop items (i + 1) results (current ++ job ∷ []) jobs
      ]

  -- A remainder by 0 panics.
  abbrev pub batches_of : ℕ → List Job → Outcome String (List String)
  batches_of zero jobs = panics
  batches_of (suc items) jobs = bytes_loop (suc items) 0 [] [] jobs

  abbrev pub batches_by_size : ℕ → List Job → Option String → Outcome String (List String)
  batches_by_size max_batch_size_mb jobs none = exits
  batches_by_size max_batch_size_mb jobs (some text) =
      batches_of (o.items_per_batch (o.size text) max_batch_size_mb) jobs

  -- BatchByBytes; the first of no jobs panics.
  abbrev pub batch_by_bytes : ℕ → List Job → Outcome String (List String)
  batch_by_bytes max_batch_size_mb [] = panics
  batch_by_bytes max_batch_size_mb (job ∷ jobs) =
      batches_by_size max_batch_size_mb (job ∷ jobs) (o.marshal (job ∷ []))
