-- ===== src/HttpJobs/Examples.antt =====
-- Small posts of jobs, and the theorems at them.
use scheduler.Base.{
  arith, map, concat, String, Option, none, nat_beq, if◌then◌else◌, ◌*◌, ℕ, ◌≡◌, refl, List, [],
  ◌∷◌, some, zero, suc,
}
use scheduler.Base.{comparable_string}
use scheduler.Models.{Job}
use scheduler.Executor.Examples.{job}
use scheduler.HttpJobs.{
  Reply, no_response, status, retry_on_error, BytesOutside, bytes_loop, batch_by_bytes,
}
use scheduler.HttpJobs.Batches.{IsCut, batch_by_bytes-IsCut}
use scheduler.HttpJobs.Attempts.{IsRetried, retry_on_error-IsRetried}
use scheduler.Sql.Values.{ok, exits, panics}

-- The first two attempts get no response.
abbrev third_time : ℕ → Reply
third_time zero = no_response
third_time (suc zero) = no_response
third_time (suc (suc n)) = status 200

abbrev not_found : ℕ → Reply
not_found n = status 404

abbrev at_a : Job
at_a = record (job 1) { callback_url = "a" }

abbrev at_b : Job
at_b = record (job 2) { callback_url = "b" }

-- Job 3 has no JSON text; two jobs fit in a megabyte.
abbrev as_text : List Job → Option String
as_text [] = some "[]"
as_text (j ∷ js) = if nat_beq j.id 3 then none else some "jobs"

abbrev outside : BytesOutside
outside = record { marshal = as_text; size = λ text. 4; items_per_batch = λ size mb. 2 * mb }

two_in_a_batch : batch_by_bytes outside 1 (job 1 ∷ job 2 ∷ job 4 ∷ []) ≡ ok ("jobs" ∷ "jobs" ∷ [])
unfolding bytes_loop
two_in_a_batch = refl

job_without_text : batch_by_bytes outside 1 (job 1 ∷ job 2 ∷ job 3 ∷ []) ≡ exits
unfolding bytes_loop
job_without_text = refl

batches_of_none : batch_by_bytes outside 0 (job 1 ∷ []) ≡ panics
batches_of_none = refl

retry_on_error-IsRetried_example : IsRetried 4 0 third_time (retry_on_error 3 third_time)
retry_on_error-IsRetried_example = retry_on_error-IsRetried 3 third_time

abbrev always : BytesOutside
always = record {
  marshal = λ jobs. some "jobs";
  size = λ text. 4;
  items_per_batch = λ size mb. 2 * mb;
}

batch_by_bytes-IsCut_example :
    (bs : List (List Job)) × (batch_by_bytes always 1 (job 1 ∷ job 2 ∷ job 4 ∷ [])
      ≡ ok (map (λ jobs. "jobs") bs))
    × (concat bs ≡ job 1 ∷ job 2 ∷ job 4 ∷ [])
    × IsCut 2 bs
batch_by_bytes-IsCut_example =
    batch_by_bytes-IsCut always (λ jobs. "jobs") (λ jobs. refl) 1 2 (job 1) (job 2 ∷ job 4 ∷ [])
      refl (omega arith)
