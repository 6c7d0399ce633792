-- ===== src/Executor/Fetch.antt =====
-- QueueExecutions: the jobs of the ranges that the leader gave to this node are fetched and
-- scheduled. An `int` is an int64.
pub mod Ranges
pub mod Missed
mod Examples
use scheduler.Base.{
  and_then, ℕ, zero, suc, Bool, List, [], ◌∷◌, Option, none, some, ltb, if◌then◌else◌,
}
use scheduler.Base.Words.{max_int64, min_int64, add64, sub64, slt, word64}
use scheduler.Base.Floats.{float64, float_min, float_of_int64, int64_of_float}
use scheduler.Models.{Job, JobQueueLog}
use scheduler.Executor.{JobExecutor, Context}
use scheduler.Executor.Schedule.{schedule_jobs}

-- constants.JobMaxBatchSize
abbrev pub job_max_batch_size : ℕ
job_max_batch_size = 5461

-- BatchGetJobsWithIDRange over the database: the jobs with ids between the two, or an error.
abbrev pub GetJobs : Type 0
GetJobs = ℕ → ℕ → Option (List Job)

-- The loop over the logs; `>` compares uint64 values.
unfoldable pub bounds : List JobQueueLog → ℕ → ℕ → ℕ × ℕ
bounds [] lower upper = (lower, upper)
bounds (log ∷ logs) lower upper =
    bounds logs (if ltb log.lower_bound_job_id lower then log.lower_bound_job_id else lower)
      (if ltb log.upper_bound_job_id upper then log.upper_bound_job_id else upper)

-- The upper bound of the batch after the one that ends at `current`.
unfoldable pub next_upper : ℕ → ℕ → ℕ
unfolding float64
next_upper upper current =
    if slt (sub64 upper current) job_max_batch_size
    then upper
    else int64_of_float (
        float_min (float_of_int64 (add64 (add64 current 1) job_max_batch_size))
          (float_of_int64 upper))

-- The loop over the batches. The lower bound grows in every round, so that `upper - lower` rounds do.
unfoldable pub fetch_loop : ℕ → Context → GetJobs → ℕ → ℕ → ℕ → JobExecutor → Option JobExecutor
unfolding next_upper schedule_jobs
fetch_loop zero c get upper lower current e = some e
fetch_loop (suc rounds) c get upper lower current e =
    if slt lower upper
    then elim (get lower current) [
      | none ↦ some e
      | some jobs ↦
          and_then (schedule_jobs c jobs e)
            λ e'. fetch_loop rounds c get upper (add64 current 1) (next_upper upper current) e'
    ]
    else some e

-- On an error the list of jobs is nil, and nothing is scheduled.
unfoldable pub fetch_once : Context → GetJobs → ℕ → ℕ → JobExecutor → Option JobExecutor
unfolding schedule_jobs
fetch_once c get lower upper e = elim (get lower upper) [
  | none ↦ schedule_jobs c [] e
  | some jobs ↦ schedule_jobs c jobs e
]

unfoldable pub fetch : Context → GetJobs → ℕ → ℕ → JobExecutor → Option JobExecutor
unfolding fetch_loop fetch_once
fetch c get lower upper e =
    if slt job_max_batch_size (sub64 upper lower)
    then fetch_loop (sub64 upper lower) c get upper lower (add64 lower job_max_batch_size) e
    else fetch_once c get lower upper e

-- QueueExecutions, with the logs that GetJobQueueByLastInsertedAndRowsAffected returned.
unfoldable pub queue_executions :
    Context → GetJobs → List JobQueueLog → JobExecutor → Option JobExecutor
unfolding bounds fetch
queue_executions c get logs e = let b = bounds logs max_int64 min_int64 in fetch c get b.0 b.1 e
