-- ===== src/Executor/Fetch/Examples.antt =====
-- Small ranges to fetch.
use scheduler.Base.{
  ℕ, ◌≤◌, ◌≡◌, refl, sym, ap, inr, [], ◌∷◌, some, arith, comparable_uint, ltb, if◌then◌else◌,
}
use scheduler.Base.Maps.{lookup}
use scheduler.Models.{JobQueueLog, JobExecutionLog}
use scheduler.Executor.{JobExecutor, Context}
use scheduler.Executor.Schedule.Rounds.{IsReady}
use scheduler.Executor.Examples.{world, job, idle, context, every_ten}
use scheduler.Executor.Fetch.{GetJobs, bounds, queue_executions}
use scheduler.Executor.Fetch.Ranges.{Serves, queue_executions-IsReady}
use scheduler.Executor.Fetch.Missed.{queue_executions-misses_last, AgreeBelow}

abbrev range_log : ℕ → ℕ → JobQueueLog
range_log lower upper = record {
  id = 1;
  node_id = 2;
  lower_bound_job_id = lower;
  upper_bound_job_id = upper;
  version = 1;
  date_created = 0;
}

-- Two logs: the upper bound is the smaller one.
bounds_two : bounds (range_log 5 9 ∷ range_log 20 30 ∷ []) 100 1000 ≡ (5, 9)
unfolding bounds
bounds_two = refl

-- Job 4 is the only one.
abbrev get_four : GetJobs
get_four lower upper = some (job 4 ∷ [])

abbrev new_context : Context
new_context = record context { last_logs = λ ids. [] }

no_log : (log : JobExecutionLog) → lookup 4 (new_context.last_logs []) ≡ some log → log.state ≤ 2
unfolding lookup
no_log log e = absurd (cc)

four-Serves : Serves new_context get_four (λ i. i ≡ 4)
four-Serves lower upper = (
  job 4 ∷ [],
  refl,
  ((every_ten, refl, refl), tt),
  (no_log, tt),
  λ i four l u. (0, ap some (sym four)),
)

queue_executions-IsReady_example :
    (e' : JobExecutor) × (queue_executions new_context get_four (range_log 1 20000 ∷ []) idle
      ≡ some e')
    × ((i : ℕ) → i ≡ 4 → 1 ≤ i → i ≤ 20000 → IsReady world i e')
    × ((i : ℕ) → IsReady world i idle → IsReady world i e')
queue_executions-IsReady_example =
    queue_executions-IsReady new_context get_four (λ i. i ≡ 4) (range_log 1 20000) idle four-Serves
      (omega arith) (omega arith) (inr (λ h. omega (arith, h)))

-- A database with job 5463 only, and an empty one.
abbrev get_last : GetJobs
get_last lower upper = if ltb upper 5463 then some [] else some (job 5463 ∷ [])

abbrev get_nothing : GetJobs
get_nothing lower upper = some []

last-AgreeBelow : AgreeBelow 5463 get_last get_nothing
last-AgreeBelow l u lt = ground arith

queue_executions-misses_last_example :
    queue_executions context get_last (range_log 1 5463 ∷ []) idle
    ≡ queue_executions context get_nothing (range_log 1 5463 ∷ []) idle
queue_executions-misses_last_example =
    queue_executions-misses_last context get_last get_nothing 0 (range_log 1 5463) idle
      last-AgreeBelow (omega arith) refl
