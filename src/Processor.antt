-- ===== src/Processor.antt =====
-- RecoverJobs of pkg/service/processor/processor.go: a node that starts again takes up the jobs of its
-- last ranges. Its logs and jobs come from the repositories.
pub mod Recovery
mod Examples
use scheduler.Base.{
  and_then, ℕ, zero, suc, ◌+◌, ◌-◌, Bool, true, false, not, ◌&&◌, List, [], ◌∷◌, ◌++◌, Option, none,
  some, ltb, nat_beq, if◌then◌else◌, comparable_uint,
}
use scheduler.Base.Maps.{Map, lookup}
use scheduler.Models.{Job, JobExecutionLog, JobQueueLog, execution_log_schedule_state}
use scheduler.NextRun.{Schedule}
use scheduler.Executor.{JobExecutor, Context, add_job_schedule}
use scheduler.Executor.Schedule.{schedule_jobs}

-- Where the loop over the jobs stands: whether RecoverJobs has returned, jobsToSchedule, the executor.
pub record Recovered : Type 0 where
  pub returned : Bool
  pub jobs_to_schedule : List Job
  pub executor : JobExecutor

abbrev pub zero_log : JobExecutionLog
zero_log = record {
  id = 0;
  unique_id = "";
  state = 0;
  node_id = 0;
  last_execution_datetime = 0;
  next_execution_datetime = 0;
  job_id = 0;
  job_queue_version = 0;
  execution_version = 0;
  data_created = 0;
}

abbrev pub collect : Job → Recovered → Recovered
collect job r = record r { jobs_to_schedule = r.jobs_to_schedule ++ job ∷ [] }

-- The job as it was for its last execution.
abbrev pub as_logged : Job → JobExecutionLog → Job
as_logged job log = record job {
  execution_id = log.unique_id;
  last_execution_date = log.last_execution_datetime;
}

abbrev pub recover_parsed :
    Context → Job → JobExecutionLog → Option Schedule → Recovered → Recovered
recover_parsed c job log none r = record r { returned = true }
recover_parsed c job log (some s) r =
    if ltb c.world.now (s.next c.world.stored_zone log.last_execution_datetime)
      && nat_beq log.state execution_log_schedule_state
    then record r { executor = add_job_schedule c.world (as_logged job log) r.executor }
    else collect (as_logged job log) r

abbrev pub recover_known : Context → ℕ → Job → JobExecutionLog → Recovered → Recovered
recover_known c version job log r =
    if not (nat_beq log.node_id c.node_id) && not (nat_beq log.job_queue_version version)
    then r
    else recover_parsed c job log (c.world.parse job.spec) r

abbrev pub recover_logged : Context → ℕ → Job → Option JobExecutionLog → Recovered → Recovered
recover_logged c version job none r = recover_known c version job zero_log (collect job r)
recover_logged c version job (some log) r = recover_known c version job log r

-- The loop over the jobs of a range.
unfoldable pub recover_loop : Context → ℕ → Map ℕ JobExecutionLog → List Job → Recovered → Recovered
unfolding add_job_schedule
recover_loop c version logs [] r = r
recover_loop c version logs (job ∷ jobs) r =
    let r' = recover_logged c version job (lookup job.id logs) r in
    let rest = recover_loop c version logs jobs r' in if r'.returned then r' else rest

-- expandedJobIds, from `lower` on, for an upper bound below the largest uint64.
unfoldable pub expand : ℕ → ℕ → List ℕ
expand zero lower = []
expand (suc n) lower = lower ∷ expand n (lower + 1)

abbrev pub schedule_recovered : Context → Recovered → Option (Bool × JobExecutor)
schedule_recovered c r =
    if r.returned
    then some (true, r.executor)
    else and_then (schedule_jobs c r.jobs_to_schedule r.executor) λ e. some (false, e)

abbrev pub recover_fetched :
    Context
    → JobQueueLog
    → Map ℕ JobExecutionLog
    → Option (List Job)
    → JobExecutor
    → Option (Bool × JobExecutor)
recover_fetched c log logs none e = some (true, e)
recover_fetched c log logs (some jobs) e = schedule_recovered c (
    recover_loop c log.version logs jobs
      (record { returned = false; jobs_to_schedule = []; executor = e }))

-- A round of the loop over the queue logs: whether RecoverJobs returns, and the executor.
unfoldable pub recover_log :
    Context → (List ℕ → Option (List Job)) → JobQueueLog → JobExecutor → Option (Bool × JobExecutor)
unfolding recover_loop expand
recover_log c get log e =
    let ids = expand (log.upper_bound_job_id + 1 - log.lower_bound_job_id) log.lower_bound_job_id in
    recover_fetched c log (c.last_logs ids) (get ids) e

-- RecoverJobs
unfoldable pub recover_jobs :
    Context → (List ℕ → Option (List Job)) → List JobQueueLog → JobExecutor → Option JobExecutor
unfolding recover_log
recover_jobs c get [] e = some e
recover_jobs c get (log ∷ logs) e =
    and_then (recover_log c get log e)
      λ r. elim r.0 [ true ↦ some r.1 | false ↦ recover_jobs c get logs r.1 ]
