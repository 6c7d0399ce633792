-- ===== src/Executor/Results.antt =====
-- handleSuccessJobs, handleFailedJobs, createInMemExecutionsForJobsIfNotExist and reschedule.
-- `none` is a panic: a type assertion on a missing cache entry.
pub mod Totals
pub mod Success
pub mod Failure
use scheduler.Base.{
  and_then, ℕ, ◌+◌, ◌%◌, ◌^◌, Bool, true, false, ◌&&◌, List, [], ◌∷◌, Option, none, some, ltb,
  nat_beq, if◌then◌else◌, comparable_uint,
}
use scheduler.Base.Maps.{Map, lookup, store}
use scheduler.Models.{
  Job, JobExecutionLog, MemJobExecution, execution_log_schedule_state, execution_log_success_state,
  execution_log_failed_state,
}
use scheduler.NextRun.{get_next_execution_time, get_next_execution_id}
use scheduler.Executor.{JobExecutor, Context, add_job_schedule, cache, write_logs}
use scheduler.Executor.Schedule.{with_last, with_id, mem_execution}

abbrev pub unless_cached : ℕ → Option MemJobExecution → List ℕ → List ℕ
unless_cached id none ids = id ∷ ids
unless_cached id (some mem) ids = ids

-- jobsNotInExecution
unfoldable pub jobs_not_in_execution : Map ℕ MemJobExecution → List Job → List ℕ
jobs_not_in_execution mems [] = []
jobs_not_in_execution mems (job ∷ jobs) =
    unless_cached job.id (lookup job.id mems) (jobs_not_in_execution mems jobs)

-- The entry for a job with a last log, or with the zero log.
unfoldable pub mem_of_log : Context → ℕ → Option JobExecutionLog → MemJobExecution
mem_of_log c id none = mem_execution 0 0 0 0 0
mem_of_log c id (some log) =
    mem_execution log.execution_version
      (if nat_beq log.state execution_log_failed_state
        then c.count_last_failed id c.node_id log.execution_version
        else 0)
      log.state log.last_execution_datetime log.next_execution_datetime

unfoldable pub store_mems : Context → Map ℕ JobExecutionLog → List ℕ → JobExecutor → JobExecutor
store_mems c logs [] e = e
store_mems c logs (id ∷ ids) e =
    store_mems c logs ids (cache id (mem_of_log c id (lookup id logs)) e)

unfoldable pub create_in_mem_executions : Context → List Job → JobExecutor → JobExecutor
unfolding jobs_not_in_execution store_mems mem_of_log
create_in_mem_executions c jobs e =
    let ids = jobs_not_in_execution e.job_executions_cache jobs in
    store_mems c (c.last_logs ids) ids e

-- The cached versions; `keep` says whether a version that is there already stays.
unfoldable pub cached_versions :
    Bool → Map ℕ MemJobExecution → List Job → Map ℕ ℕ → Option (Map ℕ ℕ)
cached_versions keep mems [] vs = some vs
cached_versions keep mems (job ∷ jobs) vs = elim (lookup job.id mems) [
  | none ↦ none
  | some mem ↦ cached_versions keep mems jobs (elim (lookup job.id vs) [
    | none ↦ store job.id mem.execution_version vs
    | some v ↦ if keep then vs else store job.id mem.execution_version vs
  ])
]

-- A failure that may be retried: it is counted, and the loop goes on to the next job.
abbrev pub counts_failure : Context → ℕ → MemJobExecution → Bool
counts_failure c state mem =
    nat_beq state execution_log_failed_state && ltb mem.fail_count c.job_execution_retry_max

abbrev pub one_more_failure : ℕ → MemJobExecution → MemJobExecution
one_more_failure state mem =
    mem_execution mem.execution_version ((mem.fail_count + 1) % 2 ^ 64) state
      mem.last_execution_datetime mem.next_execution_datetime

abbrev pub rescheduled :
    Context → ℕ → Job → MemJobExecution → Option ℕ → JobExecutor → Option Job × JobExecutor
rescheduled c state job' mem none e = (none, e)
rescheduled c state job' mem (some next) e =
    let job'' = with_id (get_next_execution_id c.world job') job' in
    (
      some job'',
      cache job'.id
          (mem_execution ((mem.execution_version + 1) % 2 ^ 64) 0 state mem.next_execution_datetime
            next)
          (add_job_schedule c.world job'' e),
    )

-- A round of reschedule's loop for a cached job.
unfoldable pub reschedule_cached :
    Context → ℕ → Job → MemJobExecution → JobExecutor → Option Job × JobExecutor
reschedule_cached c state job mem e =
    let job' = with_last mem.next_execution_datetime job in
    if counts_failure c state mem
    then (none, cache job.id (one_more_failure state mem) e)
    else rescheduled c state job' mem (get_next_execution_time c.world job') e

abbrev pub cons_some : Option Job → List Job → List Job
cons_some none js = js
cons_some (some j) js = j ∷ js

-- The first loop of reschedule: the jobs to reschedule, and the new state.
unfoldable pub reschedule_all :
    Context → ℕ → List Job → JobExecutor → Option (List Job × JobExecutor)
unfolding reschedule_cached
reschedule_all c state [] e = some ([], e)
reschedule_all c state (job ∷ jobs) e = elim (lookup job.id e.job_executions_cache) [
  | none ↦ none
  | some mem ↦
      let r = reschedule_cached c state job mem e in
      and_then (reschedule_all c state jobs r.1) λ s. some (cons_some r.0 s.0, s.1)
]

unfoldable pub reschedule : Context → List Job → ℕ → JobExecutor → Option JobExecutor
unfolding reschedule_all cached_versions
reschedule c jobs state e = and_then (reschedule_all c state jobs e) λ r.
    and_then (cached_versions true r.1.job_executions_cache r.0 [])
      λ vs. some (write_logs c r.0 execution_log_schedule_state vs r.1)

-- The body that the two handlers share, but for the state that they log.
unfoldable pub handle_jobs : Context → ℕ → List Job → JobExecutor → Option JobExecutor
unfolding create_in_mem_executions reschedule
handle_jobs c state jobs e =
    let e' = create_in_mem_executions c jobs e in
    and_then (cached_versions false e'.job_executions_cache jobs [])
      λ vs. reschedule c jobs state (write_logs c jobs state vs e')

unfoldable pub handle_success_jobs : Context → List Job → JobExecutor → Option JobExecutor
unfolding handle_jobs
handle_success_jobs c jobs e = handle_jobs c execution_log_success_state jobs e

unfoldable pub handle_failed_jobs : Context → List Job → JobExecutor → Option JobExecutor
unfolding handle_jobs
handle_failed_jobs c jobs e = handle_jobs c execution_log_failed_state jobs e
