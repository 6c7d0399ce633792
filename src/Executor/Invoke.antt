-- ===== src/Executor/Invoke.antt =====
-- ListenForJobsToInvoke, invokeJob and StopAll. The ticker, the debounced call and the handlers are
-- steps: a tick takes the due jobs off the schedule, and a flush, which the debouncer calls when no
-- job was invoked for a while, hands the pending ones over.
pub mod Ticks
pub mod Once
mod Examples
use scheduler.Base.{
  ℕ, Bool, List, [], ◌∷◌, ◌++◌, Option, none, some, String, ltb, ◌==◌, if◌then◌else◌,
  comparable_uint, comparable_string,
}
use scheduler.Base.Groups.{group_by}
use scheduler.Base.Maps.{Map, lookup, store, delete}
use scheduler.Models.{Job, JobSchedule}
use scheduler.Executor.{JobExecutor}
use scheduler.Executor.Schedule.{job_ids}
use scheduler.Executor.Results.{cons_some}

abbrev pub take_off : ℕ → JobExecutor → JobExecutor
take_off id e = record e { scheduled_jobs = delete id e.scheduled_jobs }

-- invokeJob: the job waits for the debounced call.
abbrev pub invoke_job : Job → JobExecutor → JobExecutor
invoke_job job e = record e { pending_job_invocations = e.pending_job_invocations ++ job ∷ [] }

-- The function that Range calls; `After` is strict.
abbrev pub range_round : ℕ → JobSchedule → JobExecutor → JobExecutor
range_round now s e = if ltb s.execution_time now then invoke_job s.job (take_off s.job.id e) else e

-- A tick at `now`, with the entries in the order in which Range visits them.
unfoldable pub tick : ℕ → List (ℕ × JobSchedule) → JobExecutor → JobExecutor
unfolding delete
tick now [] e = e
tick now ((k, s) ∷ entries) e = tick now entries (range_round now s e)

-- getPendingJob
abbrev pub get_pending_job : ℕ → List Job → Option Job
get_pending_job id [] = none
get_pending_job id (job ∷ jobs) = if job.id == id then some job else get_pending_job id jobs

-- jobsToExecute
abbrev pub jobs_to_execute : List Job → List Job → List Job
jobs_to_execute pending [] = []
jobs_to_execute pending (job ∷ jobs) =
    cons_some (get_pending_job job.id pending) (jobs_to_execute pending jobs)

-- jobsByType
abbrev pub jobs_by_type : List Job → Map String (List Job) → Map String (List Job)
jobs_by_type jobs m = group_by (λ (j : Job). j.execution_type) jobs m

-- The debounced call, with BatchGetJobsByID over the database: the jobs given to ExecuteHTTPJob, if it
-- is called, and the new state. Jobs of other types are dropped with a line in the log.
unfoldable pub flush : (List ℕ → Option (List Job)) → JobExecutor → Option (List Job) × JobExecutor
unfolding group_by lookup
flush get e = elim (get (job_ids e.pending_job_invocations)) [
  | none ↦ (none, e)
  | some jobs ↦ (
    lookup "http" (jobs_by_type (jobs_to_execute e.pending_job_invocations jobs) []),
    record e { pending_job_invocations = [] },
  )
]

abbrev pub delete_keys : List (ℕ × JobSchedule) → Map ℕ JobSchedule → Map ℕ JobSchedule
delete_keys [] m = m
delete_keys ((k, s) ∷ entries) m = delete_keys entries (delete k m)

-- StopAll
unfoldable pub stop_all : List (ℕ × JobSchedule) → JobExecutor → JobExecutor
unfolding delete
stop_all entries e = record e { scheduled_jobs = delete_keys entries e.scheduled_jobs }
