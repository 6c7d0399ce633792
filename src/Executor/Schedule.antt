-- ===== src/Executor/Schedule.antt =====
-- ScheduleJobs. Go loops over `jobs` with `job` a copy of the element as it was, and changes the
-- element `jobs[i]` in place; here a round returns the changed element. `none` is a panic: a nil
-- dereference or a failed type assertion.
pub mod Rounds
pub mod Retries
pub mod Future
use scheduler.Base.{
  and_then, ℕ, ◌+◌, ◌-◌, ◌*◌, ◌%◌, ◌^◌, Bool, true, false, ◌&&◌, ◌||◌, List, [], ◌∷◌, Option, none,
  some, ltb, nat_beq, if◌then◌else◌, map, comparable_uint, String,
}
use scheduler.Base.Maps.{Map, lookup, store}
use scheduler.Models.{
  Job, JobExecutionLog, MemJobExecution, execution_log_schedule_state, execution_log_success_state,
  execution_log_failed_state,
}
use scheduler.NextRun.{
  World, second, get_next_execution_time, get_next_execution_id, convert_time_to_job_timezone,
}
use scheduler.Executor.{JobExecutor, Context, add_job_schedule, cache, write_logs}

abbrev pub mem_execution : ℕ → ℕ → ℕ → ℕ → ℕ → MemJobExecution
mem_execution version fails state last next = record {
  execution_version = version;
  fail_count = fails;
  last_state = state;
  last_execution_datetime = last;
  next_execution_datetime = next;
}

abbrev pub with_last : ℕ → Job → Job
with_last t job = record job { last_execution_date = t }

abbrev pub with_id : String → Job → Job
with_id id job = record job { execution_id = id }

-- The common end of three branches: the job gets its execution id, is scheduled, and is cached.
abbrev pub schedule_with : World → Job → String → MemJobExecution → JobExecutor → Job × JobExecutor
schedule_with w job id mem e =
    (with_id id job, cache job.id mem (add_job_schedule w (with_id id job) e))

abbrev pub first_timed : World → Job → Job → Option ℕ → JobExecutor → Job × JobExecutor
first_timed w job job' none e = (job', e)
first_timed w job job' (some next) e =
    schedule_with w job' (get_next_execution_id w job')
      (mem_execution 1 0 execution_log_schedule_state job.date_created next) e

abbrev pub first_converted : World → Job → Option (String × ℕ) → JobExecutor → Job × JobExecutor
first_converted w job none e = (job, e)
first_converted w job (some (zone, t)) e =
    first_timed w job (with_last t job) (get_next_execution_time w (with_last t job)) e

-- The job has no log: its first execution.
unfoldable pub schedule_first : World → Job → JobExecutor → Job × JobExecutor
schedule_first w job e =
    first_converted w job (convert_time_to_job_timezone w job job.date_created) e

-- nextExecutionTime.Sub(jobLastLog.NextExecutionDatetime).Round(time.Minute) < 1
abbrev pub is_same_minute : ℕ → ℕ → Bool
is_same_minute next logged = ltb (2 * (next - logged)) (60 * second)

abbrev pub again_timed :
    World → Job → Job → JobExecutionLog → Option ℕ → JobExecutor → Option (Job × JobExecutor)
again_timed w job job' log none e = none
again_timed w job job' log (some next) e = some (
    schedule_with w job'
      (if is_same_minute next log.next_execution_datetime
        then log.unique_id
        else get_next_execution_id w job')
      (mem_execution log.execution_version 0 execution_log_schedule_state job.last_execution_date
        next)
      e)

-- The last log says "scheduled". The time is dereferenced before its error is tested.
unfoldable pub schedule_again :
    World → Job → JobExecutionLog → JobExecutor → Option (Job × JobExecutor)
schedule_again w job log e =
    let job' = with_last log.last_execution_datetime job in
    again_timed w job job' log (get_next_execution_time w job') e

-- The end of the branches for a log that says "succeeded" or "failed".
abbrev pub next_timed :
    World → Job → JobExecutionLog → ℕ → Option ℕ → JobExecutor → Job × JobExecutor
next_timed w job' log state none e = (job', e)
next_timed w job' log state (some next) e =
    schedule_with w job' (get_next_execution_id w job')
      (mem_execution log.execution_version 0 state log.next_execution_datetime next) e

unfoldable pub schedule_next : World → Job → JobExecutionLog → ℕ → JobExecutor → Job × JobExecutor
schedule_next w job log state e =
    let job' = with_last log.next_execution_datetime job in
    next_timed w job' log state (get_next_execution_time w job') e

-- The retry of a failed job, while its failures are below the maximum.
unfoldable pub schedule_retry : Context → Job → JobExecutionLog → JobExecutor → Job × JobExecutor
schedule_retry c job log e =
    let fails = c.count_last_failed job.id c.node_id log.execution_version in
    let job' = with_last log.last_execution_datetime job in
    let job'' = with_id (get_next_execution_id c.world job') job' in
    let mem =
      mem_execution log.execution_version fails execution_log_failed_state
        log.last_execution_datetime log.next_execution_datetime in
    if ltb fails c.job_execution_retry_max
    then (job'', add_job_schedule c.world job'' (cache job.id mem e))
    else (job, e)

-- The failed branch runs on into the code for a job whose retries are used up.
unfoldable pub schedule_failed : Context → Job → JobExecutionLog → JobExecutor → Job × JobExecutor
unfolding schedule_retry schedule_next
schedule_failed c job log e =
    let r = schedule_retry c job log e in
    schedule_next c.world r.0 log execution_log_failed_state r.1

unfoldable pub schedule_logged :
    Context → Job → JobExecutionLog → JobExecutor → Option (Job × JobExecutor)
unfolding schedule_again schedule_next schedule_failed
schedule_logged c job log e =
    if nat_beq log.state execution_log_schedule_state
    then schedule_again c.world job log e
    else if nat_beq log.state execution_log_success_state
    then some (schedule_next c.world job log execution_log_success_state e)
    else if nat_beq log.state execution_log_failed_state
    then some (schedule_failed c job log e)
    else some (job, e)

-- One round of the first loop.
unfoldable pub schedule_one :
    Context → Map ℕ JobExecutionLog → Job → JobExecutor → Option (Job × JobExecutor)
unfolding schedule_first schedule_logged
schedule_one c logs job e = elim (lookup job.id logs) [
  | none ↦ some (schedule_first c.world job e)
  | some log ↦ schedule_logged c job log e
]

unfoldable pub schedule_all :
    Context → Map ℕ JobExecutionLog → List Job → JobExecutor → Option (List Job × JobExecutor)
schedule_all c logs [] e = some ([], e)
schedule_all c logs (job ∷ jobs) e =
    and_then (schedule_one c logs job e)
      λ r. and_then (schedule_all c logs jobs r.1) λ s. some (r.0 ∷ s.0, s.1)

-- A run that succeeded, or whose retries are used up, is followed by the next version.
abbrev pub next_version : JobExecutionLog → MemJobExecution → ℕ
next_version log mem =
    if nat_beq log.state execution_log_success_state
      || nat_beq mem.fail_count 0 && nat_beq mem.last_state execution_log_failed_state
    then (log.execution_version + 1) % 2 ^ 64
    else log.execution_version

abbrev pub logged_version : JobExecutionLog → Option MemJobExecution → Option ℕ
logged_version log none = none
logged_version log (some mem) = some (next_version log mem)

-- The execution version of a job in the second loop.
unfoldable pub version_of : Map ℕ JobExecutionLog → Map ℕ MemJobExecution → ℕ → Option ℕ
version_of logs mems id = elim (lookup id logs) [
  | none ↦ some 1
  | some log ↦ logged_version log (lookup id mems)
]

-- The second loop: the first entry of a job id stays.
unfoldable pub collect_versions :
    Map ℕ JobExecutionLog → Map ℕ MemJobExecution → List Job → Map ℕ ℕ → Option (Map ℕ ℕ)
unfolding version_of
collect_versions logs mems [] vs = some vs
collect_versions logs mems (job ∷ jobs) vs = elim (lookup job.id vs) [
  | some v ↦ collect_versions logs mems jobs vs
  | none ↦
      and_then (version_of logs mems job.id)
        λ v. collect_versions logs mems jobs (store job.id v vs)
]

abbrev pub job_ids : List Job → List ℕ
job_ids jobs = map (λ (j : Job). j.id) jobs

unfoldable pub schedule_jobs : Context → List Job → JobExecutor → Option JobExecutor
unfolding schedule_all collect_versions
schedule_jobs c [] e = some e
schedule_jobs c (job ∷ jobs) e =
    let logs = c.last_logs (job_ids (job ∷ jobs)) in
    and_then (schedule_all c logs (job ∷ jobs) e) λ r.
      and_then (collect_versions logs r.1.job_executions_cache r.0 [])
        λ vs. some (write_logs c r.0 execution_log_schedule_state vs r.1)
