-- ===== src/Executor/Schedule/Rounds.antt =====
-- One round of ScheduleJobs: what it leaves for a job whose spec parses and whose zone exists.
use scheduler.Base.{
  ℕ, ◌≤◌, ◌≡◌, ◌≢◌, refl, ◌∙◌, ◌⊎◌, inl, inr, String, Option, some, arith, ◌==◌, comparable_uint,
  Bool-cases,
}
use scheduler.Base.Maps.{lookup, lookup-store_self, lookup-store_ne}
use scheduler.Models.{Job, JobExecutionLog, MemJobExecution, JobSchedule}
use scheduler.NextRun.{World, get_next_execution_time, convert_time_to_job_timezone}
use scheduler.NextRun.First.{IsTimed, get_next_execution_time-IsTimed}
use scheduler.Executor.{JobExecutor, add_job_schedule}
use scheduler.Executor.Schedule.{
  with_last, with_id, schedule_with, mem_execution, schedule_first, schedule_again, schedule_next,
}

-- The job `id` is scheduled, not in the past, and the cached execution says when.
pub record IsReady (w : World) (id : ℕ) (e : JobExecutor) : Type 0 where
  pub schedule : JobSchedule
  pub mem : MemJobExecution
  pub scheduled : lookup id e.scheduled_jobs ≡ some schedule
  pub cached : lookup id e.job_executions_cache ≡ some mem
  pub own : schedule.job.id ≡ id
  pub agrees : schedule.execution_time ≡ mem.next_execution_datetime
  pub future : w.now ≤ schedule.execution_time

time_with_id :
    (w : World) (id : String) (job : Job)
    → get_next_execution_time w (with_id id job) ≡ get_next_execution_time w job
unfolding get_next_execution_time
time_with_id w id job = refl

schedule_with-IsReady_self :
    (w : World) (job : Job) (id : String) (mem : MemJobExecution) (e : JobExecutor)
    → get_next_execution_time w job ≡ some mem.next_execution_datetime
    → w.now ≤ mem.next_execution_datetime
    → IsReady w job.id (schedule_with w job id mem e).1
unfolding add_job_schedule
schedule_with-IsReady_self w job id mem e timed le =
    let t : get_next_execution_time w (with_id id job) ≡ some mem.next_execution_datetime =
      time_with_id w id job ∙ timed in
    rw t (record {
      schedule = record { job = with_id id job; execution_time = mem.next_execution_datetime };
      mem = mem;
      scheduled = lookup-store_self job.id _ e.scheduled_jobs;
      cached = lookup-store_self job.id mem e.job_executions_cache;
      own = refl;
      agrees = refl;
      future = le;
    })

schedule_with-IsReady_other :
    (w : World) (k : ℕ) (job : Job) (id : String) (mem : MemJobExecution) (e : JobExecutor)
    → job.id ≢ k
    → get_next_execution_time w job ≡ some mem.next_execution_datetime
    → IsReady w k e
    → IsReady w k (schedule_with w job id mem e).1
unfolding add_job_schedule
schedule_with-IsReady_other w k job id mem e other timed r =
    let t : get_next_execution_time w (with_id id job) ≡ some mem.next_execution_datetime =
      time_with_id w id job ∙ timed in
    rw t (record {
      schedule = r.schedule;
      mem = r.mem;
      scheduled = lookup-store_ne job.id k _ e.scheduled_jobs other ∙ r.scheduled;
      cached = lookup-store_ne job.id k mem e.job_executions_cache other ∙ r.cached;
      own = r.own;
      agrees = r.agrees;
      future = r.future;
    })

-- The step makes the job `id` ready and leaves every job ready that was.
abbrev pub Readies : World → ℕ → JobExecutor → JobExecutor → Type 0
Readies w id e e' = (k : ℕ) → IsReady w k e ⊎ (k ≡ id) → IsReady w k e'

pub schedule_with-Readies :
    (w : World) (job : Job) (id : String) (mem : MemJobExecution) (e : JobExecutor)
    → get_next_execution_time w job ≡ some mem.next_execution_datetime
    → w.now ≤ mem.next_execution_datetime
    → Readies w job.id e (schedule_with w job id mem e).1
schedule_with-Readies w job id mem e timed le k (inr same) =
    rw same (schedule_with-IsReady_self w job id mem e timed le)
schedule_with-Readies w job id mem e timed le k (inl r) = elim (Bool-cases (job.id == k)) [
  | inl same ↦
      rw (← (let s : job.id ≡ k = ground (arith, same) in s))
        (schedule_with-IsReady_self w job id mem e timed le)
  | inr other ↦ schedule_with-IsReady_other w k job id mem e (λ s. ground (arith, other)) timed r
]

-- What a round must give: it does not panic, keeps the job's id, and makes the job ready.
abbrev pub Rounds : World → Job → JobExecutor → Option (Job × JobExecutor) → Type 0
Rounds w job e r =
    (s : Job × JobExecutor) × (r ≡ some s) × (s.0.id ≡ job.id) × Readies w job.id e s.1

pub schedule_first-Rounds :
    (w : World) (job : Job) (e : JobExecutor)
    → IsTimed w job
    → Rounds w job e (some (schedule_first w job e))
unfolding schedule_first convert_time_to_job_timezone
schedule_first-Rounds w job e timed =
    let job' = with_last job.date_created job in
    let (next, t, le) = get_next_execution_time-IsTimed w job' timed in
    rw (timed.2, t)
      (
        _,
        refl,
        refl,
        schedule_with-Readies w job' _ (mem_execution 1 0 0 job.date_created next) e t le,
      )

pub schedule_again-Rounds :
    (w : World) (job : Job) (log : JobExecutionLog) (e : JobExecutor)
    → IsTimed w job
    → Rounds w job e (schedule_again w job log e)
unfolding schedule_again
schedule_again-Rounds w job log e timed =
    let job' = with_last log.last_execution_datetime job in
    let (next, t, le) = get_next_execution_time-IsTimed w job' timed in
    rw t (
      _,
      refl,
      refl,
      schedule_with-Readies w job' _
          (mem_execution log.execution_version 0 0 job.last_execution_date next) e t le,
    )

pub schedule_next-Rounds :
    (w : World) (job : Job) (log : JobExecutionLog) (state : ℕ) (e : JobExecutor)
    → IsTimed w job
    → Rounds w job e (some (schedule_next w job log state e))
unfolding schedule_next
schedule_next-Rounds w job log state e timed =
    let job' = with_last log.next_execution_datetime job in
    let (next, t, le) = get_next_execution_time-IsTimed w job' timed in
    rw t (
      _,
      refl,
      refl,
      schedule_with-Readies w job' _
          (mem_execution log.execution_version 0 state log.next_execution_datetime next) e t le,
    )
