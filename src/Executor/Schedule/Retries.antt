-- ===== src/Executor/Schedule/Retries.antt =====
-- What becomes of the retry of a failed job in ScheduleJobs.
use scheduler.Base.{ℕ, ◌≡◌, refl, ◌∙◌, String, some, ltb, comparable_uint, Bool-cases, inl, inr}
use scheduler.Base.Maps.{store-store}
use scheduler.Models.{Job, JobExecutionLog, MemJobExecution, execution_log_failed_state}
use scheduler.NextRun.{World, get_next_execution_time, get_next_execution_id}
use scheduler.NextRun.First.{IsTimed, get_next_execution_time-IsTimed}
use scheduler.Executor.{JobExecutor, Context, add_job_schedule, cache}
use scheduler.Executor.Schedule.{
  with_last, with_id, schedule_with, mem_execution, schedule_next, schedule_retry, schedule_failed,
}

-- The times and ids of a job do not depend on the id that it has.
time_with_id :
    (w : World) (t : ℕ) (id : String) (job : Job)
    → get_next_execution_time w (with_last t (with_id id job))
      ≡ get_next_execution_time w (with_last t job)
unfolding get_next_execution_time
time_with_id w t id job = refl

id_with_id :
    (w : World) (t : ℕ) (id : String) (job : Job)
    → get_next_execution_id w (with_last t (with_id id job))
      ≡ get_next_execution_id w (with_last t job)
unfolding get_next_execution_id
id_with_id w t id job = refl

-- Scheduling a job again replaces what a first call left.
schedule_with_twice :
    (w : World) (job job' : Job) (id id' : String) (mem mem' : MemJobExecution) (n n' : ℕ)
    (e : JobExecutor)
    → job.id ≡ job'.id
    → get_next_execution_time w (with_id id job) ≡ some n
    → get_next_execution_time w (with_id id' job') ≡ some n'
    → schedule_with w job' id' mem' (add_job_schedule w (with_id id job) (cache job.id mem e))
      ≡ schedule_with w job' id' mem' e
unfolding add_job_schedule
schedule_with_twice w job job' id id' mem mem' n n' e same t t' =
    rw (t, t', same) (simp store-store)

-- The next regular run of a job that a retry has marked and scheduled.
schedule_next_after_retry :
    (w : World) (job : Job) (log : JobExecutionLog) (id : String) (state : ℕ)
    (mem : MemJobExecution) (e : JobExecutor)
    → IsTimed w job
    → schedule_next w (with_id id (with_last log.last_execution_datetime job)) log state (
        add_job_schedule w
          (with_id id (with_last log.last_execution_datetime job))
          (cache job.id mem e))
      ≡ schedule_next w job log state e
unfolding schedule_next
schedule_next_after_retry w job log id state mem e timed =
    let retried = with_last log.last_execution_datetime job in
    let regular = with_last log.next_execution_datetime job in
    let (n, t, a) = get_next_execution_time-IsTimed w retried timed in
    let (n', t', b) = get_next_execution_time-IsTimed w regular timed in
    rw
      (
        time_with_id w log.next_execution_datetime id job,
        t',
        id_with_id w log.next_execution_datetime id job,
      )
      (schedule_with_twice w retried regular id (get_next_execution_id w regular) mem
        (mem_execution log.execution_version 0 state log.next_execution_datetime n') n n' e refl
        (time_with_id w log.last_execution_datetime id job ∙ t)
        (time_with_id w log.next_execution_datetime (get_next_execution_id w regular) job ∙ t'))

-- For a job that can be timed, a log that says "failed" has one effect, whatever the number of
-- failures and the maximum of retries are: the job is scheduled for the next regular time, and its
-- failure count is cached as 0. The retry that was scheduled before is overwritten.
pub schedule_failed-schedule_next :
    (c : Context) (job : Job) (log : JobExecutionLog) (e : JobExecutor)
    → IsTimed c.world job
    → schedule_failed c job log e ≡ schedule_next c.world job log execution_log_failed_state e
unfolding schedule_failed
schedule_failed-schedule_next c job log e timed =
    elim (Bool-cases (
      ltb (c.count_last_failed job.id c.node_id log.execution_version) c.job_execution_retry_max)) [
        | inl retry ↦
            rw (retry, schedule_retry) (schedule_next_after_retry c.world job log _ _ _ e timed)
        | inr stop ↦ rw (stop, schedule_retry)
      ]
