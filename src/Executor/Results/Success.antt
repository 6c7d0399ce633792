-- ===== src/Executor/Results/Success.antt =====
-- Jobs that succeeded are scheduled for their next run.
use scheduler.Base.{
  ℕ, ◌+◌, ◌%◌, ◌^◌, ◌≡◌, refl, sym, ◌∙◌, ap, subst, inl, inr, true, false, List, [], ◌∷◌, some,
  comparable_uint, All, All-mono,
}
use scheduler.Base.Maps.{lookup}
use scheduler.Models.{Job, MemJobExecution, execution_log_success_state}
use scheduler.NextRun.{get_next_execution_id}
use scheduler.NextRun.First.{IsTimed, get_next_execution_time-IsTimed}
use scheduler.Executor.{JobExecutor, Context, write_logs}
use scheduler.Executor.Schedule.{with_last, mem_execution, job_ids}
use scheduler.Executor.Schedule.Rounds.{IsReady, Readies, schedule_with-Readies}
use scheduler.Executor.Schedule.Future.{write_logs-IsReady}
use scheduler.Executor.Results.{
  create_in_mem_executions, reschedule_cached, reschedule_all, reschedule, handle_jobs,
  handle_success_jobs, cons_some,
}
use scheduler.Executor.Results.Totals.{
  IsCached, create_in_mem-IsCached, cached_versions_total, reschedule_all-Reschedules,
  write_logs-cache, reschedule_cached-IsCached,
}

reschedule_cached-Readies :
    (c : Context) (job : Job) (mem : MemJobExecution) (e : JobExecutor)
    → IsTimed c.world job
    → Readies c.world job.id e (reschedule_cached c execution_log_success_state job mem e).1
unfolding reschedule_cached
reschedule_cached-Readies c job mem e timed =
    let job' = with_last mem.next_execution_datetime job in
    let (next, t, le) = get_next_execution_time-IsTimed c.world job' timed in
    rw t (
      schedule_with-Readies c.world job' (get_next_execution_id c.world job')
        (mem_execution ((mem.execution_version + 1) % 2 ^ 64) 0 1 mem.next_execution_datetime next)
        e t le)

reschedule_all-Readies :
    (c : Context) (jobs : List Job) (e : JobExecutor) (s : List Job × JobExecutor)
    → All (IsTimed c.world) jobs
    → All (λ j. IsCached e j.id) jobs
    → reschedule_all c execution_log_success_state jobs e ≡ some s
    → All (λ i. IsReady c.world i s.1) (job_ids jobs)
      × ((k : ℕ) → IsReady c.world k e → IsReady c.world k s.1)
unfolding reschedule_all
reschedule_all-Readies c [] e s timed cached eq =
    let same : e ≡ s.1 = cc in (tt, λ k r. subst (IsReady c.world k) same r)
reschedule_all-Readies c (job ∷ jobs) e s timed ((mem, h), cached) eq =
    let r = reschedule_cached c 1 job mem e in
    let (s', eq', kept, keep) = reschedule_all-Reschedules c 1 jobs r.1 (
      All-mono (λ j. IsCached e j.id) (λ j. IsCached r.1 j.id) jobs
        (λ j k. reschedule_cached-IsCached c 1 job mem e j.id k) cached) in
    let (readies, keeps) =
      reschedule_all-Readies c jobs r.1 s' timed.1
        (All-mono (λ j. IsCached e j.id) (λ j. IsCached r.1 j.id) jobs
          (λ j k. reschedule_cached-IsCached c 1 job mem e j.id k) cached)
        eq' in
    let ready = reschedule_cached-Readies c job mem e timed.0 in
    let whole : some (cons_some r.0 s'.0, s'.1) ≡ some s =
      sym (rw (h, reschedule_all) (rw eq')) ∙ eq in
    let same : s'.1 ≡ s.1 = cc in
    subst
      (λ (x : JobExecutor).
        All (λ i. IsReady c.world i x) (job_ids (job ∷ jobs))
        × ((k : ℕ) → IsReady c.world k e → IsReady c.world k x))
      same ((keeps job.id (ready job.id (inr refl)), readies), λ k q. keeps k (ready k (inl q)))

-- handleSuccessJobs schedules every job for its next run: if the spec of each given job parses and
-- its zone exists, then the handler returns, also for jobs that are not in the cache, and
-- afterwards every given job is on the schedule, under its own id, for the time that its cached
-- execution states, which is not before now.
pub handle_success_jobs-IsReady :
    (c : Context) (jobs : List Job) (e : JobExecutor)
    → All (IsTimed c.world) jobs
    → (e' : JobExecutor) × (handle_success_jobs c jobs e ≡ some e')
      × All (λ i. IsReady c.world i e') (job_ids jobs)
unfolding handle_success_jobs handle_jobs reschedule
handle_success_jobs-IsReady c jobs e timed =
    let e1 = create_in_mem_executions c jobs e in
    let cached = create_in_mem-IsCached c jobs e in
    let (vs, versions) = cached_versions_total false e1 jobs [] cached in
    let e2 = write_logs c jobs 1 vs e1 in
    let cached' : All (λ j. IsCached e2 j.id) jobs =
      All-mono (λ j. IsCached e1 j.id) (λ j. IsCached e2 j.id) jobs
        (λ j h. (h.0, ap (lookup j.id) (write_logs-cache c jobs 1 vs e1) ∙ h.1)) cached in
    let (s, loop, kept, keep) = reschedule_all-Reschedules c 1 jobs e2 cached' in
    let (vs', versions') = cached_versions_total true s.1 s.0 [] kept in
    let (ready, keeps) = reschedule_all-Readies c jobs e2 s timed cached' loop in
    (
      write_logs c s.0 0 vs' s.1,
      rw versions (rw loop (rw versions')),
      All-mono (λ i. IsReady c.world i s.1) (λ i. IsReady c.world i (write_logs c s.0 0 vs' s.1))
          (job_ids jobs) (λ i h. write_logs-IsReady c s.0 0 vs' s.1 c.world i h) ready,
    )
