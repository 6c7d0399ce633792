-- ===== src/Executor/Results/Failure.antt =====
-- What a failed run leaves, as long as its retries are not used up.
use scheduler.Base.{
  ℕ, suc, ◌+◌, ◌^◌, ◌≤◌, ◌<◌, ◌≡◌, refl, sym, ◌∙◌, ap, inl, inr, true, false, List, [], ◌∷◌, Option,
  some, arith, comparable_uint, All, All-mono, length, Bool-cases, ◌==◌,
}
use scheduler.Base.Maps.{Map, lookup, lookup-store}
use scheduler.Models.{Job, MemJobExecution, execution_log_failed_state}
use scheduler.Executor.{JobExecutor, Context, cache, write_logs}
use scheduler.Executor.Results.{
  jobs_not_in_execution, create_in_mem_executions, cached_versions, reschedule_cached,
  reschedule_all, reschedule, handle_jobs, handle_failed_jobs, one_more_failure, counts_failure,
}
use scheduler.Executor.Results.Totals.{
  IsCached, store-IsCached, cached_versions_total, write_logs-cache,
}

-- Every cached job has `n` retries left.
abbrev pub HasRetries : Context → ℕ → JobExecutor → Type 0
HasRetries c n e =
    (i : ℕ) (mem : MemJobExecution)
    → lookup i e.job_executions_cache ≡ some mem
    → mem.fail_count + n ≤ c.job_execution_retry_max

none_missing :
    (e : JobExecutor) (jobs : List Job)
    → All (λ j. IsCached e j.id) jobs
    → jobs_not_in_execution e.job_executions_cache jobs ≡ []
unfolding jobs_not_in_execution
none_missing e [] all = refl
none_missing e (job ∷ jobs) ((mem, h), all) = rw h (none_missing e jobs all)

create_in_mem-same :
    (c : Context) (jobs : List Job) (e : JobExecutor)
    → All (λ j. IsCached e j.id) jobs
    → create_in_mem_executions c jobs e ≡ e
unfolding create_in_mem_executions
create_in_mem-same c jobs e all = rw (none_missing e jobs all)

count_failure-HasRetries :
    (c : Context) (n id : ℕ) (mem : MemJobExecution) (e : JobExecutor)
    → c.job_execution_retry_max < 2 ^ 64
    → lookup id e.job_executions_cache ≡ some mem
    → HasRetries c (suc n) e
    → HasRetries c n (cache id (one_more_failure 2 mem) e)
count_failure-HasRetries c n id mem e small h low i mem' h' = elim (Bool-cases (id == i)) [
  | inl s ↦
      let new : one_more_failure 2 mem ≡ mem' =
        ground (arith, s, lookup-store id i (one_more_failure 2 mem) e.job_executions_cache) in
      rw (← new) (omega (arith, low id mem h))
  | inr o ↦
      let old : lookup i e.job_executions_cache ≡ some mem' =
        ground (arith, o, lookup-store id i (one_more_failure 2 mem) e.job_executions_cache) in
      omega (arith, low i mem' old)
]

-- The loop only counts the failures: no job is scheduled, none is given back.
abbrev OnlyCounts : JobExecutor → Option (List Job × JobExecutor) → Type 0
OnlyCounts e r =
    (e' : JobExecutor) × (r ≡ some ([], e'))
    × (e'.scheduled_jobs ≡ e.scheduled_jobs)
    × (e'.writes ≡ e.writes)

reschedule_all-OnlyCounts :
    (c : Context) (jobs : List Job) (e : JobExecutor)
    → c.job_execution_retry_max < 2 ^ 64
    → All (λ j. IsCached e j.id) jobs
    → HasRetries c (length jobs) e
    → OnlyCounts e (reschedule_all c execution_log_failed_state jobs e)
unfolding reschedule_all reschedule_cached
reschedule_all-OnlyCounts c [] e small all low = (e, refl, refl, refl)
reschedule_all-OnlyCounts c (job ∷ jobs) e small ((mem, h), all) low =
    let counted : counts_failure c 2 mem ≡ true = ground (arith, low job.id mem) in
    let e1 = cache job.id (one_more_failure 2 mem) e in
    let (e', eq, same, writes) =
      reschedule_all-OnlyCounts c jobs e1 small
        (All-mono (λ j. IsCached e j.id) (λ j. IsCached e1 j.id) jobs
          (λ j k. store-IsCached j.id job.id _ e.job_executions_cache k) all)
        (count_failure-HasRetries c (length jobs) job.id mem e small h low) in
    (e', rw (h, reschedule_all) (rw (counted, reschedule_cached) (rw eq)), same, writes)

write_logs-schedule :
    (c : Context) (jobs : List Job) (state : ℕ) (vs : Map ℕ ℕ) (e : JobExecutor)
    → (write_logs c jobs state vs e).scheduled_jobs ≡ e.scheduled_jobs
write_logs-schedule c jobs state vs e = ground arith

-- While a failed job has retries left, nothing schedules the retry: if all jobs given to
-- handleFailedJobs are cached, and every cached job has at least as many retries left as jobs are
-- given (with a maximum that is a uint64), then the handler returns, and the scheduled jobs are what
-- they were. So a job that was taken off the schedule to be run stays off it.
pub handle_failed_jobs-scheduled_jobs :
    (c : Context) (jobs : List Job) (e : JobExecutor)
    → c.job_execution_retry_max < 2 ^ 64
    → All (λ j. IsCached e j.id) jobs
    → HasRetries c (length jobs) e
    → (e' : JobExecutor) × (handle_failed_jobs c jobs e ≡ some e')
      × (e'.scheduled_jobs ≡ e.scheduled_jobs)
unfolding handle_failed_jobs handle_jobs reschedule cached_versions
handle_failed_jobs-scheduled_jobs c jobs e small all low =
    let same = create_in_mem-same c jobs e all in
    let (vs, versions) = cached_versions_total false e jobs [] all in
    let e2 = write_logs c jobs 2 vs e in
    let mems : e2.job_executions_cache ≡ e.job_executions_cache = write_logs-cache c jobs 2 vs e in
    let (e', loop, schedule, writes) =
      reschedule_all-OnlyCounts c jobs e2 small
        (All-mono (λ j. IsCached e j.id) (λ j. IsCached e2 j.id) jobs
          (λ j h. (h.0, ap (lookup j.id) mems ∙ h.1)) all)
        (λ i mem h. low i mem (ap (lookup i) (sym mems) ∙ h)) in
    (
      write_logs c [] 0 [] e',
      rw (same, versions) (rw loop),
      write_logs-schedule c [] 0 [] e' ∙ schedule ∙ write_logs-schedule c jobs 2 vs e,
    )
