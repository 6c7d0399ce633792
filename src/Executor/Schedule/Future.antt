-- ===== src/Executor/Schedule/Future.antt =====
-- ScheduleJobs as a whole.
use scheduler.Base.{
  ℕ, ◌≤◌, ◌≡◌, refl, sym, ap₂, subst, inl, inr, true, List, [], ◌∷◌, Option, some, arith, nat_beq,
  comparable_uint, Bool-cases, Option-cases, All, All-mono,
}
use scheduler.Base.Maps.{Map, lookup, store}
use scheduler.Models.{Job, JobExecutionLog, MemJobExecution, execution_log_schedule_state}
use scheduler.NextRun.{World}
use scheduler.NextRun.First.{IsTimed}
use scheduler.Executor.{JobExecutor, Context, write_logs}
use scheduler.Executor.Schedule.{
  schedule_logged, schedule_one, schedule_all, schedule_jobs, next_version, version_of,
  collect_versions, job_ids,
}
use scheduler.Executor.Schedule.Rounds.{
  IsReady, Rounds, schedule_first-Rounds, schedule_again-Rounds, schedule_next-Rounds,
}
use scheduler.Executor.Schedule.Retries.{schedule_failed-schedule_next}

-- The states that the code knows: scheduled, succeeded, failed.
abbrev pub HasKnownState : Map ℕ JobExecutionLog → Job → Type 0
HasKnownState logs job = (log : JobExecutionLog) → lookup job.id logs ≡ some log → log.state ≤ 2

schedule_logged-Rounds :
    (c : Context) (job : Job) (log : JobExecutionLog) (e : JobExecutor)
    → IsTimed c.world job
    → log.state ≤ 2
    → Rounds c.world job e (schedule_logged c job log e)
unfolding schedule_logged
schedule_logged-Rounds c job log e timed known = elim (Bool-cases (nat_beq log.state 0)) [
  | inl s ↦ rw s (schedule_again-Rounds c.world job log e timed)
  | inr s ↦ elim (Bool-cases (nat_beq log.state 1)) [
    | inl t ↦ rw (s, t) (schedule_next-Rounds c.world job log 1 e timed)
    | inr t ↦
        let u : nat_beq log.state 2 ≡ true = ground (arith, s, t, known) in
        rw (s, t, u, schedule_failed-schedule_next c job log e timed)
          (schedule_next-Rounds c.world job log 2 e timed)
  ]
]

schedule_one-Rounds :
    (c : Context) (logs : Map ℕ JobExecutionLog) (job : Job) (e : JobExecutor)
    → IsTimed c.world job
    → HasKnownState logs job
    → Rounds c.world job e (schedule_one c logs job e)
unfolding schedule_one
schedule_one-Rounds c logs job e timed known = elim (Option-cases (lookup job.id logs)) [
  | inl new ↦ rw (new, schedule_one) (schedule_first-Rounds c.world job e timed)
  | inr (log, old) ↦
      rw (old, schedule_one) (schedule_logged-Rounds c job log e timed (known log old))
]

-- All jobs of the list are ready, those that were ready still are, and the ids are the same.
abbrev Schedules : World → List Job → JobExecutor → Option (List Job × JobExecutor) → Type 0
Schedules w jobs e r =
    (s : List Job × JobExecutor) × (r ≡ some s)
    × (job_ids s.0 ≡ job_ids jobs)
    × All (λ i. IsReady w i s.1) (job_ids jobs)
    × ((k : ℕ) → IsReady w k e → IsReady w k s.1)

schedule_all-Schedules :
    (c : Context) (logs : Map ℕ JobExecutionLog) (jobs : List Job) (e : JobExecutor)
    → All (IsTimed c.world) jobs
    → All (HasKnownState logs) jobs
    → Schedules c.world jobs e (schedule_all c logs jobs e)
unfolding schedule_all
schedule_all-Schedules c logs [] e timed known = (([], e), refl, refl, tt, λ k r. r)
schedule_all-Schedules c logs (job ∷ jobs) e timed known =
    let ((job', e'), one, same, ready) = schedule_one-Rounds c logs job e timed.0 known.0 in
    let ((jobs', e''), all, ids, readies, keeps) =
      schedule_all-Schedules c logs jobs e' timed.1 known.1 in
    (
      (job' ∷ jobs', e''),
      rw (one, all),
      ap₂ ◌∷◌ same ids,
      (keeps job.id (ready job.id (inr refl)), readies),
      λ k r. keeps k (ready k (inl r)),
    )

abbrev IsCached : Map ℕ MemJobExecution → ℕ → Type 0
IsCached mems i = (mem : MemJobExecution) × (lookup i mems ≡ some mem)

version_of_total :
    (logs : Map ℕ JobExecutionLog) (mems : Map ℕ MemJobExecution) (i : ℕ)
    → IsCached mems i
    → (v : ℕ) × (version_of logs mems i ≡ some v)
unfolding version_of
version_of_total logs mems i (mem, e) = elim (Option-cases (lookup i logs)) [
  | inl new ↦ (1, rw (new, version_of))
  | inr (log, old) ↦ (next_version log mem, rw (old, version_of) (rw e))
]

collect_versions_total :
    (logs : Map ℕ JobExecutionLog) (mems : Map ℕ MemJobExecution) (jobs : List Job) (vs : Map ℕ ℕ)
    → All (IsCached mems) (job_ids jobs)
    → (vs' : Map ℕ ℕ) × (collect_versions logs mems jobs vs ≡ some vs')
unfolding collect_versions
collect_versions_total logs mems [] vs all = (vs, refl)
collect_versions_total logs mems (job ∷ jobs) vs all = elim (Option-cases (lookup job.id vs)) [
  | inr (v, old) ↦
      let (vs', e) = collect_versions_total logs mems jobs vs all.1 in
      (vs', rw (old, collect_versions) e)
  | inl new ↦
      let (v, version) = version_of_total logs mems job.id all.0 in
      let (vs', e) = collect_versions_total logs mems jobs (store job.id v vs) all.1 in
      (vs', rw (new, collect_versions) (rw version e))
]

pub write_logs-IsReady :
    (c : Context) (jobs : List Job) (state : ℕ) (vs : Map ℕ ℕ) (e : JobExecutor) (w : World) (k : ℕ)
    → IsReady w k e
    → IsReady w k (write_logs c jobs state vs e)
write_logs-IsReady c jobs state vs e w k r = elim (Bool-cases e.single_node_mode) [
  | inl single ↦ rw single (record {
    schedule = r.schedule;
    mem = r.mem;
    scheduled = r.scheduled;
    cached = r.cached;
    own = r.own;
    agrees = r.agrees;
    future = r.future;
  })
  | inr many ↦ rw many (record {
    schedule = r.schedule;
    mem = r.mem;
    scheduled = r.scheduled;
    cached = r.cached;
    own = r.own;
    agrees = r.agrees;
    future = r.future;
  })
]

-- For jobs whose specs parse and whose zones exist, and whose last logs, if any, are in one of the
-- three states: ScheduleJobs does not panic; afterwards every job of the list is scheduled, at a
-- time that is not in the past and is the one that its cached execution states; and every job that
-- was so scheduled before still is.
pub schedule_jobs-IsReady :
    (c : Context) (jobs : List Job) (e : JobExecutor)
    → All (IsTimed c.world) jobs
    → All (HasKnownState (c.last_logs (job_ids jobs))) jobs
    → (e' : JobExecutor) × (schedule_jobs c jobs e ≡ some e')
      × All (λ i. IsReady c.world i e') (job_ids jobs)
      × ((k : ℕ) → IsReady c.world k e → IsReady c.world k e')
unfolding schedule_jobs
schedule_jobs-IsReady c [] e timed known = (e, refl, tt, λ k r. r)
schedule_jobs-IsReady c (job ∷ jobs) e timed known =
    let logs = c.last_logs (job_ids (job ∷ jobs)) in
    let (s, all, ids, readies, keeps) = schedule_all-Schedules c logs (job ∷ jobs) e timed known in
    let ready_ids : All (λ i. IsReady c.world i s.1) (job_ids s.0) =
      subst (All (λ i. IsReady c.world i s.1)) (sym ids) readies in
    let (vs, versions) = collect_versions_total logs s.1.job_executions_cache s.0 [] (
      All-mono (λ i. IsReady c.world i s.1) (IsCached s.1.job_executions_cache) (job_ids s.0)
        (λ i r. (r.mem, r.cached)) ready_ids) in
    (
      write_logs c s.0 execution_log_schedule_state vs s.1,
      rw (all, versions),
      All-mono (λ i. IsReady c.world i s.1) _ (job_ids (job ∷ jobs))
          (λ i r. write_logs-IsReady c s.0 0 vs s.1 c.world i r) readies,
      λ k r. write_logs-IsReady c s.0 0 vs s.1 c.world k (keeps k r),
    )
