-- ===== src/Executor/Results/Totals.antt =====
-- The handlers of results do not panic: each job that they look up is in the cache.
use scheduler.Base.{
  ℕ, ◌≡◌, refl, ◌∙◌, ap, inl, inr, Bool, List, [], ◌∷◌, Option, none, some, arith, ◌==◌,
  comparable_uint, Bool-cases, Option-cases, All, All-mono,
}
use scheduler.Base.Maps.{Map, lookup, store, lookup-store, lookup-store_self}
use scheduler.Models.{Job, JobExecutionLog, MemJobExecution}
use scheduler.NextRun.{get_next_execution_time, get_next_execution_id}
use scheduler.Executor.{JobExecutor, Context, add_job_schedule, write_logs}
use scheduler.Executor.Schedule.{with_last, with_id}
use scheduler.Executor.Results.{
  jobs_not_in_execution, mem_of_log, store_mems, create_in_mem_executions, cached_versions,
  reschedule_cached, rescheduled, reschedule_all, counts_failure, cons_some,
}

-- The cache has an entry for the id.
abbrev pub IsCached : JobExecutor → ℕ → Type 0
IsCached e i = (mem : MemJobExecution) × (lookup i e.job_executions_cache ≡ some mem)

pub store-IsCached :
    (i k : ℕ) (mem : MemJobExecution) (m : Map ℕ MemJobExecution)
    → (x : MemJobExecution) × (lookup i m ≡ some x)
    → (x : MemJobExecution) × (lookup i (store k mem m) ≡ some x)
store-IsCached i k mem m (x, h) = elim (Bool-cases (k == i)) [
  | inl e ↦ (mem, lookup-store k i mem m ∙ rw e)
  | inr e ↦ (x, lookup-store k i mem m ∙ rw e h)
]

store_mems-IsCached :
    (c : Context) (logs : Map ℕ JobExecutionLog) (ids : List ℕ) (e : JobExecutor) (i : ℕ)
    → IsCached e i
    → IsCached (store_mems c logs ids e) i
unfolding store_mems
store_mems-IsCached c logs [] e i h = h
store_mems-IsCached c logs (id ∷ ids) e i h =
    store_mems-IsCached c logs ids _ i
      (store-IsCached i id (mem_of_log c id (lookup id logs)) e.job_executions_cache h)

store_mems-All :
    (c : Context) (logs : Map ℕ JobExecutionLog) (ids : List ℕ) (e : JobExecutor)
    → All (IsCached (store_mems c logs ids e)) ids
unfolding store_mems
store_mems-All c logs [] e = tt
store_mems-All c logs (id ∷ ids) e = (
  store_mems-IsCached c logs ids _ id
      (mem_of_log c id (lookup id logs), lookup-store_self id _ e.job_executions_cache),
  store_mems-All c logs ids _,
)

-- Each job is cached, or is listed to be.
All-covered :
    (e e' : JobExecutor) (jobs : List Job)
    → ((i : ℕ) → IsCached e i → IsCached e' i)
    → All (IsCached e') (jobs_not_in_execution e.job_executions_cache jobs)
    → All (λ j. IsCached e' j.id) jobs
unfolding jobs_not_in_execution
All-covered e e' [] keep all = tt
All-covered e e' (job ∷ jobs) keep all =
    elim (Option-cases (lookup job.id e.job_executions_cache)) [
      | inl new ↦
          let all' : All (IsCached e')
              (job.id ∷ jobs_not_in_execution e.job_executions_cache jobs) =
            rw new at all in
          (all'.0, All-covered e e' jobs keep all'.1)
      | inr (mem, old) ↦
          let all' : All (IsCached e') (jobs_not_in_execution e.job_executions_cache jobs) =
            rw old at all in
          (keep job.id (mem, old), All-covered e e' jobs keep all')
    ]

pub create_in_mem-IsCached :
    (c : Context) (jobs : List Job) (e : JobExecutor)
    → All (λ j. IsCached (create_in_mem_executions c jobs e) j.id) jobs
unfolding create_in_mem_executions
create_in_mem-IsCached c jobs e =
    let ids = jobs_not_in_execution e.job_executions_cache jobs in
    All-covered e (store_mems c (c.last_logs ids) ids e) jobs
      (λ i h. store_mems-IsCached c (c.last_logs ids) ids e i h)
      (store_mems-All c (c.last_logs ids) ids e)

pub cached_versions_total :
    (keep : Bool) (e : JobExecutor) (jobs : List Job) (vs : Map ℕ ℕ)
    → All (λ j. IsCached e j.id) jobs
    → (vs' : Map ℕ ℕ) × (cached_versions keep e.job_executions_cache jobs vs ≡ some vs')
unfolding cached_versions
cached_versions_total keep e [] vs all = (vs, refl)
cached_versions_total keep e (job ∷ jobs) vs ((mem, h), all) =
    rw (h, cached_versions) (cached_versions_total keep e jobs _ all)

pub add_job_schedule-cache :
    (c : Context) (job : Job) (e : JobExecutor)
    → (add_job_schedule c.world job e).job_executions_cache ≡ e.job_executions_cache
unfolding add_job_schedule
add_job_schedule-cache c job e = elim (Option-cases (get_next_execution_time c.world job)) [
  | inl t ↦ rw t
  | inr (n, t) ↦ rw t
]

rescheduled-IsCached :
    (c : Context) (state : ℕ) (job' : Job) (mem : MemJobExecution) (t : Option ℕ) (e : JobExecutor)
    (i : ℕ)
    → IsCached e i
    → IsCached (rescheduled c state job' mem t e).1 i
rescheduled-IsCached c state job' mem none e i h = h
rescheduled-IsCached c state job' mem (some n) e i h = store-IsCached i job'.id _ _ (
  h.0,
  ap (lookup i) (add_job_schedule-cache c (with_id (get_next_execution_id c.world job') job') e)
      ∙ h.1,
)

pub reschedule_cached-IsCached :
    (c : Context) (state : ℕ) (job : Job) (mem : MemJobExecution) (e : JobExecutor) (i : ℕ)
    → IsCached e i
    → IsCached (reschedule_cached c state job mem e).1 i
unfolding reschedule_cached
reschedule_cached-IsCached c state job mem e i h = elim (Bool-cases (counts_failure c state mem)) [
  | inl f ↦ rw f (store-IsCached i job.id _ e.job_executions_cache h)
  | inr f ↦
      rw f (rescheduled-IsCached c state (with_last mem.next_execution_datetime job) mem _ e i h)
]

-- The jobs that one round gives back have the id of its job.
abbrev HasId : ℕ → Option Job → Type 0
HasId i none = Unit
HasId i (some j) = j.id ≡ i

rescheduled-HasId :
    (c : Context) (state : ℕ) (job' : Job) (mem : MemJobExecution) (t : Option ℕ) (e : JobExecutor)
    → HasId job'.id (rescheduled c state job' mem t e).0
rescheduled-HasId c state job' mem none e = tt
rescheduled-HasId c state job' mem (some n) e = refl

reschedule_cached-HasId :
    (c : Context) (state : ℕ) (job : Job) (mem : MemJobExecution) (e : JobExecutor)
    → HasId job.id (reschedule_cached c state job mem e).0
unfolding reschedule_cached
reschedule_cached-HasId c state job mem e = elim (Bool-cases (counts_failure c state mem)) [
  | inl f ↦ rw f tt
  | inr f ↦ rw f (rescheduled-HasId c state (with_last mem.next_execution_datetime job) mem _ e)
]

All-cons_some :
    (e : JobExecutor) (i : ℕ) (o : Option Job) (js : List Job)
    → HasId i o
    → IsCached e i
    → All (λ j. IsCached e j.id) js
    → All (λ j. IsCached e j.id) (cons_some o js)
All-cons_some e i none js h k all = all
All-cons_some e i (some j) js h k all = (rw h k, all)

-- The first loop does not panic, and what it gives back is cached.
abbrev pub Reschedules : JobExecutor → Option (List Job × JobExecutor) → Type 0
Reschedules e r =
    (s : List Job × JobExecutor) × (r ≡ some s)
    × All (λ j. IsCached s.1 j.id) s.0
    × ((i : ℕ) → IsCached e i → IsCached s.1 i)

pub reschedule_all-Reschedules :
    (c : Context) (state : ℕ) (jobs : List Job) (e : JobExecutor)
    → All (λ j. IsCached e j.id) jobs
    → Reschedules e (reschedule_all c state jobs e)
unfolding reschedule_all
reschedule_all-Reschedules c state [] e all = (([], e), refl, tt, λ i h. h)
reschedule_all-Reschedules c state (job ∷ jobs) e ((mem, h), all) =
    let r = reschedule_cached c state job mem e in
    let (s, eq, cached, keep) = reschedule_all-Reschedules c state jobs r.1 (
      All-mono (λ j. IsCached e j.id) (λ j. IsCached r.1 j.id) jobs
        (λ j k. reschedule_cached-IsCached c state job mem e j.id k) all) in
    (
      (cons_some r.0 s.0, s.1),
      rw (h, reschedule_all) (rw eq),
      All-cons_some s.1 job.id r.0 s.0 (reschedule_cached-HasId c state job mem e)
          (keep job.id (reschedule_cached-IsCached c state job mem e job.id (mem, h))) cached,
      λ i k. keep i (reschedule_cached-IsCached c state job mem e i k),
    )

pub write_logs-cache :
    (c : Context) (jobs : List Job) (state : ℕ) (vs : Map ℕ ℕ) (e : JobExecutor)
    → (write_logs c jobs state vs e).job_executions_cache ≡ e.job_executions_cache
write_logs-cache c jobs state vs e = ground arith
