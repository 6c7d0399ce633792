-- ===== src/Processor/Recovery.antt =====
-- What RecoverJobs puts on the schedule.
use scheduler.Base.{
  and_then, ℕ, ◌+◌, ◌-◌, ◌≤◌, ◌≡◌, refl, sym, ◌∙◌, ap, subst, inl, inr, Bool, true, false, not,
  ◌&&◌, List, [], ◌∷◌, ◌++◌, Option, none, some, ltb, nat_beq, if◌then◌else◌, comparable_uint, All,
  All-append, All-mono, Bool-cases,
}
use scheduler.Base.Maps.{Map, lookup}
use scheduler.Models.{Job, JobExecutionLog, JobQueueLog}
use scheduler.NextRun.{Schedule}
use scheduler.NextRun.First.{IsTimed}
use scheduler.Executor.{JobExecutor, Context}
use scheduler.Executor.Schedule.{schedule_jobs, job_ids}
use scheduler.Executor.Schedule.Rounds.{IsReady}
use scheduler.Executor.Schedule.Future.{HasKnownState, schedule_jobs-IsReady}
use scheduler.Processor.{
  Recovered, collect, as_logged, recover_known, recover_logged, recover_loop, recover_fetched,
  recover_log, expand, zero_log,
}

-- The repository knows only the three states.
abbrev pub KnowsStates : Context → Type 0
KnowsStates c =
    (ids : List ℕ) (i : ℕ) (log : JobExecutionLog)
    → lookup i (c.last_logs ids) ≡ some log
    → log.state ≤ 2

-- The loop goes on, and what it has collected can be timed.
abbrev GoesOn : Context → Recovered → Type 0
GoesOn c r = (r.returned ≡ false) × All (IsTimed c.world) r.jobs_to_schedule

collect-GoesOn :
    (c : Context) (job : Job) (r : Recovered)
    → IsTimed c.world job
    → GoesOn c r
    → GoesOn c (collect job r)
collect-GoesOn c job r timed (on, all) =
    (on, All-append (IsTimed c.world) r.jobs_to_schedule (job ∷ []) (all, (timed, tt)))

recover_known-GoesOn :
    (c : Context) (version : ℕ) (job : Job) (log : JobExecutionLog) (r : Recovered)
    → IsTimed c.world job
    → GoesOn c r
    → GoesOn c (recover_known c version job log r)
recover_known-GoesOn c version job log r (s, parsed, located) on =
    elim (Bool-cases
      (not (nat_beq log.node_id c.node_id) && not (nat_beq log.job_queue_version version))) [
        | inl skip ↦ rw skip on
        | inr own ↦
            rw (own, parsed)
              (elim (Bool-cases (
                ltb c.world.now (s.next c.world.stored_zone log.last_execution_datetime)
                && nat_beq log.state 0)) [
                  | inl quick ↦ rw quick on
                  | inr slow ↦
                      rw slow (collect-GoesOn c (as_logged job log) r (s, parsed, located) on)
                ])
      ]

recover_logged-GoesOn :
    (c : Context) (version : ℕ) (job : Job) (log : Option JobExecutionLog) (r : Recovered)
    → IsTimed c.world job
    → GoesOn c r
    → GoesOn c (recover_logged c version job log r)
recover_logged-GoesOn c version job none r timed on =
    recover_known-GoesOn c version job zero_log (collect job r) timed
      (collect-GoesOn c job r timed on)
recover_logged-GoesOn c version job (some log) r timed on =
    recover_known-GoesOn c version job log r timed on

recover_loop-GoesOn :
    (c : Context) (version : ℕ) (logs : Map ℕ JobExecutionLog) (jobs : List Job) (r : Recovered)
    → All (IsTimed c.world) jobs
    → GoesOn c r
    → GoesOn c (recover_loop c version logs jobs r)
unfolding recover_loop
recover_loop-GoesOn c version logs [] r all on = on
recover_loop-GoesOn c version logs (job ∷ jobs) r all on =
    let r' = recover_logged c version job (lookup job.id logs) r in
    let on' = recover_logged-GoesOn c version job (lookup job.id logs) r all.0 on in
    subst (λ b. GoesOn c (if b then r' else recover_loop c version logs jobs r')) (sym on'.0)
      (recover_loop-GoesOn c version logs jobs r' all.1 on')

-- The job belongs to this node, by its last log, and is not one to be quickly recovered.
abbrev pub is_slow : Context → ℕ → JobExecutionLog → Option Schedule → Bool
is_slow c version log none = false
is_slow c version log (some s) =
    not (not (nat_beq log.node_id c.node_id) && not (nat_beq log.job_queue_version version))
    && not (
        ltb c.world.now (s.next c.world.stored_zone log.last_execution_datetime)
        && nat_beq log.state 0)

-- The job never ran, or is one of those.
abbrev pub is_new_or_slow : Context → ℕ → Job → Option JobExecutionLog → Bool
is_new_or_slow c version job none = true
is_new_or_slow c version job (some log) = is_slow c version log (c.world.parse job.spec)

-- Whatever holds of all collected ids holds of the earlier ones, and of the last.
All-collect :
    (P : ℕ → Type 0) (jobs : List Job) (job : Job)
    → All P (job_ids (jobs ++ job ∷ []))
    → All P (job_ids jobs) × P job.id
All-collect P [] job all = (tt, all.0)
All-collect P (j ∷ jobs) job all =
    let (rest, last) = All-collect P jobs job all.1 in ((all.0, rest), last)

recover_known-All :
    (P : ℕ → Type 0) (c : Context) (version : ℕ) (job : Job) (log : JobExecutionLog) (r : Recovered)
    → IsTimed c.world job
    → All P (job_ids (recover_known c version job log r).jobs_to_schedule)
    → All P (job_ids r.jobs_to_schedule)
      × (is_slow c version log (c.world.parse job.spec) ≡ true → P job.id)
recover_known-All P c version job log r (s, parsed, located) all =
    elim (Bool-cases
      (not (nat_beq log.node_id c.node_id) && not (nat_beq log.job_queue_version version))) [
        | inl skip ↦ (
          rw skip at all,
          λ slow. absurd (let wrong : false ≡ true = rw (parsed, skip) at slow in cc),
        )
        | inr own ↦
            let all' = rw (own, parsed) at all in
            elim (Bool-cases (
              ltb c.world.now (s.next c.world.stored_zone log.last_execution_datetime)
              && nat_beq log.state 0)) [
                | inl quick ↦ (
                  rw quick at all',
                  λ slow. absurd (let wrong : false ≡ true = rw (parsed, own, quick) at slow in cc),
                )
                | inr slow ↦
                    let (before, last) =
                      All-collect P r.jobs_to_schedule (as_logged job log) (rw slow at all') in
                    (before, λ h. last)
              ]
      ]

recover_logged-All :
    (P : ℕ → Type 0) (c : Context) (version : ℕ) (job : Job) (log : Option JobExecutionLog)
    (r : Recovered)
    → IsTimed c.world job
    → All P (job_ids (recover_logged c version job log r).jobs_to_schedule)
    → All P (job_ids r.jobs_to_schedule) × (is_new_or_slow c version job log ≡ true → P job.id)
recover_logged-All P c version job none r timed all =
    let (before, _) = recover_known-All P c version job zero_log (collect job r) timed all in
    let (earlier, last) = All-collect P r.jobs_to_schedule job before in (earlier, λ h. last)
recover_logged-All P c version job (some log) r timed all =
    recover_known-All P c version job log r timed all

recover_loop-All :
    (P : ℕ → Type 0) (c : Context) (version : ℕ) (logs : Map ℕ JobExecutionLog) (jobs : List Job)
    (r : Recovered)
    → All (IsTimed c.world) jobs
    → GoesOn c r
    → All P (job_ids (recover_loop c version logs jobs r).jobs_to_schedule)
    → All P (job_ids r.jobs_to_schedule)
      × All (λ j. is_new_or_slow c version j (lookup j.id logs) ≡ true → P j.id) jobs
unfolding recover_loop
recover_loop-All P c version logs [] r timed on all = (all, tt)
recover_loop-All P c version logs (job ∷ jobs) r timed on all =
    let r' = recover_logged c version job (lookup job.id logs) r in
    let on' = recover_logged-GoesOn c version job (lookup job.id logs) r timed.0 on in
    let all' =
      subst
        (λ b.
          All P (job_ids (if b then r' else recover_loop c version logs jobs r').jobs_to_schedule))
        on'.0 all in
    let (middle, later) = recover_loop-All P c version logs jobs r' timed.1 on' all' in
    let (before, here) = recover_logged-All P c version job (lookup job.id logs) r timed.0 middle in
    (before, (here, later))

abbrev pub ids_of : JobQueueLog → List ℕ
ids_of log = expand (log.upper_bound_job_id + 1 - log.lower_bound_job_id) log.lower_bound_job_id

-- RecoverJobs takes up the jobs of a range: if the database gives jobs whose specs parse and whose zones
-- exist, and the last logs are in one of the three states, then the round for the range does not panic,
-- RecoverJobs goes on to the next range, and each of these jobs that never ran, or that belongs to this
-- node by its last log and does not wait for a run in the future, is scheduled, at a time not in the past
-- and as its cached execution states.
pub recover_log-IsReady :
    (c : Context) (get : List ℕ → Option (List Job)) (log : JobQueueLog) (e : JobExecutor)
    (jobs : List Job)
    → KnowsStates c
    → get (ids_of log) ≡ some jobs
    → All (IsTimed c.world) jobs
    → (e' : JobExecutor) × (recover_log c get log e ≡ some (false, e'))
      × All
          (λ j.
            is_new_or_slow c log.version j (lookup j.id (c.last_logs (ids_of log))) ≡ true
            → IsReady c.world j.id e')
          jobs
unfolding recover_log
recover_log-IsReady c get log e jobs known answer timed =
    let logs = c.last_logs (ids_of log) in
    let start : Recovered = record { returned = false; jobs_to_schedule = []; executor = e } in
    let r = recover_loop c log.version logs jobs start in
    let on = recover_loop-GoesOn c log.version logs jobs start timed (refl, tt) in
    let (e', done, ready, keep) = schedule_jobs-IsReady c r.jobs_to_schedule r.executor on.1 (
      All-mono (IsTimed c.world) (HasKnownState (c.last_logs (job_ids r.jobs_to_schedule)))
        r.jobs_to_schedule (λ j t l h. known (job_ids r.jobs_to_schedule) j.id l h) on.1) in
    let (_, all) =
      recover_loop-All (λ i. IsReady c.world i e') c log.version logs jobs start timed (refl, tt)
        ready in
    (
      e',
      ap (λ j. recover_fetched c log logs j e) answer
          ∙ ap
              (λ b.
                if b
                then some (true, r.executor)
                else and_then (schedule_jobs c r.jobs_to_schedule r.executor) λ x. some (false, x))
              on.0
          ∙ ap (λ x. and_then x λ y. some (false, y)) done,
      all,
    )
