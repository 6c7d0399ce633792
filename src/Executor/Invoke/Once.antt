-- ===== src/Executor/Invoke/Once.antt =====
-- Which jobs a flush hands over, and how often.
use scheduler.Base.{
  ℕ, ◌≡◌, ◌⊎◌, ◌<◌, refl, ◌∙◌, ap, inl, inr, true, List, [], ◌∷◌, ◌++◌, Option, none, some, String,
  ltb, ◌==◌, if◌then◌else◌, comparable_uint, comparable_string, arith, Bool-cases, Option-cases,
}
use scheduler.Base.Groups.{or_empty, with_key, group_by-with_key}
use scheduler.Base.Maps.{lookup}
use scheduler.Models.{Job, JobSchedule}
use scheduler.Executor.{JobExecutor}
use scheduler.Executor.Schedule.{job_ids}
use scheduler.Executor.Results.{cons_some}
use scheduler.Executor.Invoke.{tick, flush, get_pending_job, jobs_to_execute}
use scheduler.Executor.Invoke.Ticks.{IsRange, AreOwn, jobs_of, tick_lem}

abbrev of_type : String → List Job → List Job
of_type type jobs = with_key (λ (j : Job). j.execution_type) type jobs

abbrev pub first_of : List Job → Option Job
first_of [] = none
first_of (job ∷ jobs) = some job

-- The job, if its type is "http".
abbrev pub if_http : Option Job → List Job
if_http none = []
if_http (some job) = if job.execution_type == "http" then job ∷ [] else []

-- One copy of `xs` for each job of the list.
abbrev pub for_each : List Job → List Job → List Job
for_each [] xs = []
for_each (job ∷ jobs) xs = xs ++ for_each jobs xs

get_pending_job-first_of :
    (k : ℕ) (pending : List Job) → get_pending_job k pending ≡ first_of (jobs_of k pending)
get_pending_job-first_of k [] = refl
get_pending_job-first_of k (job ∷ jobs) = ground (arith, get_pending_job-first_of k jobs)

abbrev HasId : ℕ → Option Job → Type 0
HasId i none = Unit
HasId i (some job) = job.id ≡ i

get_pending_job-HasId : (i : ℕ) (pending : List Job) → HasId i (get_pending_job i pending)
get_pending_job-HasId i [] = tt
get_pending_job-HasId i (job ∷ jobs) = elim (Bool-cases (job.id == i)) [
  | inl same ↦ rw same (ground (arith, same))
  | inr other ↦ rw other (get_pending_job-HasId i jobs)
]

cons_some-jobs_of :
    (k i : ℕ) (o : Option Job) (rest : List Job)
    → HasId i o
    → jobs_of k (of_type "http" (cons_some o rest))
      ≡ (if i == k then if_http o else []) ++ jobs_of k (of_type "http" rest)
cons_some-jobs_of k i none rest own = elim (Bool-cases (i == k)) [
  | inl same ↦ rw same
  | inr other ↦ rw other
]
cons_some-jobs_of k i (some job) rest own = elim (Bool-cases (job.execution_type == "http")) [
  | inr skip ↦ elim (Bool-cases (i == k)) [
    | inl same ↦ rw (skip, same)
    | inr other ↦ rw (skip, other)
  ]
  | inl http ↦ elim (Bool-cases (i == k)) [
    | inl same ↦ rw (http, own, same)
    | inr other ↦ rw (http, own, other)
  ]
]

-- The jobs of one id among those to execute.
to_execute-jobs_of :
    (k : ℕ) (pending jobs : List Job)
    → jobs_of k (of_type "http" (jobs_to_execute pending jobs))
      ≡ for_each (jobs_of k jobs) (if_http (get_pending_job k pending))
to_execute-jobs_of k pending [] = refl
to_execute-jobs_of k pending (job ∷ jobs) =
    cons_some-jobs_of k job.id (get_pending_job job.id pending) (jobs_to_execute pending jobs)
      (get_pending_job-HasId job.id pending)
    ∙ rw (to_execute-jobs_of k pending jobs) (elim (Bool-cases (job.id == k)) [
      | inl same ↦
          let eq : job.id ≡ k = ground (arith, same) in
          rw same (
            ap
              (λ i.
                if_http (get_pending_job i pending)
                ++ for_each (jobs_of k jobs) (if_http (get_pending_job k pending)))
              eq)
      | inr other ↦ rw other
    ])

-- A flush hands over, for each job id, the first pending job of that id if its type is "http", once for
-- each row that the database has for the id; and if the database answers, nothing is pending afterwards.
-- If it fails, nothing is handed over and the pending jobs stay.
pub flush_lem :
    (get : List ℕ → Option (List Job)) (e : JobExecutor)
    → ((get (job_ids e.pending_job_invocations) ≡ none) × (flush get e ≡ (none, e)))
      ⊎ ((jobs : List Job) × (get (job_ids e.pending_job_invocations) ≡ some jobs)
          × ((flush get e).1 ≡ record e { pending_job_invocations = [] })
          × ((k : ℕ)
              → jobs_of k (or_empty (flush get e).0)
                ≡ for_each
                    (jobs_of k jobs)
                    (if_http (first_of (jobs_of k e.pending_job_invocations)))))
unfolding flush
flush_lem get e = elim (Option-cases (get (job_ids e.pending_job_invocations))) [
  | inl failed ↦ inl (failed, rw (failed, flush))
  | inr (jobs, answer) ↦ inr (
    jobs,
    answer,
    rw (answer, flush),
    λ k.
        rw (answer, flush)
          (ap (jobs_of k) (
              group_by-with_key (λ (j : Job). j.execution_type) "http"
                (jobs_to_execute e.pending_job_invocations jobs) [])
            ∙ to_execute-jobs_of k e.pending_job_invocations jobs
            ∙ ap (λ o. for_each (jobs_of k jobs) (if_http o))
                (get_pending_job-first_of k e.pending_job_invocations)),
  )
]

-- A due job runs once: if job `s.job` is scheduled under `k` for a time before now, is of type
-- "http" and has no earlier invocation pending, the database answers with one row for its id,
-- Range visits each entry of the schedule once, and each job is stored under its own id, then a
-- tick and the flush after it hand over `s.job`, and no other with that id, exactly once; and it
-- is off the schedule.
pub tick-flush_once :
    (get : List ℕ → Option (List Job)) (now k : ℕ) (entries : List (ℕ × JobSchedule))
    (s : JobSchedule) (row : Job) (rows : List Job) (e : JobExecutor)
    → IsRange entries e.scheduled_jobs
    → AreOwn entries
    → lookup k e.scheduled_jobs ≡ some s
    → s.execution_time < now
    → s.job.execution_type ≡ "http"
    → jobs_of k e.pending_job_invocations ≡ []
    → get (job_ids (tick now entries e).pending_job_invocations) ≡ some rows
    → jobs_of k rows ≡ row ∷ []
    → (jobs_of k (or_empty (flush get (tick now entries e)).0) ≡ s.job ∷ [])
      × (lookup k (flush get (tick now entries e)).1.scheduled_jobs ≡ none)
tick-flush_once get now k entries s row rows e range own here past http idle answer one =
    let due : ltb s.execution_time now ≡ true = ground arith in
    let (gone, pending) = tick_lem now entries e range own k in
    let waits : jobs_of k (tick now entries e).pending_job_invocations ≡ s.job ∷ [] =
      pending ∙ rw (idle, here) (rw due) in
    elim (flush_lem get (tick now entries e)) [
      | inl (failed, same) ↦ absurd (cc)
      | inr (rows', answer', after, calls) ↦
          let same : rows' ≡ rows = cc in
          (
            calls k ∙ rw (same, one, waits) (rw http),
            ap (λ (x : JobExecutor). lookup k x.scheduled_jobs) after ∙ gone ∙ rw here (rw due),
          )
    ]
