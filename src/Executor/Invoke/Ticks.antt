-- ===== src/Executor/Invoke/Ticks.antt =====
-- What a tick and StopAll leave.
use scheduler.Base.{
  ℕ, ◌≡◌, refl, sym, ◌∙◌, ap, inl, inr, Bool, false, ◌||◌, List, [], ◌∷◌, ◌++◌, Option, none, some,
  ltb, ◌==◌, if◌then◌else◌, comparable_uint, arith, All, Bool-cases, Option-cases, append_assoc,
  append-nil,
}
use scheduler.Base.Maps.{Map, lookup, delete, lookup-delete}
use scheduler.Models.{Job, JobSchedule}
use scheduler.Executor.{JobExecutor}
use scheduler.Executor.Invoke.{tick, range_round, delete_keys, stop_all}

-- The values that are listed under a key.
abbrev pub values_of : ℕ → List (ℕ × JobSchedule) → List JobSchedule
values_of k [] = []
values_of k ((j, s) ∷ entries) = if j == k then s ∷ values_of k entries else values_of k entries

abbrev pub listed : Option JobSchedule → List JobSchedule
listed none = []
listed (some s) = s ∷ []

-- The documented behaviour of Range on a map that no other call changes: each key is visited once,
-- with its value.
abbrev pub IsRange : List (ℕ × JobSchedule) → Map ℕ JobSchedule → Type 0
IsRange entries m = (k : ℕ) → values_of k entries ≡ listed (lookup k m)

-- Each job is stored under its own id.
abbrev pub AreOwn : List (ℕ × JobSchedule) → Type 0
AreOwn entries = All (λ p. p.1.job.id ≡ p.0) entries

abbrev pub jobs_of : ℕ → List Job → List Job
jobs_of k [] = []
jobs_of k (job ∷ jobs) = if job.id == k then job ∷ jobs_of k jobs else jobs_of k jobs

abbrev pub due_jobs : ℕ → List JobSchedule → List Job
due_jobs now [] = []
due_jobs now (s ∷ ss) =
    if ltb s.execution_time now then s.job ∷ due_jobs now ss else due_jobs now ss

abbrev any_due : ℕ → List JobSchedule → Bool
any_due now [] = false
any_due now (s ∷ ss) = ltb s.execution_time now || any_due now ss

-- What stays on the schedule of what was on it.
abbrev pub not_due : ℕ → Option JobSchedule → Option JobSchedule
not_due now none = none
not_due now (some s) = if ltb s.execution_time now then none else some s

pub jobs_of-append :
    (k : ℕ) (xs ys : List Job) → jobs_of k (xs ++ ys) ≡ jobs_of k xs ++ jobs_of k ys
jobs_of-append k [] ys = refl
jobs_of-append k (x ∷ xs) ys = ground (arith, jobs_of-append k xs ys)

tick-lookup :
    (now k : ℕ) (entries : List (ℕ × JobSchedule)) (e : JobExecutor)
    → AreOwn entries
    → lookup k (tick now entries e).scheduled_jobs
      ≡ (if any_due now (values_of k entries) then none else lookup k e.scheduled_jobs)
unfolding tick
tick-lookup now k [] e own = refl
tick-lookup now k ((j, s) ∷ entries) e own = ground (
  arith,
  own.0,
  lookup-delete s.job.id k e.scheduled_jobs,
  tick-lookup now k entries (range_round now s e) own.1,
)

round-pending :
    (now k : ℕ) (s : JobSchedule) (rest : List JobSchedule) (e : JobExecutor)
    → jobs_of k (range_round now s e).pending_job_invocations ++ due_jobs now rest
      ≡ jobs_of k e.pending_job_invocations
        ++ due_jobs now (if s.job.id == k then s ∷ rest else rest)
round-pending now k s rest e = elim (Bool-cases (ltb s.execution_time now)) [
  | inr later ↦ elim (Bool-cases (s.job.id == k)) [
    | inl own ↦ rw (later, own) (rw later)
    | inr other ↦ rw (later, other)
  ]
  | inl due ↦
      rw (due, jobs_of-append k e.pending_job_invocations (s.job ∷ []))
        (elim (Bool-cases (s.job.id == k)) [
          | inl own ↦ rw own (
              rw due (
                append_assoc (jobs_of k e.pending_job_invocations) (s.job ∷ [])
                  (due_jobs now rest)))
          | inr other ↦ rw other (ap (λ l. l ++ due_jobs now rest) (append-nil _))
        ])
]

tick-pending :
    (now k : ℕ) (entries : List (ℕ × JobSchedule)) (e : JobExecutor)
    → AreOwn entries
    → jobs_of k (tick now entries e).pending_job_invocations
      ≡ jobs_of k e.pending_job_invocations ++ due_jobs now (values_of k entries)
unfolding tick
tick-pending now k [] e own = sym (append-nil _)
tick-pending now k ((j, s) ∷ entries) e own =
    tick-pending now k entries (range_round now s e) own.1
    ∙ round-pending now k s (values_of k entries) e
    ∙ ap
        (λ i.
          jobs_of k e.pending_job_invocations
          ++ due_jobs now (if i == k then s ∷ values_of k entries else values_of k entries))
        own.0

any_due-listed :
    (now : ℕ) (o : Option JobSchedule)
    → (if any_due now (listed o) then none else o) ≡ not_due now o
any_due-listed now none = refl
any_due-listed now (some s) = elim (Bool-cases (ltb s.execution_time now)) [
  | inl due ↦ rw due
  | inr later ↦ rw later
]

-- A tick visits each entry of the schedule once, in any order, and each job is stored under its
-- own id. Then for each job id: the schedule keeps the entry exactly if its time is not before
-- now, and otherwise the job, and no other with that id, is appended to those that wait for their
-- invocation.
pub tick_lem :
    (now : ℕ) (entries : List (ℕ × JobSchedule)) (e : JobExecutor)
    → IsRange entries e.scheduled_jobs
    → AreOwn entries
    → (k : ℕ)
    → (lookup k (tick now entries e).scheduled_jobs ≡ not_due now (lookup k e.scheduled_jobs))
      × (jobs_of k (tick now entries e).pending_job_invocations
          ≡ jobs_of k e.pending_job_invocations
            ++ due_jobs now (listed (lookup k e.scheduled_jobs)))
tick_lem now entries e range own k = (
  tick-lookup now k entries e own
      ∙ ap (λ l. if any_due now l then none else lookup k e.scheduled_jobs) (range k)
      ∙ any_due-listed now (lookup k e.scheduled_jobs),
  tick-pending now k entries e own
      ∙ ap (λ l. jobs_of k e.pending_job_invocations ++ due_jobs now l) (range k),
)

delete_keys-lookup :
    (k : ℕ) (entries : List (ℕ × JobSchedule)) (m : Map ℕ JobSchedule)
    → lookup k m ≡ none
    → lookup k (delete_keys entries m) ≡ none
delete_keys-lookup k [] m gone = gone
delete_keys-lookup k ((j, s) ∷ entries) m gone =
    delete_keys-lookup k entries (delete j m) (ground (arith, gone, lookup-delete j k m))

stop_all-values :
    (k : ℕ) (s : JobSchedule) (entries : List (ℕ × JobSchedule)) (rest : List JobSchedule)
    (m : Map ℕ JobSchedule)
    → values_of k entries ≡ s ∷ rest
    → lookup k (delete_keys entries m) ≡ none
stop_all-values k s [] rest m visited = absurd (cc)
stop_all-values k s ((j, t) ∷ entries) rest m visited = elim (Bool-cases (j == k)) [
  | inl same ↦ delete_keys-lookup k entries (delete j m) (lookup-delete j k m ∙ rw same)
  | inr other ↦ stop_all-values k s entries rest (delete j m) (rw other at visited)
]

-- After StopAll, whose Range visits each entry once, nothing is scheduled.
pub stop_all-lookup :
    (entries : List (ℕ × JobSchedule)) (e : JobExecutor)
    → IsRange entries e.scheduled_jobs
    → (k : ℕ) → lookup k (stop_all entries e).scheduled_jobs ≡ none
unfolding stop_all
stop_all-lookup entries e range k = elim (Option-cases (lookup k e.scheduled_jobs)) [
  | inl gone ↦ delete_keys-lookup k entries e.scheduled_jobs gone
  | inr (s, here) ↦ stop_all-values k s entries [] e.scheduled_jobs (range k ∙ ap listed here)
]
