-- ===== src/Executor/Invoke/Examples.antt =====
-- Small ticks and flushes.
use scheduler.Base.{ℕ, ◌≡◌, refl, List, [], ◌∷◌, Option, none, some, arith, comparable_uint}
use scheduler.Base.Groups.{or_empty}
use scheduler.Base.Maps.{lookup}
use scheduler.Models.{Job, JobSchedule}
use scheduler.Executor.{JobExecutor}
use scheduler.Executor.Schedule.{job_ids}
use scheduler.Executor.Examples.{job, idle}
use scheduler.Executor.Invoke.{tick, flush}
use scheduler.Executor.Invoke.Ticks.{IsRange, jobs_of}
use scheduler.Executor.Invoke.Once.{tick-flush_once}

-- Job 4 is due at 20, job 3 at 40.
abbrev entries : List (ℕ × JobSchedule)
entries =
    (4, record { job = job 4; execution_time = 20 })
    ∷ (3, record { job = job 3; execution_time = 40 })
    ∷ []

abbrev busy : JobExecutor
busy = record idle { scheduled_jobs = entries }

-- The same entries in the other order.
abbrev reversed : List (ℕ × JobSchedule)
reversed =
    (3, record { job = job 3; execution_time = 40 })
    ∷ (4, record { job = job 4; execution_time = 20 })
    ∷ []

reversed-IsRange : IsRange reversed entries
unfolding lookup
reversed-IsRange k = ground arith

abbrev rows : List ℕ → Option (List Job)
rows ids = some (job 4 ∷ job 3 ∷ [])

tick_thirty : job_ids (tick 30 reversed busy).pending_job_invocations ≡ 4 ∷ []
unfolding tick
tick_thirty = refl

tick_equal : job_ids (tick 20 reversed busy).pending_job_invocations ≡ []
unfolding tick
tick_equal = refl

tick-flush_once_example :
    (jobs_of 4 (or_empty (flush rows (tick 30 reversed busy)).0) ≡ job 4 ∷ [])
    × (lookup 4 (flush rows (tick 30 reversed busy)).1.scheduled_jobs ≡ none)
unfolding lookup
tick-flush_once_example =
    tick-flush_once rows 30 4 reversed (record { job = job 4; execution_time = 20 }) (job 4)
      (job 4 ∷ job 3 ∷ []) busy reversed-IsRange (refl, (refl, tt)) refl (omega arith) refl refl
      refl refl

abbrev waiting : JobExecutor
waiting = record idle { pending_job_invocations = job 4 ∷ job 5 ∷ job 4 ∷ [] }
