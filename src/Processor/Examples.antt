-- ===== src/Processor/Examples.antt =====
-- A small recovery, and the theorem at it.
use scheduler.Base.{
  ℕ, ◌≤◌, ◌≡◌, refl, inl, inr, true, false, List, [], ◌∷◌, Option, some, All, arith,
  comparable_uint, subst, Bool-cases, ◌==◌,
}
use scheduler.Base.Maps.{lookup}
use scheduler.Models.{Job, JobExecutionLog, JobQueueLog}
use scheduler.Executor.{JobExecutor}
use scheduler.Executor.Schedule.Rounds.{IsReady}
use scheduler.Executor.Examples.{world, every_ten, job, idle, context, failed_log}
use scheduler.Processor.{recover_log, expand}
use scheduler.Processor.Recovery.{KnowsStates, is_new_or_slow, recover_log-IsReady}

-- The range of the jobs 3 to 5, of which the database has 4, which failed on this node, and 5, which
-- never ran.
abbrev queue_log : JobQueueLog
queue_log = record {
  id = 1;
  node_id = 1;
  lower_bound_job_id = 3;
  upper_bound_job_id = 5;
  version = 2;
  date_created = 0;
}

abbrev get_two : List ℕ → Option (List Job)
get_two ids = some (job 4 ∷ job 5 ∷ [])

expand_range : expand 3 3 ≡ 3 ∷ 4 ∷ 5 ∷ []
unfolding expand
expand_range = refl

context-KnowsStates : KnowsStates context
unfolding lookup
context-KnowsStates ids i log h = elim (Bool-cases (4 == i)) [
  | inl same ↦
      let logged : failed_log ≡ log = ground (arith, same, h) in
      subst (λ (l : JobExecutionLog). l.state ≤ 2) logged (omega arith)
  | inr other ↦ absurd (ground (arith, other, h))
]

recover_log-IsReady_example :
    (e' : JobExecutor) × (recover_log context get_two queue_log idle ≡ some (false, e'))
    × All
        (λ j.
          is_new_or_slow context 2 j (lookup j.id ((4, failed_log) ∷ [])) ≡ true
          → IsReady world j.id e')
        (job 4 ∷ job 5 ∷ [])
recover_log-IsReady_example =
    recover_log-IsReady context get_two queue_log idle (job 4 ∷ job 5 ∷ []) context-KnowsStates refl
      ((every_ten, refl, refl), ((every_ten, refl, refl), tt))
