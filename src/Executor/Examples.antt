-- ===== src/Executor/Examples.antt =====
-- Small inputs to the executor, and its theorems at them.
use scheduler.Base.{
  ℕ, ◌+◌, ◌≤◌, ◌≡◌, refl, true, false, List, [], ◌∷◌, some, arith, All, comparable_uint, subst, inl,
  inr, Bool-cases, ◌==◌,
}
use scheduler.Base.Maps.{lookup}
use scheduler.Models.{Job, JobExecutionLog, MemJobExecution}
use scheduler.NextRun.{World, Schedule, get_next_execution_time}
use scheduler.NextRun.First.{IsFirst, IsTimed, get_next_execution_time-IsFirst}
use scheduler.Executor.{JobExecutor, Context}
use scheduler.Executor.Schedule.{schedule_jobs, schedule_next, schedule_failed, mem_execution}
use scheduler.Executor.Schedule.Rounds.{IsReady}
use scheduler.Executor.Schedule.Future.{schedule_jobs-IsReady}
use scheduler.Executor.Schedule.Retries.{schedule_failed-schedule_next}
use scheduler.Executor.Results.{handle_success_jobs, handle_failed_jobs}
use scheduler.Executor.Results.Success.{handle_success_jobs-IsReady}
use scheduler.Executor.Results.Failure.{handle_failed_jobs-scheduled_jobs, HasRetries}

-- Every spec is "every 10", every zone exists.
abbrev pub every_ten : Schedule
every_ten = record { next = λ zone t. t + 10; later = λ zone t. omega arith }

abbrev pub world : World
world = record {
  parse = λ spec. some every_ten;
  has_location = λ zone. true;
  stored_zone = "UTC";
  now = 95;
  id_text = λ project id last next. "id";
}

abbrev pub job : ℕ → Job
job n = record {
  id = n;
  project_id = 1;
  spec = "@every 10ns";
  callback_url = "";
  data_text = "";
  execution_type = "http";
  start_date = 0;
  end_date = 0;
  last_execution_date = 0;
  timezone = "UTC";
  timezone_offset = 0;
  execution_id = "";
  date_created = 51;
}

abbrev pub failed_log : JobExecutionLog
failed_log = record {
  id = 9;
  unique_id = "u";
  state = 2;
  node_id = 1;
  last_execution_datetime = 71;
  next_execution_datetime = 81;
  job_id = 4;
  job_queue_version = 1;
  execution_version = 6;
  data_created = 70;
}

-- Job 4 failed once, job 3 is new.
abbrev pub context : Context
context = record {
  world = world;
  node_id = 1;
  job_execution_retry_max = 5;
  last_logs = λ ids. (4, failed_log) ∷ [];
  count_last_failed = λ id node version. 1;
  last_version = 2;
}

abbrev pub idle : JobExecutor
idle = record {
  single_node_mode = false;
  scheduled_jobs = [];
  job_executions_cache = [];
  pending_job_invocations = [];
  writes = [];
}

abbrev ran : JobExecutor
ran = record idle { job_executions_cache = (4, mem_execution 6 1 2 71 81) ∷ [] }

abbrev two_jobs : List Job
two_jobs = job 4 ∷ job 3 ∷ []

every_ten_parsed : (n : ℕ) → IsTimed world (job n)
every_ten_parsed n = (every_ten, refl, refl)

get_next_execution_time-IsFirst_example :
    (r : ℕ) × (get_next_execution_time world (job 4) ≡ some r)
    × IsFirst (every_ten.next "UTC") 95 51 r
get_next_execution_time-IsFirst_example =
    get_next_execution_time-IsFirst world (job 4) every_ten refl refl

schedule_failed-schedule_next_example :
    schedule_failed context (job 4) failed_log idle ≡ schedule_next world (job 4) failed_log 2 idle
schedule_failed-schedule_next_example =
    schedule_failed-schedule_next context (job 4) failed_log idle (every_ten, refl, refl)

failed_log_state :
    (log : JobExecutionLog) → lookup 4 (context.last_logs []) ≡ some log → log.state ≤ 2
unfolding lookup
failed_log_state log e =
    let same : failed_log ≡ log = cc in
    subst (λ (l : JobExecutionLog). l.state ≤ 2) same (omega arith)

no_log : (log : JobExecutionLog) → lookup 3 (context.last_logs []) ≡ some log → log.state ≤ 2
unfolding lookup
no_log log e = absurd (cc)

ran-HasRetries : HasRetries context 1 ran
unfolding lookup
ran-HasRetries i mem h = elim (Bool-cases (4 == i)) [
  | inl same ↦
      let cached : mem_execution 6 1 2 71 81 ≡ mem = ground (arith, same, h) in
      subst (λ (m : MemJobExecution). m.fail_count + 1 ≤ 5) cached (omega arith)
  | inr other ↦ absurd (ground (arith, other, h))
]

schedule_jobs-IsReady_example :
    (e' : JobExecutor) × (schedule_jobs context two_jobs idle ≡ some e')
    × All (λ i. IsReady world i e') (4 ∷ 3 ∷ [])
    × ((k : ℕ) → IsReady world k idle → IsReady world k e')
unfolding lookup
schedule_jobs-IsReady_example =
    schedule_jobs-IsReady context two_jobs idle (every_ten_parsed 4, (every_ten_parsed 3, tt))
      (failed_log_state, (no_log, tt))

handle_success_jobs-IsReady_example :
    (e' : JobExecutor) × (handle_success_jobs context two_jobs ran ≡ some e')
    × All (λ i. IsReady world i e') (4 ∷ 3 ∷ [])
handle_success_jobs-IsReady_example =
    handle_success_jobs-IsReady context two_jobs ran (every_ten_parsed 4, (every_ten_parsed 3, tt))

handle_failed_jobs-scheduled_jobs_example :
    (e' : JobExecutor) × (handle_failed_jobs context (job 4 ∷ []) ran ≡ some e')
    × (e'.scheduled_jobs ≡ [])
unfolding lookup
handle_failed_jobs-scheduled_jobs_example =
    handle_failed_jobs-scheduled_jobs context (job 4 ∷ []) ran (omega arith)
      ((mem_execution 6 1 2 71 81, refl), tt) ran-HasRetries
