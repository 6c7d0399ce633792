-- ===== src/Services/Examples.antt =====
-- Tests of the services on a small database.
use mathlib.Core.List.Perm
use scheduler.Base.{
  ℕ, ◌+◌, ◌-◌, ◌^◌, ◌≡◌, refl, inl, inr, true, false, not, [], ◌∷◌, map, length, none, some, ◌==◌,
  arith, comparable_string, comparable_uint,
}
use scheduler.Base.Maps.{lookup}
use scheduler.Models.{Job, AsyncTask, no_job}
use scheduler.RaftLog.{FsmResponse}
use scheduler.Queue.Logs.{IsCluster, VisitsAll}
use scheduler.AsyncTasks.{AsyncTaskService, new_async_task_manager, new_task}
use scheduler.Sql.{Statement, insert, update, remove, Store, err, ok, count_up}
use scheduler.SharedRepo.Memory.{number_from, text_from, flag_from, time_from}
use scheduler.Repository.Job.{job_insert_columns, new_job_values, batch_insert_jobs}
use scheduler.Repository.Job.Ids.{batch_insert_jobs-ids}
use scheduler.Services.Job.{
  JobService, Outside, Insertion, validate, run_insertion, invalid_timezone,
}
use scheduler.Services.Job.Tasks.{Agrees, IsQueued, run_insertion-IsQueued}

-- The raft log counts its commands, and answers with the number of inserted rows. The tables have 40 rows
-- before, so that new rows get the ids from 41 on.
abbrev counted_answer : Statement → FsmResponse
counted_answer (insert t cs vss) = record {
  rows_affected = length vss;
  last_inserted_id = 40 + length vss;
  error = "";
}
counted_answer (update t sets c) = record { rows_affected = 1; last_inserted_id = 0; error = "" }
counted_answer (remove t c) = record { rows_affected = 1; last_inserted_id = 0; error = "" }

abbrev counting : Store ℕ
counting = record {
  begin_tx = λ n. none;
  exec = λ s n. inl "closed";
  commit = λ n. none;
  roll_back = λ n. (none, n);
  query = λ q n. inl "closed";
  to_number = number_from;
  to_text = text_from;
  to_flag = flag_from;
  to_time = time_from;
  wrong_count = "sql: wrong number of destination arguments";
  write = λ s nodes action n. (inr (some (counted_answer s)), n + 1);
}

-- Node 1 leads nodes 2, 3 and 4. The only time zone is UTC, and "never" is no schedule.
abbrev outside : Outside
outside = record {
  parses = λ spec. not (spec == "never");
  loads = λ zone. zone == "UTC";
  jobs_json = λ jobs. some "[]";
  error_json = λ e. some "{}";
  decimal = λ n. "7";
  order = λ ids. ids;
  now = 100;
  queue = record { is_leader = true; node_id = 1; last_version = 7; visit = λ k m. m };
  tasks = record {
    node_id = 1;
    is_leader = true;
    batch_insert = λ tasks committed. scheduler.AsyncTasks.ok (8 ∷ []);
    raft_batch_insert = λ tasks node. scheduler.AsyncTasks.ok (8 ∷ []);
    update_task_state = λ t state output. true;
    raft_update_task_state = λ t state output. true;
    get_task = λ id. scheduler.AsyncTasks.ok (new_task "" "" "");
  };
}

abbrev waiting_task : AsyncTask
waiting_task = record (new_task "[]" "request" "create_job") { id = 8 }

abbrev service : JobService ℕ
service = record {
  db = 0;
  queue = record {
    single_node_mode = false;
    allocations = (1, 0) ∷ (2, 5) ∷ (3, 0) ∷ (4, 2) ∷ [];
    min_id = 2 ^ 63 - 1;
    max_id = 2 ^ 63;
  };
  logs = [];
  tasks = record (new_async_task_manager false) { task = (8, waiting_task) ∷ [] };
}

abbrev hourly : Job
hourly = record no_job { project_id = 3; spec = "@every 1h"; timezone = "UTC" }

abbrev work : Insertion
work = record { task_id = 8; jobs = hourly ∷ hourly ∷ hourly ∷ [] }

validate-hourly : validate outside (hourly ∷ hourly ∷ []) ≡ ok tt
unfolding validate
validate-hourly = refl

validate_local :
    validate outside (hourly ∷ record hourly { timezone = "Local" } ∷ [])
    ≡ err (invalid_timezone (record hourly { timezone = "Local" }))
unfolding validate
validate_local = refl

outside-Agrees : Agrees outside.tasks
outside-Agrees = record { by_leader = λ t state output. refl; by_follower = λ t state output. refl }

outside-VisitsAll : VisitsAll outside.queue
outside-VisitsAll k m = Perm.refl m

service-IsCluster : IsCluster outside.queue 3 3 0 service.queue
unfolding lookup
service-IsCluster = record {
  leads = refl;
  clustered = refl;
  known = refl;
  some_server = omega arith;
  few_servers = omega arith;
  listed = refl;
  different = λ e. omega (arith, e);
  room = omega arith;
}

service_task : lookup 8 service.tasks.task ≡ some waiting_task
unfolding lookup
service_task = refl

-- The answered ids are not those of the new rows, 41, 42 and 43.
three_inserted : batch_insert_jobs counting 100 work.jobs 0 ≡ (ok (1 ∷ 2 ∷ 3 ∷ []), 1)
unfolding count_up
three_inserted =
    batch_insert_jobs-ids counting 100 work.jobs 0 1
      (counted_answer (insert "jobs" job_insert_columns (map (new_job_values 100) work.jobs)))
      (omega arith) (omega arith) refl refl

run_insertion-IsQueued_example :
    (s' : JobService ℕ) × (run_insertion counting outside work service ≡ some s')
    × (s'.db ≡ 1)
    × IsQueued outside 8 waiting_task (1 ∷ 2 ∷ 3 ∷ []) service s'
run_insertion-IsQueued_example =
    run_insertion-IsQueued outside 3 3 0 outside-VisitsAll counting work service waiting_task
      (1 ∷ 2 ∷ 3 ∷ []) 1 outside-Agrees (λ jobs. ("[]", refl)) service_task three_inserted refl
      (omega arith) (omega arith) service-IsCluster (refl, inl refl)
