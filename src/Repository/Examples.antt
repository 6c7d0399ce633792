-- ===== src/Repository/Examples.antt =====
-- Tests of the repositories on small databases.
mod Projects
use scheduler.Base.{
  ℕ, zero, suc, ◌+◌, ◌-◌, ◌<◌, ◌≡◌, refl, ap, sym, ◌∙◌, Bool-cases, true, false, List, [], ◌∷◌, map,
  length, Option, none, some, ◌⊎◌, inl, inr, String, All, ltb, nat_beq, if◌then◌else◌, arith,
  comparable_string, comparable_uint,
}
use scheduler.Base.Floats.{float64}
use scheduler.Base.Maps.{Map, lookup}
use scheduler.Batch.{db_max_variable_size, max_var}
use scheduler.Models.{AsyncTask, JobExecutionLog, no_async_task, no_job, no_project}
use scheduler.RaftLog.{Executed, FsmResponse}
use scheduler.Sql.{
  Value, text, number, time, Condition, Statement, insert, update, remove, Rows, Query, select,
  Store, http_error, ok, err, count_up,
}
use scheduler.SharedRepo.Tables.{done}
use scheduler.SharedRepo.Memory.{number_from, text_from, flag_from, time_from}
use scheduler.Repository.AsyncTask.{batch_insert_tasks}
use scheduler.Repository.AsyncTask.Ids.{
  Numbers, parameters, batch_insert_tasks-ids, batch_insert_tasks-exceeds,
}
use scheduler.Repository.Job.{
  job_insert_columns, new_job_values, update_one_by_id, batch_insert_jobs,
}
use scheduler.Repository.Job.Ids.{batch_insert_jobs-ids}
use scheduler.Repository.Job.Specs.{update_one_by_id-specs}
use scheduler.Repository.JobExecution.{last_execution_logs, get_last_execution_log_for_job_ids}
use scheduler.Repository.JobExecution.Raft.{raft_insert_execution_logs}
use scheduler.Repository.JobExecution.Last.{IsLastFor, get_last_execution_log_for_job_ids-IsLast}
use scheduler.Repository.JobQueue.{get_last_version, increment_queue_version}
use scheduler.Repository.JobQueue.Versions.{Versions, max_value}
use scheduler.Repository.Project.{delete_project}
use scheduler.Repository.WellFormed.{IsWellFormed, raft_insert_execution_logs-IsWellFormed}

-- A database that refuses everything.
abbrev pub refusing : {D : Type 0} → Store D
refusing = record {
  begin_tx = λ db. none;
  exec = λ s db. inl "refused";
  commit = λ db. none;
  roll_back = λ db. (none, db);
  query = λ q db. inl "refused";
  to_number = number_from;
  to_text = text_from;
  to_flag = flag_from;
  to_time = time_from;
  wrong_count = "sql: wrong number of destination arguments";
  write = λ s nodes action db. (inl "refused", db);
}

-- A database that is the next id of its one table.
abbrev number_rows : Statement → ℕ → String ⊎ Executed ℕ
number_rows (insert t cs vss) n = inr (record {
  db = n + length vss;
  last_insert_id = inr (n + length vss - 1);
  rows_affected = inr (length vss);
})
number_rows s n = inl "refused"

abbrev numbering : Store ℕ
numbering = record refusing { exec = number_rows }

abbrev executed_or : {D : Type 0} → Executed D → String ⊎ Executed D → Executed D
executed_or x (inl e) = x
executed_or x (inr y) = y

abbrev numbering_numbers : Numbers numbering
numbering_numbers = record {
  next = λ t n. n;
  inserted = λ t cs vss n x h.
      let same = ap (executed_or x) h in
      (ap (λ y. y.last_insert_id) (sym same), ap (λ y. y.db) (sym same));
}

two_inserted :
    batch_insert_tasks numbering 100 (no_async_task ∷ no_async_task ∷ []) true 7
    ≡ (ok (7 ∷ 8 ∷ []), 9)
unfolding batch_insert_tasks max_var float64
two_inserted = refl

batch_insert_tasks-ids_example : 7 ∷ 8 ∷ [] ≡ count_up 2 7
batch_insert_tasks-ids_example =
    batch_insert_tasks-ids numbering numbering_numbers 100 true (no_async_task ∷ no_async_task ∷ [])
      7 9 (7 ∷ 8 ∷ []) (λ h. absurd cc) (omega arith) two_inserted

-- A database that takes an INSERT with at most DBMaxVariableSize parameters.
abbrev limited_rows : Statement → ℕ → String ⊎ Executed ℕ
limited_rows (insert t cs vss) n =
    if ltb db_max_variable_size (parameters vss)
    then inl "too many SQL variables"
    else number_rows (insert t cs vss) n
limited_rows s n = inl "refused"

abbrev limited : Store ℕ
limited = record refusing { exec = limited_rows }

limited-refuses :
    (t : String) (cs : List String) (vss : List (List Value)) (n : ℕ)
    → db_max_variable_size < parameters vss
    → (e : String) × (limited.exec (insert t cs vss) n ≡ inl e)
limited-refuses t cs vss n h =
    let many : ltb db_max_variable_size (parameters vss) ≡ true = ground (arith, h) in
    ("too many SQL variables", rw many refl)

abbrev repeat : {A : Type 0} → ℕ → A → List A
repeat zero a = []
repeat (suc n) a = a ∷ repeat n a

length-repeat : {A : Type 0} (n : ℕ) (a : A) → length (repeat n a) ≡ n
length-repeat zero a = refl
length-repeat (suc n) a = ap suc (length-repeat n a)

abbrev many_tasks : List AsyncTask
many_tasks = repeat 6000 no_async_task

batch_insert_tasks-exceeds_example :
    (e : String) × (batch_insert_tasks limited 100 many_tasks true 7 ≡ (err (http_error 500 e), 7))
batch_insert_tasks-exceeds_example =
    batch_insert_tasks-exceeds limited 100 true many_tasks 7
      (λ t cs vss. limited-refuses t cs vss 7) (omega (arith, length-repeat 6000 no_async_task))
      (omega (arith, length-repeat 6000 no_async_task))

-- A raft log that answers with the number of the rows; the ids go on from 41.
abbrev pub counted_answer : Statement → FsmResponse
counted_answer (insert t cs vss) = record {
  rows_affected = length vss;
  last_inserted_id = 40 + length vss;
  error = "";
}
counted_answer s = record { rows_affected = 0; last_inserted_id = 0; error = "" }

abbrev answering : Store ℕ
answering = record refusing { write = λ s nodes action n. (inr (some (counted_answer s)), suc n) }

-- The new rows have the ids 41 and 42.
batch_insert_jobs-ids_example :
    batch_insert_jobs answering 100 (no_job ∷ no_job ∷ []) 0 ≡ (ok (count_up 2 1), 1)
batch_insert_jobs-ids_example =
    batch_insert_jobs-ids answering 100 (no_job ∷ no_job ∷ []) 0 1
      (counted_answer
        (insert "jobs" job_insert_columns (map (new_job_values 100) (no_job ∷ no_job ∷ []))))
      (omega arith) (omega arith) refl refl

-- A database that is the spec of its one job, with the call back URL of the last update.
abbrev spec_after : Option Value → String → String
spec_after (some (text s)) spec = s
spec_after v spec = spec

abbrev specs_written : Statement → String → String
specs_written (update t sets c) spec = spec_after (lookup "spec" sets) spec
specs_written s spec = spec

abbrev pub found_job : List Value
found_job =
    number 1
    ∷ number 2
    ∷ text "@daily"
    ∷ text "http://a"
    ∷ text "http"
    ∷ time 5
    ∷ text "UTC"
    ∷ number 0
    ∷ text ""
    ∷ []

abbrev one_spec : Store String
one_spec = record refusing {
  query = λ q spec. inr (done (found_job ∷ []));
  write = λ s nodes action spec. (inr (some (counted_answer s)), specs_written s spec);
}

update_one_by_id-specs_example :
    (update_one_by_id one_spec (record no_job { id = 1; callback_url = "http://b" }) "@daily").1
    ≡ "@daily"
update_one_by_id-specs_example =
    update_one_by_id-specs one_spec (λ spec. spec)
      (λ sets c nodes action spec h. ap (λ v. spec_after v spec) h)
      (record no_job { id = 1; callback_url = "http://b" }) "@daily"

abbrev log_row : ℕ → ℕ → List Value
log_row job_id version =
    number version
    ∷ number 1
    ∷ number 9
    ∷ text "u"
    ∷ number 1
    ∷ time 10
    ∷ time 20
    ∷ number job_id
    ∷ time 11
    ∷ number 4
    ∷ []

abbrev three_logs : Store ℕ
three_logs = record refusing {
  query = λ q n. inr (done (log_row 3 2 ∷ log_row 5 7 ∷ log_row 5 6 ∷ []));
}

abbrev log_with : ℕ → ℕ → JobExecutionLog
log_with job_id version = record {
  id = 9;
  unique_id = "u";
  state = 1;
  node_id = 1;
  last_execution_datetime = 10;
  next_execution_datetime = 20;
  job_id = job_id;
  job_queue_version = 4;
  execution_version = version;
  data_created = 11;
}

abbrev pub found_logs : List JobExecutionLog
found_logs = log_with 3 2 ∷ log_with 5 7 ∷ log_with 5 6 ∷ []

three_logs_found : last_execution_logs three_logs (5 ∷ 4 ∷ 5 ∷ []) 0 ≡ ok found_logs
unfolding last_execution_logs max_var float64
three_logs_found = refl

get_last_execution_log_for_job_ids-IsLast_example :
    (m : Map ℕ JobExecutionLog) × (get_last_execution_log_for_job_ids three_logs (5 ∷ 4 ∷ 5 ∷ []) 0
      ≡ ok m)
    × ((j : ℕ) → IsLastFor (5 ∷ 4 ∷ 5 ∷ []) found_logs j (lookup j m))
get_last_execution_log_for_job_ids-IsLast_example =
    get_last_execution_log_for_job_ids-IsLast three_logs (5 ∷ 4 ∷ 5 ∷ []) 0 found_logs
      three_logs_found
      (
        ((λ j o. omega arith), ((λ j o. omega arith), ((λ j o. omega arith), tt))),
        (
          ((λ j o. omega arith), ((λ j o. omega arith), ((λ j o. omega arith), tt))),
          (((λ j o. omega arith), ((λ j o. omega arith), ((λ j o. omega arith), tt))), tt),
        ),
      )
