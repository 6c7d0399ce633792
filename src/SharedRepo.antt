-- ===== src/SharedRepo.antt =====
-- pkg/shared_repo/shared_repo.go: the logs and tasks of a node are read, inserted and deleted in batches.
pub mod Tables
pub mod Ids
pub mod Reads
pub mod Logs
pub mod Transactions
pub mod Inserts
pub mod Deletes
pub mod RoundTrip
pub mod Refinement
pub mod Memory
pub mod Orders
mod Examples
use scheduler.Base.{
  ℕ, ◌-◌, ◌+◌, ◌^◌, Bool, true, false, List, [], ◌∷◌, map, Option, none, some, inl, inr, String,
  if◌then◌else◌,
}
use scheduler.Base.Words.{slt}
use scheduler.Models.{JobExecutionLog, AsyncTask, no_job_execution_log}
use scheduler.Batch.{batch}
use scheduler.Sql.{
  Value, text, number, flag, time, within, Select, select, insert, remove, Statement, Store,
  Outcome, Setter, ok, err, panics, and_then_ok, signed_range, RowsRead, no_query, no_scan, no_rows,
  all_rows, last_or, read, each_read, each_batch,
}
use scheduler.Sql.Fields.{
  log_unique_id, log_state, log_node_id, log_last_execution_datetime, log_next_execution_datetime,
  log_job_id, log_job_queue_version, log_execution_version, log_data_created, the_number, the_first,
  the_second,
}

-- constants.ExecutionsCommittedTableName and constants.ExecutionsUnCommittedTableName
abbrev pub executions_table : Bool → String
executions_table committed =
    if committed then "job_executions_committed" else "job_executions_uncommitted"

-- constants.CommittedAsyncTableName and constants.UnCommittedAsyncTableName
abbrev pub async_table : Bool → String
async_table committed = if committed then "async_tasks_committed" else "async_tasks_uncommitted"

abbrev pub select_from : String → List String → Select
select_from table columns = record {
  columns = columns;
  from = table ∷ [];
  conditions = [];
  order_by = "";
  offset = none;
  limit = none;
}

-- A loop of which every error is looked at.
abbrev pub read_closed : {A : Type 0} → RowsRead A → Outcome String (List A)
read_closed (no_query e) = err e
read_closed (no_scan e) = err e
read_closed (no_rows e xs close) = err e
read_closed (all_rows xs (some e)) = err e
read_closed (all_rows xs none) = ok xs

-- A loop of which Err is not looked at.
abbrev pub read_closed_without_err : {A : Type 0} → RowsRead A → Outcome String (List A)
read_closed_without_err (no_query e) = err e
read_closed_without_err (no_scan e) = err e
read_closed_without_err (no_rows e xs close) = read_closed (all_rows xs close)
read_closed_without_err (all_rows xs close) = read_closed (all_rows xs close)

-- What Query is given though its text has no placeholder: the node's id, and false.
abbrev pub needless : ℕ → List Value
needless node_id = number node_id ∷ flag false ∷ []

abbrev pub inserted_columns : List String
inserted_columns =
    "unique_id" ∷ "state" ∷ "node_id" ∷ "last_execution_time" ∷ "next_execution_time" ∷ "job_id"
    ∷ "date_created" ∷ "job_queue_version" ∷ "execution_version" ∷ []

abbrev pub execution_values : JobExecutionLog → List Value
execution_values log =
    text log.unique_id
    ∷ number log.state
    ∷ number log.node_id
    ∷ time log.last_execution_datetime
    ∷ time log.next_execution_datetime
    ∷ number log.job_id
    ∷ time log.data_created
    ∷ number log.job_queue_version
    ∷ number log.execution_version
    ∷ []

abbrev pub task_values : AsyncTask → List Value
task_values t =
    text t.request_id
    ∷ text t.input
    ∷ text t.output
    ∷ number t.state
    ∷ text t.service
    ∷ time t.date_created
    ∷ []

module _ {D : Type 0} (l : Store D) where
  abbrev pub count_logs : ℕ → String → D → RowsRead ℕ
  count_logs node_id table db =
      read l (the_number l ∷ []) 0 (select (select_from table ("count(*)" ∷ [])) (needless node_id))
        db

  abbrev pub max_min_ids : ℕ → String → D → RowsRead (ℕ × ℕ)
  max_min_ids node_id table db =
      read l (the_first l ∷ the_second l ∷ []) (0, 0)
        (select (select_from table ("max(id) as maxId" ∷ "min(id) as minId" ∷ []))
          (needless node_id))
        db

  abbrev pub logs_with_ids : String → List ℕ → Select
  logs_with_ids table ids =
      record (select_from table (
        "unique_id" ∷ "state" ∷ "node_id" ∷ "last_execution_time" ∷ "next_execution_time" ∷ "job_id"
        ∷ "job_queue_version" ∷ "execution_version" ∷ "date_created" ∷ [])) {
          conditions = within "id" (map number ids) ∷ [];
        }

  abbrev pub log_setters : List (Setter JobExecutionLog)
  log_setters =
      log_unique_id l
      ∷ log_state l
      ∷ log_node_id l
      ∷ log_last_execution_datetime l
      ∷ log_next_execution_datetime l
      ∷ log_job_id l
      ∷ log_job_queue_version l
      ∷ log_execution_version l
      ∷ log_data_created l
      ∷ []

  abbrev pub get_logs_batch : String → D → List ℕ → Outcome String (List JobExecutionLog)
  get_logs_batch table db [] = panics
  get_logs_batch table db (id ∷ ids) =
      read_closed_without_err
        (read l log_setters no_job_execution_log (select (logs_with_ids table (id ∷ ids)) []) db)

  abbrev pub logs_between : String → D → ℕ × ℕ → Outcome String (List JobExecutionLog)
  logs_between table db (max, min) =
      and_then_ok (signed_range min max) (λ ids. each_read (get_logs_batch table db) (batch ids 7))

  -- `if count < 1` comes after the query for the ids, and before its rows.
  abbrev pub logs_of_count :
      String → D → ℕ → RowsRead (ℕ × ℕ) → Outcome String (List JobExecutionLog)
  logs_of_count table db count (no_query e) = err e
  logs_of_count table db count (no_scan e) = if slt count 1 then ok [] else err e
  logs_of_count table db count (no_rows e xs close) = if slt count 1 then ok [] else err e
  logs_of_count table db count (all_rows xs close) =
      if slt count 1
      then ok []
      else and_then_ok (read_closed (all_rows xs close))
          (λ ys. logs_between table db (last_or (0, 0) ys))

  unfoldable pub get_execution_logs : ℕ → Bool → D → Outcome String (List JobExecutionLog)
  unfolding read each_read signed_range batch
  get_execution_logs node_id committed db =
      let table = executions_table committed in
      and_then_ok (read_closed (count_logs node_id table db))
        (λ counts. logs_of_count table db (last_or 0 counts) (max_min_ids node_id table db))

  -- BeginTx, Exec and Commit. The error of a rollback is only logged.
  unfoldable pub insert_transaction : Statement → D → Outcome String (Unit {0}) × D
  insert_transaction s db = elim (l.begin_tx db) [
    | some e ↦ (err e, db)
    | none ↦ elim (l.exec s db) [
      | inl e ↦ (err e, (l.roll_back db).1)
      | inr x ↦ elim (l.commit x.db) [ some e ↦ (err e, db) | none ↦ (ok tt, x.db) ]
    ]
  ]

  -- The same, where the error of a rollback replaces that of Exec.
  unfoldable pub delete_transaction : Statement → D → Outcome String (Unit {0}) × D
  delete_transaction s db = elim (l.begin_tx db) [
    | some e ↦ (err e, db)
    | none ↦ elim (l.exec s db) [
      | inl e ↦
          let r = l.roll_back db in elim (r.0) [ some e' ↦ (err e', r.1) | none ↦ (err e, r.1) ]
      | inr x ↦ elim (l.commit x.db) [ some e ↦ (err e, db) | none ↦ (ok tt, x.db) ]
    ]
  ]

  abbrev pub insert_logs_batch : Bool → List JobExecutionLog → D → Outcome String (Unit {0}) × D
  insert_logs_batch committed [] db = (panics, db)
  insert_logs_batch committed (log ∷ logs) db =
      insert_transaction
        (insert (executions_table committed) inserted_columns (map execution_values (log ∷ logs)))
        db

  unfoldable pub insert_execution_logs :
      Bool → List JobExecutionLog → D → Outcome String (Unit {0}) × D
  unfolding insert_transaction each_batch batch
  insert_execution_logs committed logs db =
      each_batch (insert_logs_batch committed) (batch logs 9) db

  abbrev pub delete_logs_batch : Bool → List JobExecutionLog → D → Outcome String (Unit {0}) × D
  delete_logs_batch committed [] db = (panics, db)
  delete_logs_batch committed (log ∷ logs) db =
      delete_transaction
        (remove (executions_table committed)
          (within "unique_id" (map (λ x. text x.unique_id) (log ∷ logs))))
        db

  unfoldable pub delete_execution_logs :
      Bool → List JobExecutionLog → D → Outcome String (Unit {0}) × D
  unfolding delete_transaction each_batch batch
  delete_execution_logs committed logs db =
      each_batch (delete_logs_batch committed) (batch logs 1) db

  abbrev pub insert_tasks_batch : Bool → List AsyncTask → D → Outcome String (Unit {0}) × D
  insert_tasks_batch committed [] db = (panics, db)
  insert_tasks_batch committed (t ∷ ts) db =
      elim (l.exec
        (insert (async_table committed)
          ("request_id" ∷ "input" ∷ "output" ∷ "state" ∷ "service" ∷ "date_created" ∷ [])
          (map task_values (t ∷ ts)))
        db) [ inl e ↦ (err e, db) | inr x ↦ (ok tt, x.db) ]

  unfoldable pub insert_async_tasks_logs : Bool → List AsyncTask → D → Outcome String (Unit {0}) × D
  unfolding each_batch batch
  insert_async_tasks_logs committed tasks db =
      each_batch (insert_tasks_batch committed) (batch tasks 6) db

  abbrev pub delete_tasks_batch : Bool → List AsyncTask → D → Outcome String (Unit {0}) × D
  delete_tasks_batch committed [] db = (panics, db)
  delete_tasks_batch committed (t ∷ ts) db =
      delete_transaction
        (remove (async_table committed)
          (within "request_id" (map (λ x. text x.request_id) (t ∷ ts))))
        db

  unfoldable pub delete_async_tasks_logs : Bool → List AsyncTask → D → Outcome String (Unit {0}) × D
  unfolding delete_transaction each_batch batch
  delete_async_tasks_logs committed tasks db =
      each_batch (delete_tasks_batch committed) (batch tasks 1) db
