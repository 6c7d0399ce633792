-- ===== src/Repository/JobExecution.antt =====
-- pkg/repository/job_execution/job_executions.go: the logs of executions.
pub mod Last
pub mod Raft
use scheduler.Base.{
  ℕ, ◌+◌, Bool, List, [], ◌∷◌, map, Option, none, some, inl, inr, String, ltb, nat_beq, get_elem?,
  if◌then◌else◌, and_then, false, comparable_uint,
}
use scheduler.Base.Maps.{Map, lookup, store}
use scheduler.Models.{Job, JobExecutionLog, execution_log_failed_state, no_job_execution_log}
use scheduler.NextRun.{World, get_next_execution_time}
use scheduler.Batch.{batch}
use scheduler.RaftLog.{command_action_clean_uncommitted_execution_logs}
use scheduler.SharedRepo.{executions_table}
use scheduler.Sql.{
  Value, text, number, time, is, within, Select, select, first_rows, insert, Statement, Store,
  Outcome, ok, err, panics, and_then_ok, expand_ids_range, RowsRead, no_query, no_scan, no_rows,
  all_rows, last_or, read, read_over, read_unchecked, each_read, each_batch,
}
use scheduler.Sql.Fields.{
  log_id, log_unique_id, log_state, log_node_id, log_last_execution_datetime,
  log_next_execution_datetime, log_job_id, log_job_queue_version, log_execution_version,
  log_data_created, the_number, the_first, the_second,
}
use scheduler.Repository.{where_select, logged}

abbrev pub executed_version : Option ℕ → ℕ
executed_version none = 0
executed_version (some v) = v

abbrev pub execution_columns : List String
execution_columns =
    "unique_id" ∷ "state" ∷ "node_id" ∷ "last_execution_time" ∷ "next_execution_time" ∷ "job_id"
    ∷ "job_queue_version" ∷ "date_created" ∷ "execution_version" ∷ []

-- The rows of a batch; `none` is a panic. The time of job `i` of the batch is counted from the last
-- execution of `jobs[i]`. A spec that cannot be parsed is logged, and its schedule is nil.
unfoldable pub insert_rows :
    World → List Job → ℕ → ℕ → ℕ → Map ℕ ℕ → ℕ → List Job → Option (List (List Value))
unfolding lookup
insert_rows w jobs node_id state version versions i [] = some []
insert_rows w jobs node_id state version versions i (job ∷ rows_left) =
    let rest = insert_rows w jobs node_id state version versions (i + 1) rows_left in
    and_then (w.parse job.spec) (λ schedule. and_then (get_elem? jobs i) (λ job'.
      and_then rest (λ rows. some (
        (text job.execution_id
          ∷ number state
          ∷ number node_id
          ∷ time job.last_execution_date
          ∷ time (schedule.next w.stored_zone job'.last_execution_date)
          ∷ number job.id
          ∷ number version
          ∷ time w.now
          ∷ number (executed_version (lookup job.id versions))
          ∷ [])
        ∷ rows))))

-- An error of Scan is not looked at here; that of the rows is.
abbrev pub logged_rows : RowsRead JobExecutionLog → Outcome String (List JobExecutionLog)
logged_rows (no_query e) = err e
logged_rows (no_scan e) = err e
logged_rows (no_rows e xs close) = err e
logged_rows (all_rows xs close) = ok xs

module _ {D : Type 0} (l : Store D) where
  -- The transaction of a batch; what Err returns at is an error, which is only logged.
  unfoldable pub insert_batch : Option (List (List Value)) → D → Outcome String (Unit {0}) × D
  insert_batch none db = (panics, db)
  insert_batch (some rows) db = elim (l.begin_tx db) [
    | some e ↦ (err e, db)
    | none ↦ elim (l.exec (insert "job_executions_uncommitted" execution_columns rows) db) [
      | inl e ↦ (err e, (l.roll_back db).1)
      | inr x ↦ elim (l.commit x.db) [
        | some e ↦ (err e, db)
        | none ↦ elim (x.last_insert_id) [ inl e ↦ (err e, x.db) | inr id ↦ (ok tt, x.db) ]
      ]
    ]
  ]

  unfoldable pub batch_insert_executions :
      World → List Job → ℕ → ℕ → ℕ → Map ℕ ℕ → D → Outcome String (Unit {0}) × D
  unfolding insert_rows insert_batch each_batch batch
  batch_insert_executions w [] node_id state version versions db = (ok tt, db)
  batch_insert_executions w (job ∷ jobs) node_id state version versions db =
      each_batch (λ b. insert_batch (insert_rows w (job ∷ jobs) node_id state version versions 0 b))
        (batch (job ∷ jobs) 9) db

  abbrev pub last_logs_batch : D → List ℕ → Outcome String (List JobExecutionLog)
  last_logs_batch db [] = panics
  last_logs_batch db (id ∷ ids) = logged_rows (
      read_unchecked l
        (log_execution_version l
          ∷ log_state l
          ∷ log_id l
          ∷ log_unique_id l
          ∷ log_node_id l
          ∷ log_last_execution_datetime l
          ∷ log_next_execution_datetime l
          ∷ log_job_id l
          ∷ log_data_created l
          ∷ log_job_queue_version l
          ∷ [])
        no_job_execution_log
        (first_rows
          ("execution_version" ∷ "state" ∷ "id" ∷ "unique_id" ∷ "node_id" ∷ "last_execution_time"
            ∷ "next_execution_time" ∷ "job_id" ∷ "date_created" ∷ "job_queue_version" ∷ [])
          ("job_executions_committed" ∷ "job_executions_uncommitted" ∷ []) "job_id"
          "execution_version desc, state desc" (within "job_id" (map number (id ∷ ids))))
        db)

  -- getLastExecutionLogForJobIds
  unfoldable pub last_execution_logs : List ℕ → D → Outcome String (List JobExecutionLog)
  unfolding read_unchecked each_read batch
  last_execution_logs [] db = ok []
  last_execution_logs (id ∷ ids) db =
      logged {E = String} (each_read (last_logs_batch db) (batch (id ∷ ids) 1))

-- Which of the log that is known and a further log of the job stays in the map.
abbrev pub later_log : Option JobExecutionLog → JobExecutionLog → JobExecutionLog
later_log none log = log
later_log (some known) log =
    if ltb known.execution_version log.execution_version
    then log
    else if ltb known.state log.state
    then log
    else known

unfoldable pub last_for_job :
    ℕ → List JobExecutionLog → Map ℕ JobExecutionLog → Map ℕ JobExecutionLog
unfolding lookup store
last_for_job job_id [] m = m
last_for_job job_id (log ∷ logs) m =
    last_for_job job_id logs
      (if nat_beq log.job_id job_id then store job_id (later_log (lookup job_id m) log) m else m)

unfoldable pub last_for_jobs :
    List ℕ → List JobExecutionLog → Map ℕ JobExecutionLog → Map ℕ JobExecutionLog
unfolding last_for_job
last_for_jobs [] logs m = m
last_for_jobs (id ∷ ids) logs m = last_for_jobs ids logs (last_for_job id logs m)

module _ {D : Type 0} (l : Store D) where
  unfoldable pub get_last_execution_log_for_job_ids :
      List ℕ → D → Outcome String (Map ℕ JobExecutionLog)
  unfolding last_execution_logs last_for_jobs
  get_last_execution_log_for_job_ids ids db =
      and_then_ok (last_execution_logs l ids db) (λ logs. ok (last_for_jobs ids logs []))

  -- Close is deferred before the error of the query is looked at: with no rows it panics. An error of
  -- Scan is not looked at.
  abbrev pub counted : RowsRead ℕ → Outcome String ℕ
  counted (no_query e) = panics
  counted (no_scan e) = ok 0
  counted (no_rows e xs close) = ok 0
  counted (all_rows xs close) = ok (last_or 0 xs)

  unfoldable pub count_last_failed_execution_logs : ℕ → ℕ → ℕ → D → Outcome String ℕ
  unfolding read_over
  count_last_failed_execution_logs job_id node_id execution_version db = counted (
      read_over l (the_number l ∷ []) 0
        (select
          (record (where_select ("count(*)" ∷ [])
            ("job_executions_committed" ∷ "job_executions_uncommitted" ∷ [])
            (is "job_id" (number job_id)
              ∷ is "execution_version" (number execution_version)
              ∷ is "node_id" (number node_id)
              ∷ is "state" (number execution_log_failed_state)
              ∷ [])
            "execution_version desc") { limit = some 1 })
          [])
        db)

  unfoldable pub count_execution_logs : Bool → D → Outcome String ℕ
  unfolding read_over
  count_execution_logs committed db = counted (
      read_over l (the_number l ∷ []) 0
        (select (where_select ("count(*)" ∷ []) (executions_table committed ∷ []) [] "") []) db)

  abbrev pub min_max_read : RowsRead (ℕ × ℕ) → Outcome String (ℕ × ℕ)
  min_max_read (no_query e) = panics
  min_max_read (no_scan e) = ok (0, 0)
  min_max_read (no_rows e xs close) = ok (0, 0)
  min_max_read (all_rows xs close) = ok (last_or (0, 0) xs)

  -- getUncommittedExecutionsLogsMinMaxIds
  unfoldable pub logs_min_max_ids : Bool → D → Outcome String (ℕ × ℕ)
  unfolding read_over
  logs_min_max_ids committed db = min_max_read (
      read_over l (the_first l ∷ the_second l ∷ []) (0, 0)
        (select (where_select ("min(id)" ∷ "max(id)" ∷ []) (executions_table committed ∷ []) [] "")
          [])
        db)

  abbrev pub uncommitted_batch : ℕ → D → List ℕ → Outcome String (List JobExecutionLog)
  uncommitted_batch node_id db [] = panics
  uncommitted_batch node_id db (id ∷ ids) = logged_rows (
      read l
        (log_id l
          ∷ log_unique_id l
          ∷ log_state l
          ∷ log_node_id l
          ∷ log_last_execution_datetime l
          ∷ log_next_execution_datetime l
          ∷ log_job_id l
          ∷ log_data_created l
          ∷ log_job_queue_version l
          ∷ log_execution_version l
          ∷ [])
        no_job_execution_log
        (select
          (record (where_select
            ("id" ∷ "unique_id" ∷ "state" ∷ "node_id" ∷ "last_execution_time"
              ∷ "next_execution_time" ∷ "job_id" ∷ "date_created" ∷ "job_queue_version"
              ∷ "execution_version" ∷ [])
            ("job_executions_uncommitted" ∷ [])
            (is "node_id" (number node_id) ∷ within "id" (map number (id ∷ ids)) ∷ [])
            "next_execution_time DESC") { limit = some 4095 })
          [])
        db)

  unfoldable pub get_uncommitted_executions_log_for_node :
      ℕ → D → Outcome String (List JobExecutionLog)
  unfolding logs_min_max_ids expand_ids_range each_read batch read
  get_uncommitted_executions_log_for_node node_id db =
      and_then_ok (logs_min_max_ids false db) (λ bounds.
        and_then_ok (expand_ids_range bounds.0 bounds.1)
          (λ ids. logged {E = String} (each_read (uncommitted_batch node_id db) (batch ids 10))))
