-- ===== src/Repository/JobQueue.antt =====
-- pkg/repository/job_queue/job_queues.go: the ranges that nodes hold, and the versions of the queue.
pub mod Versions
use scheduler.Base.{ℕ, ◌+◌, List, [], ◌∷◌, map, Option, none, some, ◌⊎◌, inl, inr, String}
use scheduler.Base.Words.{add64, sub64}
use scheduler.Models.{JobQueueLog, no_job_queue_log}
use scheduler.Batch.{batch}
use scheduler.RaftLog.{FsmResponse, command_action_queue_job}
use scheduler.Sql.{
  Value, number, time, null, is, between, Condition, Select, select, insert, Statement, Store,
  Outcome, ok, err, panics, exits, and_then_in, Setter, RowsRead, no_query, no_scan, no_rows,
  all_rows, last_or, read,
}
use scheduler.Sql.Fields.{
  queue_id, queue_node_id, queue_lower_bound_job_id, queue_upper_bound_job_id, queue_version,
  queue_date_created,
}
use scheduler.Repository.{where_select}

-- The logs that a read gives, newest first; errors are logged. Close is deferred before the error of
-- the query is looked at: with no rows it panics.
abbrev pub logs_or_nil : RowsRead JobQueueLog → Outcome String (List JobQueueLog)
logs_or_nil (no_query e) = panics
logs_or_nil (no_scan e) = ok []
logs_or_nil (no_rows e xs close) = ok []
logs_or_nil (all_rows xs close) = ok xs

-- The same, where an error of the rows leaves those that were read.
abbrev pub logs_or_part : RowsRead JobQueueLog → Outcome String (List JobQueueLog)
logs_or_part (no_query e) = panics
logs_or_part (no_scan e) = ok []
logs_or_part (no_rows e xs close) = ok xs
logs_or_part (all_rows xs close) = ok xs

abbrev pub version_or_zero : Option ℕ → ℕ
version_or_zero none = 0
version_or_zero (some v) = v

-- An error ends the process.
abbrev pub last_version_of : RowsRead (Option ℕ) → Outcome String ℕ
last_version_of (no_query e) = exits
last_version_of (no_scan e) = exits
last_version_of (no_rows e xs close) = exits
last_version_of (all_rows xs close) = ok (version_or_zero (last_or none xs))

abbrev pub queue_log_values : ℕ → JobQueueLog → List Value
queue_log_values now log =
    number log.node_id
    ∷ number log.lower_bound_job_id
    ∷ number log.upper_bound_job_id
    ∷ number log.version
    ∷ time now
    ∷ []

abbrev pub ended_by :
    {D : Type 0} → (String ⊎ Option FsmResponse) × D → Outcome String (Unit {0}) × D
ended_by (inl e, db) = (exits, db)
ended_by (inr r, db) = (ok tt, db)

abbrev pub last_version_select : Select
last_version_select = where_select ("MAX(version)" ∷ []) ("job_queue_versions" ∷ []) [] ""

-- The INSERT of a version.
abbrev pub version_insert : ℕ → ℕ → Statement
version_insert version number_of_server =
    insert "job_queue_versions" ("version" ∷ "number_of_active_nodes" ∷ [])
      ((number version ∷ number number_of_server ∷ []) ∷ [])

abbrev pub queue_columns : List String
queue_columns =
    "node_id" ∷ "lower_bound_job_id" ∷ "upper_bound_job_id" ∷ "version" ∷ "date_created" ∷ []

module _ {D : Type 0} (l : Store D) where
  abbrev pub queue_logs_where : List Condition → D → RowsRead JobQueueLog
  queue_logs_where conditions db =
      read l
        (queue_id l
          ∷ queue_node_id l
          ∷ queue_lower_bound_job_id l
          ∷ queue_upper_bound_job_id l
          ∷ queue_version l
          ∷ queue_date_created l
          ∷ [])
        no_job_queue_log
        (select
          (where_select
            ("id" ∷ "node_id" ∷ "lower_bound_job_id" ∷ "upper_bound_job_id" ∷ "version"
              ∷ "date_created" ∷ [])
            ("job_queues" ∷ []) conditions "date_created DESC")
          [])
        db

  unfoldable pub get_last_job_queue_log_for_node : ℕ → ℕ → D → Outcome String (List JobQueueLog)
  unfolding read
  get_last_job_queue_log_for_node node_id version db =
      logs_or_nil
        (queue_logs_where (is "node_id" (number node_id) ∷ is "version" (number version) ∷ []) db)

  unfoldable pub get_job_queue_by_last_inserted_and_rows_affected :
      ℕ → ℕ → D → Outcome String (List JobQueueLog)
  unfolding read
  get_job_queue_by_last_inserted_and_rows_affected last_inserted_id rows_affected db =
      logs_or_part (
        queue_logs_where
          (between "id" (number (sub64 last_inserted_id rows_affected)) (number last_inserted_id)
            ∷ [])
          db)

  -- A *uint64, which NULL leaves nil.
  abbrev pub optional_number : Setter (Option ℕ)
  optional_number null v = inr none
  optional_number value v = elim (l.to_number value) [ inl e ↦ inl e | inr n ↦ inr (some n) ]

  -- GetLastVersion and getLastVersion
  unfoldable pub get_last_version : D → Outcome String ℕ
  unfolding read
  get_last_version db =
      last_version_of (read l (optional_number ∷ []) none (select last_version_select []) db)

  unfoldable pub increment_queue_version : ℕ → D → Outcome String (Unit {0}) × D
  unfolding get_last_version
  increment_queue_version number_of_server db =
      and_then_in (get_last_version db, db)
        (λ last db'. ended_by (l.write (version_insert (add64 last 1) number_of_server) [] 0 db'))

  abbrev pub write_queue_batch : ℕ → List JobQueueLog → D → D
  write_queue_batch now logs db =
      (l.write (insert "job_queues" queue_columns (map (queue_log_values now) logs))
        (map (λ log. log.node_id) logs) command_action_queue_job db).1

  -- An error of a write is at most logged.
  unfoldable pub write_queue_batches : ℕ → List (List JobQueueLog) → D → D
  write_queue_batches now [] db = db
  write_queue_batches now (b ∷ bs) db = write_queue_batches now bs (write_queue_batch now b db)

  unfoldable pub insert_job_queue_logs : ℕ → List JobQueueLog → D → D
  unfolding write_queue_batches batch
  insert_job_queue_logs now logs db = write_queue_batches now (batch logs 5) db
