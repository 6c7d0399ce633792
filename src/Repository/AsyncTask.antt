-- ===== src/Repository/AsyncTask.antt =====
-- pkg/repository/async_task/async_tasks.go
pub mod Ids
use scheduler.Base.{
  ℕ, Bool, true, false, List, [], ◌∷◌, map, Option, none, some, ◌⊎◌, inl, inr, String, length,
}
use scheduler.Models.{AsyncTask, no_async_task}
use scheduler.Batch.{batch}
use scheduler.RaftLog.{FsmResponse, Executed, command_action_queue_job}
use scheduler.SharedRepo.{async_table}
use scheduler.Sql.{
  Value, text, number, time, is, within, select, union, insert, update, Store, GenericError,
  http_error, Outcome, ok, err, panics, and_then_ok, signed_range, unsigned_range, expand_ids_range,
  RowsRead, no_query, no_scan, no_rows, all_rows, last_or, read, read_over, One, Ended, Select,
  Setter, query_failed, scan_failed, rows_failed, whole, read_one, each_read, each_insert,
}
use scheduler.Sql.Fields.{
  task_id, task_request_id, task_input, task_output, task_state, task_service, task_date_created,
  the_number, the_first, the_second,
}
use scheduler.Repository.{where_select, first_id, server_error}

abbrev pub task_columns : List String
task_columns = "request_id" ∷ "input" ∷ "output" ∷ "state" ∷ "service" ∷ "date_created" ∷ []

-- A new task has state 0 and the time of its insertion.
abbrev pub new_task_values : ℕ → AsyncTask → List Value
new_task_values now t =
    text t.request_id ∷ text t.input ∷ text t.output ∷ number 0 ∷ text t.service ∷ time now ∷ []

module _ {D : Type 0} (l : Store D) where
  -- The ids of a batch up to the one that LastInsertId gives.
  abbrev pub ids_to : ℕ → D → String ⊎ ℕ → Outcome GenericError (List ℕ) × D
  ids_to n db (inl e) = (server_error e, db)
  ids_to n db (inr last) = (signed_range (first_id last n) last, db)

  abbrev pub inserted_ids : ℕ → D → String ⊎ Executed D → Outcome GenericError (List ℕ) × D
  inserted_ids n db (inl e) = (server_error e, db)
  inserted_ids n db (inr x) = ids_to n x.db x.last_insert_id

  abbrev pub insert_tasks : ℕ → Bool → List AsyncTask → D → Outcome GenericError (List ℕ) × D
  insert_tasks now committed [] db = (panics, db)
  insert_tasks now committed (t ∷ ts) db =
      inserted_ids (length (t ∷ ts)) db (
        l.exec (insert (async_table committed) task_columns (map (new_task_values now) (t ∷ ts)))
          db)

  -- Exec gives a result where it gives no error.
  unfoldable pub batch_insert_tasks :
      ℕ → List AsyncTask → Bool → D → Outcome GenericError (List ℕ) × D
  unfolding signed_range each_insert batch
  batch_insert_tasks now tasks committed db =
      each_insert (insert_tasks now committed) (batch tasks 5) db

  abbrev pub written_ids : ℕ → (String ⊎ Option FsmResponse) × D → Outcome GenericError (List ℕ) × D
  written_ids n (inl e, db) = (server_error e, db)
  written_ids n (inr none, db) = (err (http_error 503 "service is unavailable"), db)
  written_ids n (inr (some r), db) =
      (unsigned_range (first_id r.last_inserted_id n) r.last_inserted_id, db)

  abbrev pub raft_insert_tasks : ℕ → ℕ → List AsyncTask → D → Outcome GenericError (List ℕ) × D
  raft_insert_tasks now node_id [] db = (panics, db)
  raft_insert_tasks now node_id (t ∷ ts) db = written_ids (length (t ∷ ts)) (
      l.write (insert "async_tasks_committed" task_columns (map (new_task_values now) (t ∷ ts)))
        (node_id ∷ []) command_action_queue_job db)

  unfoldable pub raft_batch_insert_tasks :
      ℕ → List AsyncTask → ℕ → D → Outcome GenericError (List ℕ) × D
  unfolding unsigned_range each_insert batch
  raft_batch_insert_tasks now tasks node_id db =
      each_insert (raft_insert_tasks now node_id) (batch tasks 6) db

  -- The error that is tested is that of ToSql, which has none to give: that of the write is lost.
  unfoldable pub raft_update_state :
      AsyncTask → ℕ → String → D → Outcome GenericError (Unit {0}) × D
  raft_update_state task state output db =
      let written =
        l.write
          (update "async_tasks_committed" (("state", number state) ∷ ("output", text output) ∷ [])
            (is "id" (number task.id)))
          [] 0 db in
      (ok tt, written.1)

  abbrev pub db_after : D → String ⊎ Executed D → D
  db_after db (inl e) = db
  db_after db (inr x) = x.db

  unfoldable pub update_state : AsyncTask → ℕ → String → D → Outcome GenericError (Unit {0}) × D
  update_state task state output db = (
    ok tt,
    db_after db (
        l.exec
          (update "async_tasks_uncommitted" (("state", number state) ∷ ("output", text output) ∷ [])
            (is "id" (number task.id)))
          db),
  )

  abbrev pub all_columns : List String
  all_columns = "id" ∷ task_columns

  abbrev pub task_setters : List (Setter AsyncTask)
  task_setters =
      task_id l
      ∷ task_request_id l
      ∷ task_input l
      ∷ task_output l
      ∷ task_state l
      ∷ task_service l
      ∷ task_date_created l
      ∷ []

  abbrev pub task_with_id : Bool → ℕ → Select
  task_with_id committed id =
      where_select all_columns (async_table committed ∷ []) (is "id" (number id) ∷ []) ""

  abbrev pub found_task : One AsyncTask → Ended → Outcome GenericError AsyncTask
  found_task o (query_failed e) = server_error e
  found_task o (scan_failed e) = server_error e
  found_task o (rows_failed e) = server_error e
  found_task o whole = ok o.value

  -- Without a row, the task of the answer is empty.
  unfoldable pub get_task_by_id : ℕ → D → Outcome GenericError AsyncTask
  unfolding read_one
  get_task_by_id id db =
      let o =
        read_one l task_setters no_async_task (union (task_with_id true id) (task_with_id false id))
          db in
      found_task o o.ended

  abbrev pub min_max_ids : RowsRead (ℕ × ℕ) → ℕ × ℕ
  min_max_ids (no_query e) = (0, 0)
  min_max_ids (no_scan e) = (0, 0)
  min_max_ids (no_rows e xs close) = (0, 0)
  min_max_ids (all_rows xs close) = last_or (0, 0) xs

  -- getAsyncTasksMinMaxIds. An error of Scan is not looked at.
  unfoldable pub get_async_tasks_min_max_ids : Bool → D → ℕ × ℕ
  unfolding read_over
  get_async_tasks_min_max_ids committed db = min_max_ids (
      read_over l (the_first l ∷ the_second l ∷ []) (0, 0)
        (select (where_select ("min(id)" ∷ "max(id)" ∷ []) (async_table committed ∷ []) [] "") [])
        db)

  abbrev pub the_count : RowsRead ℕ → ℕ
  the_count (no_query e) = 0
  the_count (no_scan e) = 0
  the_count (no_rows e xs close) = 0
  the_count (all_rows xs close) = last_or 0 xs

  -- countAsyncTasks; GetAllTasks only reserves this many places.
  unfoldable pub count_async_tasks : Bool → D → ℕ
  unfolding read_over
  count_async_tasks committed db = the_count (
      read_over l (the_number l ∷ []) 0
        (select (where_select ("count(*)" ∷ []) (async_table committed ∷ []) [] "") []) db)

  abbrev pub all_closed : RowsRead AsyncTask → Outcome GenericError (List AsyncTask)
  all_closed (no_query e) = server_error e
  all_closed (no_scan e) = server_error e
  all_closed (no_rows e xs close) = server_error e
  all_closed (all_rows xs (some e)) = server_error e
  all_closed (all_rows xs none) = ok xs

  abbrev pub get_tasks_batch : Bool → D → List ℕ → Outcome GenericError (List AsyncTask)
  get_tasks_batch committed db [] = panics
  get_tasks_batch committed db (id ∷ ids) = all_closed (
      read l task_setters no_async_task
        (select
          (where_select all_columns (async_table committed ∷ [])
            (within "id" (map number (id ∷ ids)) ∷ []) "")
          [])
        db)

  unfoldable pub get_all_tasks : Bool → D → Outcome GenericError (List AsyncTask)
  unfolding get_async_tasks_min_max_ids expand_ids_range read each_read batch
  get_all_tasks committed db =
      let bounds = get_async_tasks_min_max_ids committed db in
      and_then_ok (expand_ids_range bounds.0 bounds.1)
        (λ ids. each_read (get_tasks_batch committed db) (batch ids 7))
