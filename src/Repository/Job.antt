-- ===== src/Repository/Job.antt =====
-- pkg/repository/job/job.go. ToSql has no error for the statements here, and the error of
-- WriteCommandToRaftLog comes without an answer.
pub mod Ids
pub mod Specs
use scheduler.Base.{
  ℕ, zero, suc, Bool, true, false, not, ◌&&◌, List, [], ◌∷◌, map, Option, none, some, ◌⊎◌, inl, inr,
  String, ◌==◌, length, if◌then◌else◌, comparable_string,
}
use scheduler.Models.{Job, no_job}
use scheduler.Batch.{batch}
use scheduler.RaftLog.{FsmResponse}
use scheduler.Sql.{
  Value, text, number, time, Condition, is, within, between, Select, select, insert, update, remove,
  Store, GenericError, http_error, Outcome, ok, err, panics, and_then_ok, and_then_in,
  unsigned_range, Setter, RowsRead, no_query, no_scan, no_rows, all_rows, last_or, read, One, Ended,
  query_failed, scan_failed, rows_failed, whole, read_one, each_read, each_insert,
}
use scheduler.Sql.Fields.{
  job_id, job_project_id, job_spec, job_callback_url, job_execution_type, job_date_created,
  job_timezone, job_timezone_offset, job_data, the_number,
}
use scheduler.Repository.{
  where_select, first_id, server_error, served, served_rows_panic, served_count, answered_unchecked,
}

-- What a lookup by id leaves in the job. An error of the rows is read from a variable that is nil.
abbrev pub one_job : One Job → Ended → Outcome GenericError Job
one_job o (query_failed e) = server_error e
one_job o (scan_failed e) = server_error e
one_job o (rows_failed e) = panics
one_job o whole = elim (o.count) [
  | zero ↦ err (http_error 404 "job cannot be found")
  | suc n ↦ ok o.value
]

abbrev pub job_columns : List String
job_columns =
    "id" ∷ "project_id" ∷ "spec" ∷ "callback_url" ∷ "execution_type" ∷ "date_created" ∷ "timezone"
    ∷ "timezone_offset" ∷ "data" ∷ []

abbrev pub job_insert_columns : List String
job_insert_columns =
    "project_id" ∷ "spec" ∷ "callback_url" ∷ "execution_type" ∷ "date_created" ∷ "timezone"
    ∷ "timezone_offset" ∷ "data" ∷ []

abbrev pub new_job_values : ℕ → Job → List Value
new_job_values now job =
    number job.project_id
    ∷ text job.spec
    ∷ text job.callback_url
    ∷ text job.execution_type
    ∷ time now
    ∷ text job.timezone
    ∷ number job.timezone_offset
    ∷ text job.data_text
    ∷ []

-- The spec of a job is not updated: it is the stored one, or empty.
abbrev pub changes_spec : Job → Job → Bool
changes_spec stored job = not (stored.spec == job.spec) && not (job.spec == "")

abbrev pub project_jobs : ℕ → ℕ → ℕ → String → Select
project_jobs project_id offset limit order_by =
    record (where_select job_columns ("jobs" ∷ []) (is "project_id" (number project_id) ∷ [])
      order_by) { offset = some offset; limit = some limit }

module _ {D : Type 0} (l : Store D) where
  abbrev pub job_setters : List (Setter Job)
  job_setters =
      job_id l
      ∷ job_project_id l
      ∷ job_spec l
      ∷ job_callback_url l
      ∷ job_execution_type l
      ∷ job_date_created l
      ∷ job_timezone l
      ∷ job_timezone_offset l
      ∷ job_data l
      ∷ []

  -- GetOneByID, with the job as it is left where there is no error.
  unfoldable pub get_one_by_id : Job → D → Outcome GenericError Job
  unfolding read_one
  get_one_by_id job db =
      let o =
        read_one l job_setters job
          (select (where_select job_columns ("jobs" ∷ []) (is "id" (number job.id) ∷ []) "") [])
          db in
      one_job o o.ended

  abbrev pub read_jobs : Select → D → RowsRead Job
  read_jobs s db = read l job_setters no_job (select s []) db

  unfoldable pub batch_get_jobs_by_id : List ℕ → D → Outcome GenericError (List Job)
  unfolding read each_read batch
  batch_get_jobs_by_id ids db =
      each_read
        (λ b. served (
          read_jobs (where_select job_columns ("jobs" ∷ []) (within "id" (map number b) ∷ []) "")
            db))
        (batch ids 1)

  unfoldable pub batch_get_jobs_with_id_range : ℕ → ℕ → D → Outcome GenericError (List Job)
  unfolding read
  batch_get_jobs_with_id_range lower_bound upper_bound db = served (
      read_jobs
        (where_select job_columns ("jobs" ∷ [])
          (between "id" (number lower_bound) (number upper_bound) ∷ []) "")
        db)

  unfoldable pub get_all_by_project_id : ℕ → ℕ → ℕ → String → D → Outcome GenericError (List Job)
  unfolding read
  get_all_by_project_id project_id offset limit order_by db =
      served_rows_panic (read_jobs (project_jobs project_id offset limit order_by) db)

  abbrev pub update_stored : Job → Job → D → Outcome GenericError ℕ × D
  update_stored job stored db =
      if changes_spec stored job
      then (err (http_error 400 "cannot update cron spec"), db)
      else (let w =
            l.write
              (update "jobs"
                (("callback_url", text job.callback_url)
                  ∷ ("execution_type", text job.execution_type)
                  ∷ ("timezone", text job.timezone)
                  ∷ ("timezone_offset", number job.timezone_offset)
                  ∷ ("data", text job.data_text)
                  ∷ [])
                (is "id" (number job.id)))
              [] 0 db in
          (answered_unchecked (λ r. r.rows_affected) w.0, w.1))

  unfoldable pub update_one_by_id : Job → D → Outcome GenericError ℕ × D
  unfolding get_one_by_id
  update_one_by_id job db =
      and_then_in (get_one_by_id (record no_job { id = job.id }) db, db) (update_stored job)

  unfoldable pub delete_one_by_id : Job → D → Outcome GenericError ℕ × D
  delete_one_by_id job db =
      let w = l.write (remove "jobs" (is "id" (number job.id))) [] 0 db in
      (answered_unchecked (λ r. r.rows_affected) w.0, w.1)

  unfoldable pub get_jobs_total_count : D → Outcome GenericError ℕ
  unfolding read
  get_jobs_total_count db = served_count (
      read l (the_number l ∷ []) 0 (select (where_select ("count(*)" ∷ []) ("jobs" ∷ []) [] "") [])
        db)

  abbrev pub last_count : List ℕ → Outcome GenericError ℕ
  last_count counts = ok (last_or 0 counts)

  unfoldable pub get_jobs_total_count_by_project_id : ℕ → D → Outcome GenericError ℕ
  unfolding read
  get_jobs_total_count_by_project_id project_id db =
      and_then_ok
        (served (
          read l (the_number l ∷ []) 0
            (select
              (where_select ("count(*)" ∷ []) ("jobs" ∷ [])
                (is "project_id" (number project_id) ∷ []) "")
              [])
            db))
        last_count

  -- The total is that of the page, once there is no error.
  unfoldable pub get_jobs_paginated : ℕ → ℕ → ℕ → D → Outcome GenericError (List Job × ℕ)
  unfolding get_jobs_total_count_by_project_id get_all_by_project_id
  get_jobs_paginated project_id offset limit db =
      and_then_ok (get_jobs_total_count_by_project_id project_id db) (λ total.
        and_then_ok (get_all_by_project_id project_id offset limit "date_created" db)
          (λ jobs. ok (jobs, length jobs)))

  -- The last id is read from RowsAffected; without an answer its field is one of nil.
  abbrev pub written_job_ids :
      ℕ → (String ⊎ Option FsmResponse) × D → Outcome GenericError (List ℕ) × D
  written_job_ids n (inl e, db) = (server_error e, db)
  written_job_ids n (inr none, db) = (panics, db)
  written_job_ids n (inr (some r), db) =
      (unsigned_range (first_id r.rows_affected n) r.rows_affected, db)

  abbrev pub insert_jobs_batch : ℕ → List Job → D → Outcome GenericError (List ℕ) × D
  insert_jobs_batch now jobs db =
      written_job_ids (length jobs)
        (l.write (insert "jobs" job_insert_columns (map (new_job_values now) jobs)) [] 0 db)

  unfoldable pub batch_insert_jobs : ℕ → List Job → D → Outcome GenericError (List ℕ) × D
  unfolding unsigned_range each_insert batch
  batch_insert_jobs now jobs db = each_insert (insert_jobs_batch now) (batch jobs 8) db
