-- ===== src/Sql/Fields.antt =====
-- The fields that Rows.Scan fills, one for each column.
use scheduler.Base.{ℕ}
use scheduler.Models.{JobExecutionLog, AsyncTask, Job, JobQueueLog, Project, Credential}
use scheduler.Sql.Values.{Store}
use scheduler.Sql.Reads.{Setter, set_number, set_text, set_time, set_flag}

module _ {D : Type 0} (l : Store D) where
  abbrev pub log_id : Setter JobExecutionLog
  log_id = set_number l (λ v a. record a { id = v })

  abbrev pub log_unique_id : Setter JobExecutionLog
  log_unique_id = set_text l (λ v a. record a { unique_id = v })

  abbrev pub log_state : Setter JobExecutionLog
  log_state = set_number l (λ v a. record a { state = v })

  abbrev pub log_node_id : Setter JobExecutionLog
  log_node_id = set_number l (λ v a. record a { node_id = v })

  abbrev pub log_last_execution_datetime : Setter JobExecutionLog
  log_last_execution_datetime = set_time l (λ v a. record a { last_execution_datetime = v })

  abbrev pub log_next_execution_datetime : Setter JobExecutionLog
  log_next_execution_datetime = set_time l (λ v a. record a { next_execution_datetime = v })

  abbrev pub log_job_id : Setter JobExecutionLog
  log_job_id = set_number l (λ v a. record a { job_id = v })

  abbrev pub log_job_queue_version : Setter JobExecutionLog
  log_job_queue_version = set_number l (λ v a. record a { job_queue_version = v })

  abbrev pub log_execution_version : Setter JobExecutionLog
  log_execution_version = set_number l (λ v a. record a { execution_version = v })

  abbrev pub log_data_created : Setter JobExecutionLog
  log_data_created = set_time l (λ v a. record a { data_created = v })

  abbrev pub task_id : Setter AsyncTask
  task_id = set_number l (λ v a. record a { id = v })

  abbrev pub task_request_id : Setter AsyncTask
  task_request_id = set_text l (λ v a. record a { request_id = v })

  abbrev pub task_input : Setter AsyncTask
  task_input = set_text l (λ v a. record a { input = v })

  abbrev pub task_output : Setter AsyncTask
  task_output = set_text l (λ v a. record a { output = v })

  abbrev pub task_state : Setter AsyncTask
  task_state = set_number l (λ v a. record a { state = v })

  abbrev pub task_service : Setter AsyncTask
  task_service = set_text l (λ v a. record a { service = v })

  abbrev pub task_date_created : Setter AsyncTask
  task_date_created = set_time l (λ v a. record a { date_created = v })

  abbrev pub job_id : Setter Job
  job_id = set_number l (λ v a. record a { id = v })

  abbrev pub job_project_id : Setter Job
  job_project_id = set_number l (λ v a. record a { project_id = v })

  abbrev pub job_spec : Setter Job
  job_spec = set_text l (λ v a. record a { spec = v })

  abbrev pub job_callback_url : Setter Job
  job_callback_url = set_text l (λ v a. record a { callback_url = v })

  abbrev pub job_execution_type : Setter Job
  job_execution_type = set_text l (λ v a. record a { execution_type = v })

  abbrev pub job_date_created : Setter Job
  job_date_created = set_time l (λ v a. record a { date_created = v })

  abbrev pub job_timezone : Setter Job
  job_timezone = set_text l (λ v a. record a { timezone = v })

  abbrev pub job_timezone_offset : Setter Job
  job_timezone_offset = set_number l (λ v a. record a { timezone_offset = v })

  abbrev pub job_data : Setter Job
  job_data = set_text l (λ v a. record a { data_text = v })

  abbrev pub queue_id : Setter JobQueueLog
  queue_id = set_number l (λ v a. record a { id = v })

  abbrev pub queue_node_id : Setter JobQueueLog
  queue_node_id = set_number l (λ v a. record a { node_id = v })

  abbrev pub queue_lower_bound_job_id : Setter JobQueueLog
  queue_lower_bound_job_id = set_number l (λ v a. record a { lower_bound_job_id = v })

  abbrev pub queue_upper_bound_job_id : Setter JobQueueLog
  queue_upper_bound_job_id = set_number l (λ v a. record a { upper_bound_job_id = v })

  abbrev pub queue_version : Setter JobQueueLog
  queue_version = set_number l (λ v a. record a { version = v })

  abbrev pub queue_date_created : Setter JobQueueLog
  queue_date_created = set_time l (λ v a. record a { date_created = v })

  abbrev pub project_id : Setter Project
  project_id = set_number l (λ v a. record a { id = v })

  abbrev pub project_name : Setter Project
  project_name = set_text l (λ v a. record a { name = v })

  abbrev pub project_description : Setter Project
  project_description = set_text l (λ v a. record a { description = v })

  abbrev pub project_date_created : Setter Project
  project_date_created = set_time l (λ v a. record a { date_created = v })

  abbrev pub credential_id : Setter Credential
  credential_id = set_number l (λ v a. record a { id = v })

  abbrev pub credential_archived : Setter Credential
  credential_archived = set_flag l (λ v a. record a { archived = v })

  abbrev pub credential_api_key : Setter Credential
  credential_api_key = set_text l (λ v a. record a { api_key = v })

  abbrev pub credential_api_secret : Setter Credential
  credential_api_secret = set_text l (λ v a. record a { api_secret = v })

  abbrev pub credential_date_created : Setter Credential
  credential_date_created = set_time l (λ v a. record a { date_created = v })

  abbrev pub the_number : Setter ℕ
  the_number = set_number l (λ v a. v)

  abbrev pub the_first : Setter (ℕ × ℕ)
  the_first = set_number l (λ v a. (v, a.1))

  abbrev pub the_second : Setter (ℕ × ℕ)
  the_second = set_number l (λ v a. (a.0, v))
