-- ===== src/Models.antt =====
-- pkg/models: the records that the components exchange. A uint64 field is a number below 2 ^ 64.
-- A time.Time is the number of nanoseconds since its zero value, so that `IsZero` is a test for 0.
use scheduler.Base.{ℕ, String, Bool, false, List}

-- pkg/models/job.go
pub record Job : Type 0 where
  pub id : ℕ
  pub project_id : ℕ
  pub spec : String
  pub callback_url : String
  pub data_text : String
  pub execution_type : String
  pub start_date : ℕ
  pub end_date : ℕ
  pub last_execution_date : ℕ
  pub timezone : String
  pub timezone_offset : ℕ
  pub execution_id : String
  pub date_created : ℕ

-- pkg/models/job_execution_log.go. A state is a uint64, read from the database.
abbrev pub execution_log_schedule_state : ℕ
execution_log_schedule_state = 0

abbrev pub execution_log_success_state : ℕ
execution_log_success_state = 1

abbrev pub execution_log_failed_state : ℕ
execution_log_failed_state = 2

pub record JobExecutionLog : Type 0 where
  pub id : ℕ
  pub unique_id : String
  pub state : ℕ
  pub node_id : ℕ
  pub last_execution_datetime : ℕ
  pub next_execution_datetime : ℕ
  pub job_id : ℕ
  pub job_queue_version : ℕ
  pub execution_version : ℕ
  pub data_created : ℕ

pub record MemJobExecution : Type 0 where
  pub execution_version : ℕ
  pub fail_count : ℕ
  pub last_state : ℕ
  pub last_execution_datetime : ℕ
  pub next_execution_datetime : ℕ

-- pkg/models/job_schedule.go
pub record JobSchedule : Type 0 where
  pub job : Job
  pub execution_time : ℕ

-- pkg/models/job_queues.go
pub record JobQueueLog : Type 0 where
  pub id : ℕ
  pub node_id : ℕ
  pub lower_bound_job_id : ℕ
  pub upper_bound_job_id : ℕ
  pub version : ℕ
  pub date_created : ℕ

-- pkg/models/async_task.go
abbrev pub async_task_not_stated : ℕ
async_task_not_stated = 0

abbrev pub async_task_in_progress : ℕ
async_task_in_progress = 1

abbrev pub async_task_success : ℕ
async_task_success = 2

abbrev pub async_task_fail : ℕ
async_task_fail = 3

pub record AsyncTask : Type 0 where
  pub id : ℕ
  pub request_id : String
  pub input : String
  pub output : String
  pub service : String
  pub state : ℕ
  pub date_created : ℕ

-- pkg/models/project.go
pub record Project : Type 0 where
  pub id : ℕ
  pub name : String
  pub description : String
  pub date_created : ℕ

-- pkg/models/credential.go
pub record Credential : Type 0 where
  pub id : ℕ
  pub archived : Bool
  pub api_key : String
  pub api_secret : String
  pub date_created : ℕ

-- pkg/models/local_data.go
pub record LocalData : Type 0 where
  pub async_tasks : List AsyncTask
  pub execution_logs : List JobExecutionLog

-- pkg/models/peer_fan_in_state.go
abbrev pub peer_fan_in_state_not_stated : ℕ
peer_fan_in_state_not_stated = 0

abbrev pub peer_fan_in_state_get_request_id : ℕ
peer_fan_in_state_get_request_id = 1

abbrev pub peer_fan_in_state_get_executions_logs : ℕ
peer_fan_in_state_get_executions_logs = 2

pub record PeerFanIn : Type 0 where
  pub peer_http_address : String
  pub request_id : String
  pub state : ℕ
  pub data_sent : LocalData

-- The values of `models.JobExecutionLog{}` and its like.
abbrev pub no_job_execution_log : JobExecutionLog
no_job_execution_log = record {
  id = 0;
  unique_id = "";
  state = 0;
  node_id = 0;
  last_execution_datetime = 0;
  next_execution_datetime = 0;
  job_id = 0;
  job_queue_version = 0;
  execution_version = 0;
  data_created = 0;
}

abbrev pub no_async_task : AsyncTask
no_async_task = record {
  id = 0;
  request_id = "";
  input = "";
  output = "";
  service = "";
  state = 0;
  date_created = 0;
}

abbrev pub no_job : Job
no_job = record {
  id = 0;
  project_id = 0;
  spec = "";
  callback_url = "";
  data_text = "";
  execution_type = "";
  start_date = 0;
  end_date = 0;
  last_execution_date = 0;
  timezone = "";
  timezone_offset = 0;
  execution_id = "";
  date_created = 0;
}

abbrev pub no_job_queue_log : JobQueueLog
no_job_queue_log = record {
  id = 0;
  node_id = 0;
  lower_bound_job_id = 0;
  upper_bound_job_id = 0;
  version = 0;
  date_created = 0;
}

abbrev pub no_project : Project
no_project = record { id = 0; name = ""; description = ""; date_created = 0 }

abbrev pub no_credential : Credential
no_credential = record { id = 0; archived = false; api_key = ""; api_secret = ""; date_created = 0 }
