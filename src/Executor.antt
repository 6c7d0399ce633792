-- ===== src/Executor.antt =====
-- pkg/service/executor/executor.go: the state of a job executor, and what it takes from outside.
-- A handler holds the mutex, so it is one function from state to state.
pub mod Schedule
pub mod Results
pub mod Invoke
pub mod Fetch
pub mod Examples
use scheduler.Base.{
  ℕ, Bool, true, false, if◌then◌else◌, comparable_uint, List, [], ◌++◌, ◌∷◌, Option, none, some,
  String,
}
use scheduler.Base.Maps.{Map, store}
use scheduler.Models.{Job, JobExecutionLog, MemJobExecution, JobSchedule}
use scheduler.NextRun.{World, get_next_execution_time}

-- A call of BatchInsert (`committed` false: the node's own table) or, in single node mode, of
-- LogJobExecutionStateInRaft.
pub record Write : Type 0 where
  pub committed : Bool
  pub jobs : List Job
  pub node_id : ℕ
  pub state : ℕ
  pub job_queue_version : ℕ
  pub execution_versions : Map ℕ ℕ

-- jobExecutor. The two sync.Maps, the pending invocations, and the writes made so far.
pub record JobExecutor : Type 0 where
  pub single_node_mode : Bool
  pub scheduled_jobs : Map ℕ JobSchedule
  pub job_executions_cache : Map ℕ MemJobExecution
  pub pending_job_invocations : List Job
  pub writes : List Write

-- What a handler reads: the world of the schedules, the node's configuration and the repositories
-- (GetLastExecutionLogForJobIds, CountLastFailedExecutionLogs, GetLastVersion).
pub record Context : Type 0 where
  pub world : World
  pub node_id : ℕ
  pub job_execution_retry_max : ℕ
  pub last_logs : List ℕ → Map ℕ JobExecutionLog
  pub count_last_failed : ℕ → ℕ → ℕ → ℕ
  pub last_version : ℕ

abbrev pub put_schedule : Job → Option ℕ → JobExecutor → JobExecutor
put_schedule job none e = e
put_schedule job (some t) e = record e {
  scheduled_jobs = store job.id (record { job = job; execution_time = t }) e.scheduled_jobs;
}

-- AddJobSchedule: on an error it logs and changes nothing.
unfoldable pub add_job_schedule : World → Job → JobExecutor → JobExecutor
add_job_schedule w job e = put_schedule job (get_next_execution_time w job) e

-- jobExecutionsCache.Store(id, …)
abbrev pub cache : ℕ → MemJobExecution → JobExecutor → JobExecutor
cache id mem e = record e { job_executions_cache = store id mem e.job_executions_cache }

abbrev pub written : Context → Bool → List Job → ℕ → Map ℕ ℕ → JobExecutor → JobExecutor
written c committed jobs state versions e = record e {
  writes =
      e.writes
      ++ record {
        committed = committed;
        jobs = jobs;
        node_id = c.node_id;
        state = state;
        job_queue_version = c.last_version;
        execution_versions = versions;
      }
        ∷ [];
}

-- The two writes at the end of a handler: BatchInsert, and in single node mode the raft log too.
abbrev pub write_logs : Context → List Job → ℕ → Map ℕ ℕ → JobExecutor → JobExecutor
write_logs c jobs state versions e =
    if e.single_node_mode
    then written c true jobs state versions (written c false jobs state versions e)
    else written c false jobs state versions e
