-- ===== src/Repository/JobExecution/Raft.antt =====
-- The logs of executions that pkg/repository/job_execution/job_executions.go writes to the raft log.
use scheduler.Base.{ℕ, List, [], ◌∷◌, map, none, some, comparable_uint}
use scheduler.Base.Maps.{Map, lookup}
use scheduler.Models.{Job, JobExecutionLog}
use scheduler.NextRun.{World, get_next_execution_time}
use scheduler.Batch.{batch}
use scheduler.RaftLog.{command_action_clean_uncommitted_execution_logs}
use scheduler.Sql.{Value, text, number, time, insert, Store}
use scheduler.Repository.JobExecution.{executed_version, execution_columns}

abbrev pub committed_values : JobExecutionLog → List Value
committed_values log =
    text log.unique_id
    ∷ number log.state
    ∷ number log.node_id
    ∷ time log.last_execution_datetime
    ∷ time log.next_execution_datetime
    ∷ number log.job_id
    ∷ number log.job_queue_version
    ∷ time log.data_created
    ∷ number log.execution_version
    ∷ []

module _ {D : Type 0} (l : Store D) where
  -- The answer of WriteCommandToRaftLog is not looked at.
  unfoldable pub write_batches : ℕ → List (List JobExecutionLog) → D → D
  write_batches node_id [] db = db
  write_batches node_id (b ∷ bs) db =
      write_batches node_id bs
        (l.write (insert "job_executions_committed" execution_columns (map committed_values b))
          (node_id ∷ []) command_action_clean_uncommitted_execution_logs db).1

  unfoldable pub raft_insert_execution_logs : List JobExecutionLog → ℕ → D → D
  unfolding write_batches batch
  raft_insert_execution_logs [] node_id db = db
  raft_insert_execution_logs (log ∷ logs) node_id db =
      write_batches node_id (batch (log ∷ logs) 9) db

abbrev pub state_log : World → ℕ → Map ℕ ℕ → ℕ → ℕ → Job → ℕ → JobExecutionLog
state_log w state versions version node_id job next = record {
  id = 0;
  unique_id = job.execution_id;
  state = state;
  node_id = node_id;
  last_execution_datetime = job.last_execution_date;
  next_execution_datetime = next;
  job_id = job.id;
  job_queue_version = version;
  execution_version = executed_version (lookup job.id versions);
  data_created = w.now;
}

-- A job without a next time is skipped.
unfoldable pub state_logs : World → ℕ → Map ℕ ℕ → ℕ → ℕ → List Job → List JobExecutionLog
unfolding get_next_execution_time lookup
state_logs w state versions version node_id [] = []
state_logs w state versions version node_id (job ∷ jobs) =
    let rest = state_logs w state versions version node_id jobs in
    elim (get_next_execution_time w job) [
      | none ↦ rest
      | some next ↦ state_log w state versions version node_id job next ∷ rest
    ]

module _ {D : Type 0} (l : Store D) where
  unfoldable pub log_job_execution_state_in_raft : World → List Job → ℕ → Map ℕ ℕ → ℕ → ℕ → D → D
  unfolding raft_insert_execution_logs state_logs
  log_job_execution_state_in_raft w jobs state versions version node_id db =
      raft_insert_execution_logs l (state_logs w state versions version node_id jobs) node_id db
