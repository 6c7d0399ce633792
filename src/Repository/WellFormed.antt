-- ===== src/Repository/WellFormed.antt =====
-- The INSERTs that the repositories give to the raft log.
use scheduler.Base.{
  ℕ, suc, ◌*◌, ◌<◌, ◌≤◌, ◌≡◌, ◌≢◌, refl, ap, List, [], ◌∷◌, map, length, All, arith,
}
use scheduler.Models.{JobExecutionLog, JobQueueLog}
use scheduler.Batch.{batch, db_max_variable_size}
use scheduler.Batch.Sizes.{batch_fits}
use scheduler.RaftLog.{command_action_clean_uncommitted_execution_logs, command_action_queue_job}
use scheduler.Sql.{Statement, insert, update, remove, Store}
use scheduler.Repository.JobExecution.{execution_columns}
use scheduler.Repository.JobExecution.Raft.{
  committed_values, write_batches, raft_insert_execution_logs,
}
use scheduler.Repository.JobQueue.{
  queue_columns, queue_log_values, write_queue_batches, insert_job_queue_logs,
}

-- An INSERT has a row at least, as many values in each row as columns, and no more parameters than
-- sqlite takes.
abbrev pub IsWellFormed : Statement → Type 0
IsWellFormed (insert t cs vss) =
    (0 < length vss)
    × All (λ vs. length vs ≡ length cs) vss
    × (length vss * length cs ≤ db_max_variable_size)
IsWellFormed (update t sets c) = 0 < length sets
IsWellFormed (remove t c) = Unit

length-map : {A B : Type 0} (f : A → B) (xs : List A) → length (map f xs) ≡ length xs
length-map f [] = refl
length-map f (x ∷ xs) = ap suc (length-map f xs)

committed_values-width :
    (logs : List JobExecutionLog)
    → All (λ vs. length vs ≡ length execution_columns) (map committed_values logs)
committed_values-width [] = tt
committed_values-width (log ∷ logs) = (refl, committed_values-width logs)

queue_log_values-width :
    (now : ℕ) (logs : List JobQueueLog)
    → All (λ vs. length vs ≡ length queue_columns) (map (queue_log_values now) logs)
queue_log_values-width now [] = tt
queue_log_values-width now (log ∷ logs) = (refl, queue_log_values-width now logs)

-- What the writes of well-formed statements keep.
module _ {D : Type 0} (l : Store D) (P : D → Type 0)
    (keeps : (s : Statement) (nodes : List ℕ) (action : ℕ) (db : D)
      → IsWellFormed s
      → P db
      → P (l.write s nodes action db).1) where
  write_batches-keeps :
      (node_id : ℕ) (bs : List (List JobExecutionLog)) (db : D)
      → All (λ b. (0 < length b) × (length b * 9 ≤ db_max_variable_size)) bs
      → P db
      → P (write_batches l node_id bs db)
  unfolding write_batches
  write_batches-keeps node_id [] db fits h = h
  write_batches-keeps node_id (b ∷ bs) db fits h =
      let size = length-map committed_values b in
      write_batches-keeps node_id bs _ fits.1 (
        keeps (insert "job_executions_committed" execution_columns (map committed_values b))
          (node_id ∷ []) command_action_clean_uncommitted_execution_logs db
          (omega (arith, fits.0.0, size), committed_values-width b, omega (arith, fits.0.1, size))
          h)

  -- Whatever every write of a well-formed statement keeps, RaftInsertExecutionLogs keeps: it writes
  -- INSERTs of one row at least, with a value for each column, and with at most DBMaxVariableSize
  -- parameters. The logs may be none.
  pub raft_insert_execution_logs-IsWellFormed :
      (logs : List JobExecutionLog) (node_id : ℕ) (db : D)
      → P db
      → P (raft_insert_execution_logs l logs node_id db)
  unfolding raft_insert_execution_logs
  raft_insert_execution_logs-IsWellFormed [] node_id db h = h
  raft_insert_execution_logs-IsWellFormed (log ∷ logs) node_id db h =
      write_batches-keeps node_id (batch (log ∷ logs) 9) db
        (batch_fits (log ∷ logs) 9 (omega arith) (omega arith) (λ e. cc)) h

  write_queue_batches-keeps :
      (now : ℕ) (bs : List (List JobQueueLog)) (db : D)
      → All (λ b. (0 < length b) × (length b * 5 ≤ db_max_variable_size)) bs
      → P db
      → P (write_queue_batches l now bs db)
  unfolding write_queue_batches
  write_queue_batches-keeps now [] db fits h = h
  write_queue_batches-keeps now (b ∷ bs) db fits h =
      let size = length-map (queue_log_values now) b in
      write_queue_batches-keeps now bs _ fits.1 (
        keeps (insert "job_queues" queue_columns (map (queue_log_values now) b))
          (map (λ log. log.node_id) b) command_action_queue_job db
          (
            omega (arith, fits.0.0, size),
            queue_log_values-width now b,
            omega (arith, fits.0.1, size),
          )
          h)

  -- Whatever every write of a well-formed statement keeps, InsertJobQueueLogs keeps, for one log at
  -- least.
  pub insert_job_queue_logs-IsWellFormed :
      (now : ℕ) (logs : List JobQueueLog) (db : D)
      → logs ≢ []
      → P db
      → P (insert_job_queue_logs l now logs db)
  unfolding insert_job_queue_logs
  insert_job_queue_logs-IsWellFormed now logs db any h =
      write_queue_batches-keeps now (batch logs 5) db
        (batch_fits logs 5 (omega arith) (omega arith) any) h
