-- ===== src/RaftLog.antt =====
-- pkg/fsm/fsm_actions.go, and Apply and ApplyBatch of pkg/fsm/fsm_store.go: a command is written to the
-- raft log, and applied to the database of each node. An error is its text.
pub mod Transactions
pub mod Written
pub mod Replicas
mod Examples
use scheduler.Base.{
  ℕ, Bool, true, false, ◌&&◌, ◌||◌, not, List, [], ◌∷◌, ◌++◌, Option, none, some, ◌⊎◌, inl, inr,
  String, nat_beq, ◌==◌, if◌then◌else◌, comparable_string,
}

-- protobuffs.Command
pub record Command : Type 0 where
  pub type : ℕ
  pub sql : String
  pub data_bytes : List ℕ
  pub target_nodes : List ℕ
  pub target_action : ℕ

-- models.FSMResponse with its SQLResponse
pub record FsmResponse : Type 0 where
  pub rows_affected : ℕ
  pub last_inserted_id : ℕ
  pub error : String

-- models.PostProcess
pub record PostProcess : Type 0 where
  pub action : ℕ
  pub target_nodes : List ℕ
  pub rows_affected : ℕ
  pub last_inserted_id : ℕ

-- The result of Exec in a transaction: the database with the statement done, and what the driver
-- answers to LastInsertId and RowsAffected.
pub record Executed (D : Type 0) : Type 0 where
  pub db : D
  pub last_insert_id : String ⊎ ℕ
  pub rows_affected : String ⊎ ℕ

-- encoding/json and protobuf, the transactions of database/sql on a database `D` with parameters `P`, which
-- need not be decoded as what was encoded: a number becomes a float64, a time a string. Rollback of a
-- transaction that began on a database leaves some database; after Commit it only has an error to give.
pub record Library (P D : Type 0) : Type 0 where
  pub params_to_json : P → String ⊎ List ℕ
  pub params_of_json : List ℕ → String ⊎ P
  pub command_to_bytes : Command → String ⊎ List ℕ
  pub command_of_bytes : List ℕ → String ⊎ Command
  pub begin_tx : D → Option String
  pub exec : String → P → D → String ⊎ Executed D
  pub commit : D → Option String
  pub roll_back : D → Option String × D
  pub roll_back_committed : D → Option String

abbrev pub command_action_queue_job : ℕ
command_action_queue_job = 0

abbrev pub command_action_clean_uncommitted_async_tasks_logs : ℕ
command_action_clean_uncommitted_async_tasks_logs = 1

abbrev pub command_action_clean_uncommitted_execution_logs : ℕ
command_action_clean_uncommitted_execution_logs = 2

abbrev pub error_response : String → FsmResponse
error_response text = record { rows_affected = 0; last_inserted_id = 0; error = text }

module _ {P D : Type 0} (l : Library P D) where
  -- After the commit: a rollback fails, or does nothing any more.
  abbrev pub late_error : D → String → FsmResponse
  late_error db text = elim (l.roll_back_committed db) [
    | none ↦ error_response text
    | some text' ↦ error_response text'
  ]

  abbrev pub respond_rows : D → ℕ → String ⊎ ℕ → FsmResponse
  respond_rows db id (inl text) = late_error db text
  respond_rows db id (inr rows) = record { rows_affected = rows; last_inserted_id = id; error = "" }

  abbrev pub respond_id : D → String ⊎ ℕ → String ⊎ ℕ → FsmResponse
  respond_id db (inl text) rows = late_error db text
  respond_id db (inr id) rows = respond_rows db id rows

  abbrev pub committed : D → Executed D → Option String → FsmResponse × D
  committed db x (some text) = (error_response text, db)
  committed db x none = (respond_id x.db x.last_insert_id x.rows_affected, x.db)

  -- Whether Rollback has an error makes no difference.
  abbrev pub executed : D → String ⊎ Executed D → FsmResponse × D
  executed db (inl text) = (error_response text, (l.roll_back db).1)
  executed db (inr x) = committed db x (l.commit x.db)

  -- The transaction of dbExecute.
  unfoldable pub transaction : String → P → D → FsmResponse × D
  transaction sql params db = elim (l.begin_tx db) [
    | some text ↦ (error_response text, db)
    | none ↦ executed db (l.exec sql params db)
  ]

  abbrev pub with_params : String → String ⊎ P → D → FsmResponse × D
  with_params sql (inl text) db = (error_response text, db)
  with_params sql (inr params) db = transaction sql params db

  -- dbExecute
  unfoldable pub db_execute : Command → D → FsmResponse × D
  unfolding transaction
  db_execute c db = with_params c.sql (l.params_of_json c.data_bytes) db

-- A raft.Log.
pub record Entry : Type 0 where
  pub is_configuration : Bool
  pub data_bytes : List ℕ

-- The database, and what was sent to postProcessChannel, if it is not nil.
pub record Node (D : Type 0) : Type 0 where
  pub db : D
  pub post_process_channel : Option (List PostProcess)

abbrev pub post_process : Command → FsmResponse → PostProcess
post_process c r = record {
  action = c.target_action;
  target_nodes = c.target_nodes;
  rows_affected = r.rows_affected;
  last_inserted_id = r.last_inserted_id;
}

-- The cases of the switch.
abbrev pub has_action : ℕ → Bool
has_action a =
    nat_beq a command_action_queue_job
    || nat_beq a command_action_clean_uncommitted_execution_logs
    || nat_beq a command_action_clean_uncommitted_async_tasks_logs

-- What the channel holds after a result; a nil channel stays nil.
abbrev pub notified :
    Bool → Command → FsmResponse → Option (List PostProcess) → Option (List PostProcess)
notified ignore c r none = none
notified ignore c r (some sent) =
    if not ignore && r.error == "" && has_action c.target_action
    then some (sent ++ post_process c r ∷ [])
    else some sent

module _ {P D : Type 0} (l : Library P D) where
  abbrev pub apply_command : Bool → String ⊎ Command → Node D → Option FsmResponse × Node D
  apply_command ignore (inl text) n = (some (error_response text), n)
  apply_command ignore (inr c) n =
      let r = db_execute l c n.db in
      (
        some r.0,
        record { db = r.1; post_process_channel = notified ignore c r.0 n.post_process_channel },
      )

  -- ApplyRaftLog; `none` is nil.
  unfoldable pub apply_raft_log : Bool → Entry → Node D → Option FsmResponse × Node D
  unfolding db_execute
  apply_raft_log ignore entry n =
      if entry.is_configuration
      then (none, n)
      else apply_command ignore (l.command_of_bytes entry.data_bytes) n

  -- Apply
  abbrev pub apply : Entry → Node D → Option FsmResponse × Node D
  apply entry n = apply_raft_log false entry n

  -- ApplyBatch
  unfoldable pub apply_batch : List Entry → Node D → List (Option FsmResponse) × Node D
  unfolding apply_raft_log
  apply_batch [] n = ([], n)
  apply_batch (entry ∷ entries) n =
      let r = apply_raft_log false entry n in let rs = apply_batch entries r.1 in (r.0 ∷ rs.0, rs.1)

-- What the future of raft.Apply gives: an error, or the response of the state machine, which may be of
-- another type.
pub data Applied : Type 0 where
  not_leader : Applied
  not_applied : String → Applied
  no_response : Applied
  response : FsmResponse → Applied
  unknown_response : Applied

-- A GenericError with status 500, or the response.
abbrev pub written_response : Applied → String ⊎ Option FsmResponse
written_response not_leader = inl "server not raft leader"
written_response (not_applied text) = inl text
written_response no_response = inr none
written_response unknown_response = inl "unknown raft response type"
written_response (response r) = if r.error == "" then inr (some r) else inl r.error

module _ {P D : Type 0} (l : Library P D) where
  abbrev pub command_of : ℕ → String → List ℕ → List ℕ → ℕ → Command
  command_of type sql bytes nodes action = record {
    type = type;
    sql = sql;
    data_bytes = bytes;
    target_nodes = nodes;
    target_action = action;
  }

  abbrev pub applied_bytes : (List ℕ → Applied) → String ⊎ List ℕ → String ⊎ Option FsmResponse
  applied_bytes rft (inl text) = inl text
  applied_bytes rft (inr bytes) = written_response (rft bytes)

  abbrev pub written_params :
      (List ℕ → Applied) → ℕ → String → List ℕ → ℕ → String ⊎ List ℕ → String ⊎ Option FsmResponse
  written_params rft type sql nodes action (inl text) = inl text
  written_params rft type sql nodes action (inr bytes) =
      applied_bytes rft (l.command_to_bytes (command_of type sql bytes nodes action))

  -- WriteCommandToRaftLog, with Apply of the raft library.
  unfoldable pub write_command_to_raft_log :
      (List ℕ → Applied) → ℕ → String → P → List ℕ → ℕ → String ⊎ Option FsmResponse
  write_command_to_raft_log rft type sql params nodes action =
      written_params rft type sql nodes action (l.params_to_json params)
