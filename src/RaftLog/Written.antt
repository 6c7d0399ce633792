-- ===== src/RaftLog/Written.antt =====
-- A command from WriteCommandToRaftLog through the raft log to the database of a node.
use scheduler.Base.{◌≡◌, ◌⊎◌, inl, inr, Option, none, some, String}
use scheduler.RaftLog.{
  Command, FsmResponse, Executed, Library, Applied, response, no_response, error_response,
}

-- The statement was executed on the parameters that its json decodes to, and committed.
pub record IsCommitted {P D : Type 0} (l : Library P D) (c : Command) (db db' : D) (x : Executed D)
    : Type 0 where
  pub params : P
  pub decoded : l.params_of_json c.data_bytes ≡ inr params
  pub ran : l.exec c.sql params db ≡ inr x
  pub result : db' ≡ x.db

-- What the caller may conclude from the answer to a command on a database that then is `db'`: no error
-- means that the statement is committed, and that the answer has the last id and the number of rows of the
-- driver; an error, that the database is as it was, or that the driver had no last id or number of rows for
-- the committed statement. An error without a text cannot be told from an answer.
abbrev pub IsWritten :
    {P D : Type 0} → Library P D → Command → D → String ⊎ Option FsmResponse → D → Type 0
IsWritten {D = D} l c db (inl text) db' =
    (db' ≡ db)
    ⊎ ((x : Executed D) × IsCommitted l c db db' x
        × (late : String) × ((x.last_insert_id ≡ inl late) ⊎ (x.rows_affected ≡ inl late)))
IsWritten l c db (inr none) db' = ⊥
IsWritten {D = D} l c db (inr (some r)) db' =
    ((x : Executed D) × IsCommitted l c db db' x
      × (x.last_insert_id ≡ inr r.last_inserted_id)
      × (x.rows_affected ≡ inr r.rows_affected))
    ⊎ (r ≡ error_response "")

abbrev pub answer : Option FsmResponse → Applied
answer none = no_response
answer (some r) = response r
