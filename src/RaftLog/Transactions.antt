-- ===== src/RaftLog/Transactions.antt =====
-- What a command does to the database of a node.
use scheduler.Base.{ℕ, ◌≡◌, ◌⊎◌, inl, inr, String, comparable_string}
use scheduler.RaftLog.{Command, FsmResponse, Executed, Library, error_response}

-- What a committed command answers: the id of the last row and the number of rows as the driver gives them,
-- or an error if it gives one of them not.
abbrev pub IsAnswer : {D : Type 0} → Executed D → FsmResponse → Type 0
IsAnswer x r =
    ((id : ℕ) × (rows : ℕ) × (x.last_insert_id ≡ inr id)
      × (x.rows_affected ≡ inr rows)
      × (r.last_inserted_id ≡ id)
      × (r.rows_affected ≡ rows)
      × (r.error ≡ ""))
    ⊎ ((text : String) × ((x.last_insert_id ≡ inl text) ⊎ (x.rows_affected ≡ inl text))
        × (late : String) × (r ≡ error_response late))

-- Either the database is as it was and the response is an error, or the statement was executed and
-- committed on the parameters as they are decoded, and the response is what the driver says about it.
abbrev pub IsAtomic : {P D : Type 0} → Library P D → Command → D → FsmResponse × D → Type 0
IsAtomic {P} {D} l c db r =
    ((text : String) × (r.0 ≡ error_response text) × (r.1 ≡ db))
    ⊎ ((params : P) × (x : Executed D) × (l.params_of_json c.data_bytes ≡ inr params)
        × (l.exec c.sql params db ≡ inr x)
        × (r.1 ≡ x.db)
        × IsAnswer x r.0)
