-- ===== src/Repository.antt =====
-- pkg/repository: the tables of a node. Locks of the connection are not modelled: a call is one step.
-- Its errors go to the caller as GenericErrors, or are logged.
pub mod JobExecution
pub mod JobQueue
pub mod AsyncTask
pub mod Job
pub mod Project
pub mod Credential
pub mod WellFormed
mod Examples
use scheduler.Base.{ℕ, ◌+◌, List, [], ◌∷◌, Option, none, some, ◌⊎◌, inl, inr, String}
use scheduler.Base.Words.{sub64, add64}
use scheduler.RaftLog.{FsmResponse}
use scheduler.Sql.{
  Value, Condition, Select, select, GenericError, http_error, Outcome, ok, err, panics, exits,
  loops, RowsRead, no_query, no_scan, no_rows, all_rows, last_or, Store, read,
}
use scheduler.Sql.Fields.{the_number}

abbrev pub where_select : List String → List String → List Condition → String → Select
where_select columns tables conditions order_by = record {
  columns = columns;
  from = tables;
  conditions = conditions;
  order_by = order_by;
  offset = none;
  limit = none;
}

-- The ids of a batch of which the last one is known: `last - len(batch) + 1`, in 64 bits.
abbrev pub first_id : ℕ → ℕ → ℕ
first_id last n = add64 (sub64 last n) 1

-- A function that logs its error and returns nil.
abbrev pub logged : {E F A : Type 0} → Outcome E (List A) → Outcome F (List A)
logged (ok xs) = ok xs
logged (err e) = ok []
logged panics = panics
logged exits = exits
logged loops = loops

-- An error of database/sql as a GenericError.
abbrev pub server_error : {A : Type 0} → String → Outcome GenericError A
server_error text = err (http_error 500 text)

-- The list of a query, each error of which is status 500.
abbrev pub served : {A : Type 0} → RowsRead A → Outcome GenericError (List A)
served (no_query e) = server_error e
served (no_scan e) = server_error e
served (no_rows e xs close) = server_error e
served (all_rows xs close) = ok xs

-- The same where the error of the rows is read from a variable that is nil.
abbrev pub served_rows_panic : {A : Type 0} → RowsRead A → Outcome GenericError (List A)
served_rows_panic (no_query e) = server_error e
served_rows_panic (no_scan e) = server_error e
served_rows_panic (no_rows e xs close) = panics
served_rows_panic (all_rows xs close) = ok xs

-- A count, where Err is not looked at.
abbrev pub served_count : RowsRead ℕ → Outcome GenericError ℕ
served_count (no_query e) = server_error e
served_count (no_scan e) = server_error e
served_count (no_rows e xs close) = ok (last_or 0 xs)
served_count (all_rows xs close) = ok (last_or 0 xs)

-- `defer rows.Close()` comes before the error of the query is looked at: with no rows it panics.
abbrev pub closing_first : {E A B : Type 0} → RowsRead A → Outcome E B → Outcome E B
closing_first (no_query e) rest = panics
closing_first (no_scan e) rest = rest
closing_first (no_rows e xs close) rest = rest
closing_first (all_rows xs close) rest = rest

-- The outcome of a write where the error of WriteCommandToRaftLog is looked at, or not: without an
-- answer the service is unavailable.
abbrev pub answered : {A : Type 0} → (FsmResponse → A) → Option FsmResponse → Outcome GenericError A
answered f none = err (http_error 503 "service is unavailable")
answered f (some r) = ok (f r)

abbrev pub answered_or :
    {A : Type 0} → (FsmResponse → A) → String ⊎ Option FsmResponse → Outcome GenericError A
answered_or f (inl text) = server_error text
answered_or f (inr r) = answered f r

abbrev pub answered_unchecked :
    {A : Type 0} → (FsmResponse → A) → String ⊎ Option FsmResponse → Outcome GenericError A
answered_unchecked f (inl text) = answered f none
answered_unchecked f (inr r) = answered f r
