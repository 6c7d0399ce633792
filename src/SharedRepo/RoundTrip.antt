-- ===== src/SharedRepo/RoundTrip.antt =====
-- InsertExecutionLogs, then GetExecutionLogs, of pkg/shared_repo/shared_repo.go.
use mathlib.Core.List.{Perm}
use scheduler.Base.{
  subst, ℕ, suc, ◌+◌, ◌-◌, ◌^◌, ◌<◌, ◌≤◌, ◌≡◌, ◌≢◌, refl, ap, ◌∙◌, Bool, List, [], ◌∷◌, ◌++◌, map,
  length, All, All-append, All-mono, arith, length-append,
}
use scheduler.Models.{JobExecutionLog}
use scheduler.Sql.{Store, ok}
use scheduler.SharedRepo.{executions_table, insert_execution_logs, get_execution_logs}
use scheduler.SharedRepo.Tables.{IsAscending, Tables}
use scheduler.SharedRepo.Ids.{ids_of, values_of, ascending-above, IsAscending-tail}
use scheduler.SharedRepo.Reads.{stored, as_read, get_execution_logs_lem}
use scheduler.SharedRepo.Logs.{with_ids}
use scheduler.SharedRepo.Inserts.{insert_execution_logs-appends}

values_of-append :
    {A : Type 0} (xs ys : List (ℕ × A)) → values_of (xs ++ ys) ≡ values_of xs ++ values_of ys
values_of-append [] ys = refl
values_of-append ((i, a) ∷ xs) ys = ap (λ l. a ∷ l) (values_of-append xs ys)

pub values_of-with_ids : (n : ℕ) (logs : List JobExecutionLog) → values_of (with_ids n logs) ≡ logs
values_of-with_ids n [] = refl
values_of-with_ids n (log ∷ logs) = ap (λ l. log ∷ l) (values_of-with_ids (n + 1) logs)

pub values_of-appended :
    (es : List (ℕ × JobExecutionLog)) (n : ℕ) (logs : List JobExecutionLog)
    → values_of (es ++ with_ids n logs) ≡ values_of es ++ logs
values_of-appended es n logs =
    values_of-append es (with_ids n logs) ∙ ap (λ l. values_of es ++ l) (values_of-with_ids n logs)

with_ids-IsAscending :
    (n : ℕ) (logs : List JobExecutionLog) → IsAscending (ids_of (with_ids n logs))
with_ids-IsAscending n [] = tt
with_ids-IsAscending n (log ∷ []) = tt
with_ids-IsAscending n (log ∷ log' ∷ logs) =
    (omega arith, with_ids-IsAscending (n + 1) (log' ∷ logs))

appended-IsAscending :
    (es : List (ℕ × JobExecutionLog)) (n : ℕ) (logs : List JobExecutionLog)
    → IsAscending (ids_of es)
    → All (λ e. e.0 < n) es
    → IsAscending (ids_of (es ++ with_ids n logs))
appended-IsAscending [] n logs asc below = with_ids-IsAscending n logs
appended-IsAscending ((i, log) ∷ []) n [] asc below = tt
appended-IsAscending ((i, log) ∷ []) n (log' ∷ logs) asc below =
    (below.0, with_ids-IsAscending n (log' ∷ logs))
appended-IsAscending ((i, log) ∷ (j, log') ∷ es) n logs asc below =
    (asc.0, appended-IsAscending ((j, log') ∷ es) n logs asc.1 below.1)

with_ids-below :
    (n high : ℕ) (logs : List JobExecutionLog)
    → n + length logs ≤ high
    → All (λ e. e.0 < high) (with_ids n logs)
with_ids-below n high [] h = tt
with_ids-below n high (log ∷ logs) h =
    (omega (arith, h), with_ids-below (n + 1) high logs (omega (arith, h)))

length-ascending :
    {A : Type 0} (low n : ℕ) (es : List (ℕ × A))
    → low ≤ n
    → IsAscending (ids_of es)
    → All (λ e. low ≤ e.0) es
    → All (λ e. e.0 < n) es
    → length es + low ≤ n
length-ascending low n [] h asc above below = omega (arith, h)
length-ascending low n ((i, a) ∷ es) h asc above below =
    let rest =
      length-ascending (i + 1) n es (omega (arith, below.0)) (IsAscending-tail i es asc)
        (All-mono _ _ es (λ e k. omega (arith, k)) (ascending-above i es asc)) below.1 in
    omega (arith, rest, above.0)

length-with_ids : (n : ℕ) (logs : List JobExecutionLog) → length (with_ids n logs) ≡ length logs
length-with_ids n [] = refl
length-with_ids n (log ∷ logs) = ap suc (length-with_ids (n + 1) logs)

All-zero : {A : Type 0} (es : List (ℕ × A)) → All (λ e. 0 ≤ e.0) es
All-zero [] = tt
All-zero (e ∷ es) = (omega arith, All-zero es)

module _ {D : Type 0} (l : Store D) (t : Tables l) where
  -- GetExecutionLogs reads back what InsertExecutionLogs has written and the logs that were there, each
  -- one once and with every field but the id, in an order that is not said (the SELECT has no ORDER BY): for one log at least, inserted without an error into a
  -- table of logs whose ids ascend and are below the next one, with ids below 2 ^ 63 - 1, of a database
  -- that keeps to the laws of sqlite.
  pub get_execution_logs-insert :
      (node_id : ℕ) (committed : Bool) (logs : List JobExecutionLog)
      (es : List (ℕ × JobExecutionLog)) (db db' : D)
      → logs ≢ []
      → t.rows (executions_table committed) db ≡ stored es
      → IsAscending (ids_of es)
      → All (λ e. e.0 < t.next (executions_table committed) db) es
      → t.next (executions_table committed) db + length logs < 2 ^ 63
      → insert_execution_logs l committed logs db ≡ (ok tt, db')
      → (read : List JobExecutionLog) × Perm read (map as_read (values_of es ++ logs))
        × (get_execution_logs l node_id committed db' ≡ ok read)
  get_execution_logs-insert node_id committed logs es db db' any h asc below room done =
      let n = t.next (executions_table committed) db in
      let count = length-ascending 0 n es (omega arith) asc (All-zero es) below in
      let (read, same, answered) =
        get_execution_logs_lem l t node_id committed db' (es ++ with_ids n logs)
          (insert_execution_logs-appends l t committed logs es db db' any h done)
          (appended-IsAscending es n logs asc below)
          (All-append (λ e. e.0 < 2 ^ 63 - 1) es (with_ids n logs)
            (
              All-mono _ _ es (λ e k. omega (arith, k, room)) below,
              with_ids-below n (2 ^ 63 - 1) logs (omega (arith, room)),
            ))
          (omega
            (arith, length-append es (with_ids n logs), length-with_ids n logs, count, room)) in
      (read, subst (λ x. Perm read (map as_read x)) (values_of-appended es n logs) same, answered)
