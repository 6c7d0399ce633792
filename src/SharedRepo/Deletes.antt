-- ===== src/SharedRepo/Deletes.antt =====
-- DeleteExecutionLogs of pkg/shared_repo/shared_repo.go: each batch is a transaction, and the first
-- that fails ends the call.
use scheduler.Base.{
  ℕ, suc, ◌*◌, ◌<◌, ◌≤◌, ◌≡◌, ◌≢◌, refl, ap, sym, subst, ◌∙◌, Bool, List, [], ◌∷◌, map, length,
  concat, take, All, arith, inl, inr, String, comparable_string,
}
use scheduler.Models.{JobExecutionLog}
use scheduler.Batch.{batch, db_max_variable_size}
use scheduler.Batch.Sizes.{concat-batch, batch_fits}
use scheduler.Sql.{text, Store, remove, within, Outcome, ok, each_batch, and_then_in}
use scheduler.SharedRepo.{executions_table, delete_logs_batch, delete_execution_logs}
use scheduler.SharedRepo.Tables.{Row, without, Tables}
use scheduler.SharedRepo.Reads.{stored}
use scheduler.SharedRepo.Logs.{left_by, left_by-nil, left_by-append, without-stored}
use scheduler.SharedRepo.Transactions.{delete_transaction-cases}
use scheduler.Sql.Outcomes.{err-ne-ok}

module _ {D : Type 0} (l : Store D) (t : Tables l) (committed : Bool) where
  abbrev rows_in : D → List (ℕ × Row)
  rows_in db = t.rows (executions_table committed) db

  -- What the first `k` batches of a deletion leave.
  abbrev pub HasDeleted :
      List (List JobExecutionLog)
      → List (ℕ × JobExecutionLog)
      → Outcome String (Unit {0}) × D
      → Type 0
  HasDeleted bs es (o, db') =
      (k : ℕ) × (t.rows (executions_table committed) db' ≡ stored (left_by (concat (take k bs)) es))
      × (o ≡ ok tt → take k bs ≡ bs)

  delete_batches-HasDeleted :
      (bs : List (List JobExecutionLog)) (es : List (ℕ × JobExecutionLog)) (db : D)
      → All (λ b. (0 < length b) × (length b * 1 ≤ db_max_variable_size)) bs
      → rows_in db ≡ stored es
      → HasDeleted bs es (each_batch (delete_logs_batch l committed) bs db)
  unfolding each_batch
  delete_batches-HasDeleted [] es db fits h =
      (0, h ∙ ap stored (sym (left_by-nil es)), λ done. refl)
  delete_batches-HasDeleted ([] ∷ bs) es db fits h = absurd (omega (arith, fits.0.0))
  delete_batches-HasDeleted ((log ∷ logs) ∷ bs) es db fits h =
      let values = map (λ x. text x.unique_id) (log ∷ logs) in
      let s = remove (executions_table committed) (within "unique_id" values) in
      let after : Outcome String (Unit {0}) × D → Outcome String (Unit {0}) × D =
        λ r. and_then_in r (λ u db'. each_batch (delete_logs_batch l committed) bs db') in
      elim (delete_transaction-cases l t.rolled_back s db) [
        | inr (e, failed) ↦
            subst (λ r. HasDeleted ((log ∷ logs) ∷ bs) es (after r)) (sym failed)
              (0, h ∙ ap stored (sym (left_by-nil es)), λ done. absurd (err-ne-ok e done))
        | inl (x, executed, done) ↦
            let h' : rows_in x.db ≡ stored (left_by (log ∷ logs) es) =
              t.removed (executions_table committed) "unique_id" values db x executed
              ∙ ap (without "unique_id" values) h
              ∙ without-stored (log ∷ logs) es in
            let (k, left, whole) =
              delete_batches-HasDeleted bs (left_by (log ∷ logs) es) x.db fits.1 h' in
            subst (λ r. HasDeleted ((log ∷ logs) ∷ bs) es (after r)) (sym done)
              (
                suc k,
                left ∙ ap stored (left_by-append (log ∷ logs) (concat (take k bs)) es),
                λ ended. ap (λ y. (log ∷ logs) ∷ y) (whole ended),
              )
      ]

  -- A deletion for logs, of which there is one at least, from a table of logs removes those with the
  -- unique ids of some batches, from the first on, and keeps all others: a transaction each, for all
  -- batches where there is no error. For a database that keeps to the laws of sqlite.
  pub delete_execution_logs-HasDeleted :
      (logs : List JobExecutionLog) (es : List (ℕ × JobExecutionLog)) (db : D)
      → logs ≢ []
      → t.rows (executions_table committed) db ≡ stored es
      → HasDeleted (batch logs 1) es (delete_execution_logs l committed logs db)
  unfolding delete_execution_logs
  delete_execution_logs-HasDeleted logs es db any h =
      delete_batches-HasDeleted (batch logs 1) es db
        (batch_fits logs 1 (omega arith) (omega arith) any) h

  -- Without an error all logs with one of the unique ids are removed.
  pub delete_execution_logs-removes :
      (logs : List JobExecutionLog) (es : List (ℕ × JobExecutionLog)) (db db' : D)
      → logs ≢ []
      → t.rows (executions_table committed) db ≡ stored es
      → delete_execution_logs l committed logs db ≡ (ok tt, db')
      → t.rows (executions_table committed) db' ≡ stored (left_by logs es)
  delete_execution_logs-removes logs es db db' any h done =
      let (k, left, whole) =
        subst (HasDeleted (batch logs 1) es) done
          (delete_execution_logs-HasDeleted logs es db any h) in
      left
      ∙ ap (λ bs. stored (left_by (concat bs) es)) (whole refl)
      ∙ ap (λ x. stored (left_by x es)) (concat-batch logs 1)
