-- ===== src/SharedRepo/Inserts.antt =====
-- InsertExecutionLogs of pkg/shared_repo/shared_repo.go: each batch is a transaction, and the first
-- that fails ends the call.
use scheduler.Base.{
  ℕ, suc, ◌+◌, ◌*◌, ◌<◌, ◌≤◌, ◌≡◌, ◌≢◌, refl, ap, sym, subst, ◌∙◌, Bool, List, [], ◌∷◌, ◌++◌, map,
  length, concat, take, All, append_assoc, append-nil, arith, inl, inr, String, comparable_string,
}
use scheduler.Models.{JobExecutionLog}
use scheduler.Batch.{batch, db_max_variable_size}
use scheduler.Batch.Sizes.{concat-batch, batch_fits}
use scheduler.Sql.{Store, insert, Outcome, ok, each_batch, and_then_in}
use scheduler.SharedRepo.{
  executions_table, inserted_columns, execution_values, insert_logs_batch, insert_execution_logs,
}
use scheduler.SharedRepo.Tables.{Row, numbered, Tables}
use scheduler.SharedRepo.Reads.{stored}
use scheduler.SharedRepo.Logs.{
  with_ids, numbered-stored, stored-append, with_ids-append, length-map,
}
use scheduler.SharedRepo.Transactions.{insert_transaction-cases}
use scheduler.Sql.Outcomes.{err-ne-ok}

module _ {D : Type 0} (l : Store D) (t : Tables l) (committed : Bool) where
  abbrev rows_in : D → List (ℕ × Row)
  rows_in db = t.rows (executions_table committed) db

  abbrev next_in : D → ℕ
  next_in db = t.next (executions_table committed) db

  -- What the first `k` batches of an insertion leave: `k` counts all of them where it is not an error.
  abbrev pub HasInserted :
      List (List JobExecutionLog)
      → List (ℕ × JobExecutionLog)
      → D
      → Outcome String (Unit {0}) × D
      → Type 0
  HasInserted bs es db (o, db') =
      (k : ℕ) × (t.rows (executions_table committed) db'
        ≡ stored (es ++ with_ids (t.next (executions_table committed) db) (concat (take k bs))))
      × (o ≡ ok tt → take k bs ≡ bs)

  insert_batches-HasInserted :
      (bs : List (List JobExecutionLog)) (es : List (ℕ × JobExecutionLog)) (db : D)
      → All (λ b. (0 < length b) × (length b * 9 ≤ db_max_variable_size)) bs
      → rows_in db ≡ stored es
      → HasInserted bs es db (each_batch (insert_logs_batch l committed) bs db)
  unfolding each_batch
  insert_batches-HasInserted [] es db fits h =
      (0, h ∙ ap stored (sym (append-nil es)), λ done. refl)
  insert_batches-HasInserted ([] ∷ bs) es db fits h = absurd (omega (arith, fits.0.0))
  insert_batches-HasInserted ((log ∷ logs) ∷ bs) es db fits h =
      let s =
        insert (executions_table committed) inserted_columns (map execution_values (log ∷ logs)) in
      let after : Outcome String (Unit {0}) × D → Outcome String (Unit {0}) × D =
        λ r. and_then_in r (λ u db'. each_batch (insert_logs_batch l committed) bs db') in
      elim (insert_transaction-cases l t.rolled_back s db) [
        | inr (e, failed) ↦
            subst (λ r. HasInserted ((log ∷ logs) ∷ bs) es db (after r)) (sym failed)
              (0, h ∙ ap stored (sym (append-nil es)), λ done. absurd (err-ne-ok e done))
        | inl (x, executed, done) ↦
            let (rows, next) =
              t.inserted (executions_table committed) inserted_columns
                (map execution_values (log ∷ logs)) db x executed in
            let n = next_in db in
            let es' = es ++ with_ids n (log ∷ logs) in
            let h' : rows_in x.db ≡ stored es' =
              rows
              ∙ ap (λ y. y ++ numbered n inserted_columns (map execution_values (log ∷ logs))) h
              ∙ ap (λ y. stored es ++ y) (numbered-stored n (log ∷ logs))
              ∙ sym (stored-append es (with_ids n (log ∷ logs))) in
            let (k, left, whole) = insert_batches-HasInserted bs es' x.db fits.1 h' in
            subst (λ r. HasInserted ((log ∷ logs) ∷ bs) es db (after r)) (sym done)
              (
                suc k,
                left
                    ∙ ap stored (
                        append_assoc es (with_ids n (log ∷ logs))
                          (with_ids (next_in x.db) (concat (take k bs)))
                        ∙ ap (λ y. es ++ y)
                            (ap (λ m. with_ids n (log ∷ logs) ++ with_ids m (concat (take k bs)))
                                (next ∙ ap (λ m. n + suc m) (length-map execution_values logs))
                              ∙ sym (with_ids-append n (log ∷ logs) (concat (take k bs))))),
                λ ended. ap (λ y. (log ∷ logs) ∷ y) (whole ended),
              )
      ]

  -- An insertion of logs, of which there is one at least, into a table of logs appends some batches of
  -- them, from the first on, with the next ids of the table: a transaction each, all of them where there
  -- is no error. For a database that keeps to the laws of sqlite.
  pub insert_execution_logs-HasInserted :
      (logs : List JobExecutionLog) (es : List (ℕ × JobExecutionLog)) (db : D)
      → logs ≢ []
      → t.rows (executions_table committed) db ≡ stored es
      → HasInserted (batch logs 9) es db (insert_execution_logs l committed logs db)
  unfolding insert_execution_logs
  insert_execution_logs-HasInserted logs es db any h =
      insert_batches-HasInserted (batch logs 9) es db
        (batch_fits logs 9 (omega arith) (omega arith) any) h

  -- Without an error all logs are appended.
  pub insert_execution_logs-appends :
      (logs : List JobExecutionLog) (es : List (ℕ × JobExecutionLog)) (db db' : D)
      → logs ≢ []
      → t.rows (executions_table committed) db ≡ stored es
      → insert_execution_logs l committed logs db ≡ (ok tt, db')
      → t.rows (executions_table committed) db'
        ≡ stored (es ++ with_ids (t.next (executions_table committed) db) logs)
  insert_execution_logs-appends logs es db db' any h done =
      let (k, left, whole) =
        subst (HasInserted (batch logs 9) es db) done
          (insert_execution_logs-HasInserted logs es db any h) in
      left
      ∙ ap (λ bs. stored (es ++ with_ids (next_in db) (concat bs))) (whole refl)
      ∙ ap (λ x. stored (es ++ with_ids (next_in db) x)) (concat-batch logs 9)
