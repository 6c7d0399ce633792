-- ===== src/SharedRepo/Refinement.antt =====
-- Any sequence of InsertExecutionLogs and DeleteExecutionLogs of pkg/shared_repo/shared_repo.go is that
-- of appending to a list of logs and filtering it; the view forgets the ids.
use scheduler.Base.{
  ℕ, String, ◌≡◌, ◌≢◌, refl, ap, subst, ◌∙◌, Bool, Bool-cases, List, [], ◌∷◌, ◌++◌, All, inl, inr,
  if◌then◌else◌,
}
use scheduler.Models.{JobExecutionLog}
use scheduler.Sql.{Store, Outcome, ok, and_then_in}
use scheduler.Sql.Outcomes.{and_then_in-ok}
use scheduler.SharedRepo.{executions_table, insert_execution_logs, delete_execution_logs}
use scheduler.SharedRepo.Tables.{Tables}
use scheduler.SharedRepo.Ids.{values_of}
use scheduler.SharedRepo.Reads.{stored}
use scheduler.SharedRepo.Logs.{with_ids, left_by, named_in}
use scheduler.SharedRepo.Inserts.{insert_execution_logs-appends}
use scheduler.SharedRepo.Deletes.{delete_execution_logs-removes}
use scheduler.SharedRepo.RoundTrip.{values_of-appended}

-- A call, for logs of which there is one at least.
pub data LogCall : Type 0 where
  inserts : List JobExecutionLog → LogCall
  deletes : List JobExecutionLog → LogCall

abbrev pub logs_of : LogCall → List JobExecutionLog
logs_of (inserts logs) = logs
logs_of (deletes logs) = logs

-- The logs that are not among the given ones.
abbrev pub keep : List JobExecutionLog → List JobExecutionLog → List JobExecutionLog
keep gone [] = []
keep gone (log ∷ logs) =
    if named_in log.unique_id gone then keep gone logs else log ∷ keep gone logs

-- What a call does to a list of logs.
abbrev pub replay : List LogCall → List JobExecutionLog → List JobExecutionLog
replay [] xs = xs
replay (inserts logs ∷ calls) xs = replay calls (xs ++ logs)
replay (deletes logs ∷ calls) xs = replay calls (keep logs xs)

values_of-left_by :
    (gone : List JobExecutionLog) (es : List (ℕ × JobExecutionLog))
    → values_of (left_by gone es) ≡ keep gone (values_of es)
values_of-left_by gone [] = refl
values_of-left_by gone ((i, log) ∷ es) = elim (Bool-cases (named_in log.unique_id gone)) [
  | inl same ↦ rw same (values_of-left_by gone es)
  | inr other ↦ rw other (ap (λ x. log ∷ x) (values_of-left_by gone es))
]

module _ {D : Type 0} (l : Store D) where
  abbrev pub call : Bool → LogCall → D → Outcome String (Unit {0}) × D
  call committed (inserts logs) db = insert_execution_logs l committed logs db
  call committed (deletes logs) db = delete_execution_logs l committed logs db

  -- The calls in order, up to the first that fails.
  abbrev pub run : Bool → List LogCall → D → Outcome String (Unit {0}) × D
  run committed [] db = (ok tt, db)
  run committed (c ∷ calls) db =
      and_then_in (call committed c db) (λ u db'. run committed calls db')

  -- Calls that all end without an error leave a table of logs that, its ids forgotten, is the replay of
  -- the calls on the list of the logs that were there: an insertion appends, a deletion drops the logs
  -- with one of the unique ids. For calls with one log at least, and a database that keeps to the laws
  -- of sqlite.
  pub run_refines :
      (t : Tables l) (committed : Bool) (calls : List LogCall) (es : List (ℕ × JobExecutionLog))
      (db db' : D)
      → All (λ c. logs_of c ≢ []) calls
      → t.rows (executions_table committed) db ≡ stored es
      → run committed calls db ≡ (ok tt, db')
      → (es' : List (ℕ × JobExecutionLog)) × (t.rows (executions_table committed) db' ≡ stored es')
        × (values_of es' ≡ replay calls (values_of es))
  run_refines t committed [] es db db' any h done =
      (es, subst (λ x. t.rows (executions_table committed) x.1 ≡ stored es) done h, refl)
  run_refines t committed (inserts logs ∷ calls) es db db' any h done =
      let (u, db1, first, rest) = and_then_in-ok _ _ tt db' done in
      let n = t.next (executions_table committed) db in
      let (es', h', same) =
        run_refines t committed calls (es ++ with_ids n logs) db1 db' any.1
          (insert_execution_logs-appends l t committed logs es db db1 any.0 h first) rest in
      (es', h', same ∙ ap (replay calls) (values_of-appended es n logs))
  run_refines t committed (deletes logs ∷ calls) es db db' any h done =
      let (u, db1, first, rest) = and_then_in-ok _ _ tt db' done in
      let (es', h', same) =
        run_refines t committed calls (left_by logs es) db1 db' any.1
          (delete_execution_logs-removes l t committed logs es db db1 any.0 h first) rest in
      (es', h', same ∙ ap (replay calls) (values_of-left_by logs es))
