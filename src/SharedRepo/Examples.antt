-- ===== src/SharedRepo/Examples.antt =====
-- Tests of the shared repository on a database in memory.
use mathlib.Core.List.{Perm}
use scheduler.Base.{ℕ, ◌≡◌, refl, true, false, List, [], ◌∷◌, map, String, arith}
use scheduler.Models.{JobExecutionLog}
use scheduler.Base.Floats.{float64}
use scheduler.Batch.{batch, max_var}
use scheduler.Sql.{ok, panics}
use scheduler.SharedRepo.{get_execution_logs, insert_execution_logs, delete_execution_logs}
use scheduler.Base.Maps.{lookup}
use scheduler.SharedRepo.Tables.{column}
use scheduler.SharedRepo.Ids.{values_of}
use scheduler.SharedRepo.Reads.{stored, as_read}
use scheduler.SharedRepo.Inserts.{HasInserted, insert_execution_logs-HasInserted}
use scheduler.SharedRepo.Deletes.{HasDeleted, delete_execution_logs-HasDeleted}
use scheduler.SharedRepo.RoundTrip.{get_execution_logs-insert}
use scheduler.SharedRepo.Refinement.{LogCall, inserts, deletes, run, replay, run_refines}
use scheduler.SharedRepo.Memory.{Memory, memory, memory_tables}

abbrev log : String → JobExecutionLog
log unique_id = record {
  id = 0;
  unique_id = unique_id;
  state = 2;
  node_id = 1;
  last_execution_datetime = 100;
  next_execution_datetime = 160;
  job_id = 7;
  job_queue_version = 3;
  execution_version = 5;
  data_created = 101;
}

abbrev logs : List JobExecutionLog
logs = log "b" ∷ log "c" ∷ []

-- One log with the id 4 in each table.
abbrev database : Memory
database table = (stored ((4, log "a") ∷ []), 5)

abbrev inserted : Memory
inserted = (insert_execution_logs memory false logs database).1

inserted_ok : insert_execution_logs memory false logs database ≡ (ok tt, inserted)
unfolding insert_execution_logs max_var float64
inserted_ok = refl

-- With no logs there is one empty batch, of which the first log is read.
insert_none : (insert_execution_logs memory false [] database).0 ≡ panics
unfolding insert_execution_logs max_var float64
insert_none = refl

get_execution_logs-insert_example :
    (read : List JobExecutionLog) × Perm read (map as_read (log "a" ∷ log "b" ∷ log "c" ∷ []))
    × (get_execution_logs memory 1 false inserted ≡ ok read)
get_execution_logs-insert_example =
    get_execution_logs-insert memory memory_tables 1 false logs ((4, log "a") ∷ []) database
      inserted (λ h. absurd cc) refl tt (omega arith, tt) (omega arith) inserted_ok

insert_execution_logs-HasInserted_example :
    HasInserted memory memory_tables false
      (batch logs 9)
      ((4, log "a") ∷ [])
      database
      (insert_execution_logs memory false logs database)
insert_execution_logs-HasInserted_example =
    insert_execution_logs-HasInserted memory memory_tables false logs ((4, log "a") ∷ []) database
      (λ h. absurd cc) refl

delete_execution_logs-HasDeleted_example :
    HasDeleted memory memory_tables true
      (batch logs 1)
      ((4, log "a") ∷ [])
      (delete_execution_logs memory true logs database)
delete_execution_logs-HasDeleted_example =
    delete_execution_logs-HasDeleted memory memory_tables true logs ((4, log "a") ∷ []) database
      (λ h. absurd cc) refl

abbrev calls : List LogCall
calls = inserts logs ∷ deletes (log "a" ∷ log "c" ∷ []) ∷ []

abbrev after_calls : Memory
after_calls = (run memory false calls database).1

calls_ok : run memory false calls database ≡ (ok tt, after_calls)
unfolding insert_execution_logs delete_execution_logs max_var float64 column lookup
calls_ok = refl

replay-calls : replay calls (log "a" ∷ []) ≡ log "b" ∷ []
replay-calls = refl

run_refines_example :
    (es' : List (ℕ × JobExecutionLog)) × (memory_tables.rows "job_executions_uncommitted"
        after_calls
      ≡ stored es')
    × (values_of es' ≡ log "b" ∷ [])
run_refines_example =
    run_refines memory memory_tables false calls ((4, log "a") ∷ []) database after_calls
      (λ h. absurd cc, (λ h. absurd cc, tt)) refl calls_ok
