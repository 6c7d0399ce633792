-- ===== src/Repository/Job/Ids.antt =====
-- The ids that BatchInsertJobs of pkg/repository/job/job.go returns.
use scheduler.Base.{
  ℕ, ◌+◌, ◌-◌, ◌^◌, ◌<◌, ◌≤◌, ◌≡◌, refl, ap, false, List, [], ◌∷◌, append-nil, map, length, arith,
  inr, some, ltb, nat_beq,
}
use scheduler.Base.Words.{sub64}
use scheduler.RaftLog.{FsmResponse}
use scheduler.Models.{Job}
use scheduler.Batch.{batch, max_var}
use scheduler.Batch.Sizes.{max_var_lem}
use scheduler.Sql.{insert, Store, GenericError, ok, count_up, unsigned_range, each_insert}
use scheduler.Repository.{first_id}
use scheduler.Repository.Job.{job_insert_columns, new_job_values, batch_insert_jobs}

batch_whole : (jobs : List Job) → length jobs ≤ 4095 → batch jobs 8 ≡ jobs ∷ []
unfolding batch
batch_whole jobs h =
    let width : max_var 8 ≡ 4095 = max_var_lem 8 (omega arith) in
    let fits : ltb (max_var 8) (length jobs) ≡ false = ground (arith, width, h) in rw fits refl

range_from_one :
    (n : ℕ)
    → 0 < n
    → n < 2 ^ 32
    → unsigned_range {E = GenericError} (first_id n n) n ≡ ok (count_up n 1)
unfolding unsigned_range
range_from_one n pos h =
    let low : first_id n n ≡ 1 = omega (arith, h) in
    let a : ltb n 1 ≡ false = ground (arith, pos) in
    let b : nat_beq n (2 ^ 64 - 1) ≡ false = ground (arith, h) in
    let c : sub64 n 1 + 1 ≡ n = omega (arith, pos, h) in rw (low, a, b, c) refl

-- BatchInsertJobs takes RowsAffected for the last id: for one to 4095 jobs, which are one statement, that
-- is written, it returns the ids 1, 2, …, whatever the ids of the new rows are. For a raft log that
-- answers with the number of the inserted rows.
pub batch_insert_jobs-ids :
    {D : Type 0} (l : Store D) (now : ℕ) (jobs : List Job) (db db' : D) (r : FsmResponse)
    → 0 < length jobs
    → length jobs ≤ 4095
    → l.write (insert "jobs" job_insert_columns (map (new_job_values now) jobs)) [] 0 db
      ≡ (inr (some r), db')
    → r.rows_affected ≡ length jobs
    → batch_insert_jobs l now jobs db ≡ (ok (count_up (length jobs) 1), db')
unfolding batch_insert_jobs each_insert
batch_insert_jobs-ids l now jobs db db' r some_jobs few written count =
    rw
      (
        batch_whole jobs few,
        written,
        count,
        range_from_one (length jobs) some_jobs (omega (arith, few)),
      )
      (ap (λ ids. (ok ids, db')) (append-nil (count_up (length jobs) 1)))
