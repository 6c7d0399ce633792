-- ===== src/Repository/AsyncTask/Ids.antt =====
-- The ids that BatchInsert of pkg/repository/async_task/async_tasks.go returns, and the tasks that do
-- not fit one statement.
use scheduler.Base.{
  ℕ, zero, suc, ◌+◌, ◌-◌, ◌*◌, ◌^◌, ◌<◌, ◌≤◌, ◌≡◌, ◌≢◌, refl, ap, ap₂, sym, ◌∙◌, Bool, false, List,
  [], ◌∷◌, ◌++◌, map, length, concat, length-append, All, arith, Sum-cases, inl, inr, String, ltb,
}
use scheduler.Base.Words.{add64}
use scheduler.RaftLog.{Executed}
use scheduler.Models.{AsyncTask}
use scheduler.Batch.{batch, max_var, db_max_variable_size}
use scheduler.Batch.Sizes.{concat-batch, batch_fits, max_var_lem}
use scheduler.SharedRepo.{async_table}
use scheduler.SharedRepo.Ids.{signed_range-count_up}
use scheduler.Sql.{
  Value, insert, Store, GenericError, http_error, ok, err, count_up, signed_range, each_insert,
}
use scheduler.Sql.Outcomes.{err-ne-ok, and_then_in-ok, ok_injective}
use scheduler.Repository.{first_id}
use scheduler.Repository.AsyncTask.{
  task_columns, new_task_values, insert_tasks, ids_to, inserted_ids, batch_insert_tasks,
}

-- What sqlite promises of an INSERT: LastInsertId is the id of the last row, and ids follow each other.
pub record Numbers {D : Type 0} (l : Store D) : Type 0 where
  pub next : String → D → ℕ
  pub inserted :
      (t : String) (cs : List String) (vss : List (List Value)) (db : D) (x : Executed D)
      → l.exec (insert t cs vss) db ≡ inr x
      → (x.last_insert_id ≡ inr (next t db + length vss - 1))
        × (next t x.db ≡ next t db + length vss)

count_up-append :
    (m n i : ℕ) → i + m + n < 2 ^ 64 → count_up m i ++ count_up n (i + m) ≡ count_up (m + n) i
unfolding count_up
count_up-append zero n i h =
    let a : i + 0 ≡ i = omega arith in
    let b : n ≡ 0 + n = omega arith in ap (λ k. count_up n k) a ∙ ap (λ k. count_up k i) b
count_up-append (suc m) n i h =
    let next : add64 i 1 ≡ i + 1 = omega (arith, h) in
    let a : i + suc m ≡ add64 i 1 + m = omega (arith, next) in
    let b : suc (m + n) ≡ suc m + n = omega arith in
    ap (λ k. i ∷ count_up m (add64 i 1) ++ count_up n k) a
    ∙ ap (λ l. i ∷ l) (count_up-append m n (add64 i 1) (omega (arith, next, h)))
    ∙ ap (λ k. count_up k i) b

length-map : {A B : Type 0} (f : A → B) (xs : List A) → length (map f xs) ≡ length xs
length-map f [] = refl
length-map f (x ∷ xs) = ap suc (length-map f xs)

module _ {D : Type 0} (l : Store D) (t : Numbers l) (now : ℕ) (committed : Bool) where
  abbrev next_in : D → ℕ
  next_in db = t.next (async_table committed) db

  range_of_batch :
      (first n : ℕ)
      → 0 < n
      → first + n < 2 ^ 63
      → signed_range {E = GenericError} (first_id (first + n - 1) n) (first + n - 1)
        ≡ ok (count_up n first)
  range_of_batch first n pos h =
      let low : first_id (first + n - 1) n ≡ first = omega (arith, pos, h) in
      ap (λ k. signed_range k (first + n - 1)) low
      ∙ signed_range-count_up first (first + n - 1) (omega (arith, pos)) (omega (arith, h, pos))
      ∙ ap (λ k. ok (count_up k first)) (omega (arith, pos))

  insert_tasks-ids :
      (task : AsyncTask) (tasks : List AsyncTask) (db db' : D) (ids : List ℕ)
      → next_in db + length (task ∷ tasks) < 2 ^ 63
      → insert_tasks l now committed (task ∷ tasks) db ≡ (ok ids, db')
      → (ids ≡ count_up (length (task ∷ tasks)) (next_in db))
        × (next_in db' ≡ next_in db + length (task ∷ tasks))
  insert_tasks-ids task tasks db db' ids room h =
      let n = length (task ∷ tasks) in
      let rows = map (new_task_values now) (task ∷ tasks) in
      elim (Sum-cases (l.exec (insert (async_table committed) task_columns rows) db)) [
        | inl (e, failed) ↦ absurd (
            err-ne-ok (http_error 500 e)
              (ap (λ r. r.0) (sym (ap (inserted_ids l n db) failed) ∙ h)))
        | inr (x, executed) ↦
            let (last, next) = t.inserted (async_table committed) task_columns rows db x executed in
            let size : length rows ≡ n = length-map (new_task_values now) (task ∷ tasks) in
            let eq : insert_tasks l now committed (task ∷ tasks) db
                ≡ (ok (count_up n (next_in db)), x.db) =
              ap (inserted_ids l n db) executed
              ∙ ap (ids_to l n x.db) (last ∙ ap (λ k. inr (next_in db + k - 1)) size)
              ∙ ap (λ o. (o, x.db)) (range_of_batch (next_in db) n (omega arith) room) in
            (
              ok_injective ids (count_up n (next_in db)) (ap (λ r. r.0) (sym h ∙ eq)),
              ap (λ r. next_in r.1) (sym h ∙ eq) ∙ next ∙ ap (λ k. next_in db + k) size,
            )
      ]

  each_insert-ids :
      (bs : List (List AsyncTask)) (db db' : D) (ids : List ℕ)
      → All (λ b. (0 < length b) × (length b * 5 ≤ db_max_variable_size)) bs
      → next_in db + length (concat bs) < 2 ^ 63
      → each_insert (insert_tasks l now committed) bs db ≡ (ok ids, db')
      → (ids ≡ count_up (length (concat bs)) (next_in db))
        × (next_in db' ≡ next_in db + length (concat bs))
  unfolding each_insert count_up
  each_insert-ids [] db db' ids fits room h =
      (ok_injective ids [] (ap (λ r. r.0) (sym h)), ap (λ r. next_in r.1) (sym h) ∙ omega arith)
  each_insert-ids ([] ∷ bs) db db' ids fits room h = absurd (omega (arith, fits.0.0))
  each_insert-ids ((task ∷ tasks) ∷ bs) db db' ids fits room h =
      let (xs, db1, first, rest) =
        and_then_in-ok (insert_tasks l now committed (task ∷ tasks) db) _ ids db' h in
      let (ys, db2, second, whole) =
        and_then_in-ok (each_insert (insert_tasks l now committed) bs db1) _ ids db' rest in
      let m = length (task ∷ tasks) in
      let n = length (concat bs) in
      let sizes = length-append (task ∷ tasks) (concat bs) in
      let (xs_eq, next1) =
        insert_tasks-ids task tasks db db1 xs (omega (arith, room, sizes)) first in
      let (ys_eq, next2) =
        each_insert-ids bs db1 db2 ys fits.1 (omega (arith, room, sizes, next1)) second in
      (
        ok_injective ids (xs ++ ys) (ap (λ r. r.0) (sym whole))
            ∙ ap₂ (λ u v. u ++ v) xs_eq (ys_eq ∙ ap (count_up n) next1)
            ∙ count_up-append m n (next_in db) (omega (arith, room, sizes))
            ∙ ap (λ k. count_up k (next_in db)) (sym sizes),
        ap (λ r. next_in r.1) (sym whole) ∙ omega (arith, next1, next2, sizes),
      )

  -- BatchInsert, where it gives no error, gives the ids of the inserted tasks in order: from the next id
  -- of the table on, one for each task. For one task at least and ids below 2 ^ 63 - 1, and a database
  -- in which LastInsertId is the last of the new ids, which follow each other.
  pub batch_insert_tasks-ids :
      (tasks : List AsyncTask) (db db' : D) (ids : List ℕ)
      → tasks ≢ []
      → t.next (async_table committed) db + length tasks < 2 ^ 63
      → batch_insert_tasks l now tasks committed db ≡ (ok ids, db')
      → ids ≡ count_up (length tasks) (t.next (async_table committed) db)
  unfolding batch_insert_tasks
  batch_insert_tasks-ids tasks db db' ids any room h =
      let all = ap length (concat-batch tasks 5) in
      let (eq, next) =
        each_insert-ids (batch tasks 5) db db' ids
          (batch_fits tasks 5 (omega arith) (omega arith) any) (omega (arith, room, all)) h in
      eq ∙ ap (λ k. count_up k (next_in db)) all

-- The parameters of an INSERT.
abbrev pub parameters : List (List Value) → ℕ
parameters [] = 0
parameters (vs ∷ vss) = length vs + parameters vss

parameters-new_task_values :
    (now : ℕ) (tasks : List AsyncTask)
    → parameters (map (new_task_values now) tasks) ≡ length tasks * 6
parameters-new_task_values now [] = refl
parameters-new_task_values now (task ∷ tasks) = omega (arith, parameters-new_task_values now tasks)

batch_whole : (tasks : List AsyncTask) → length tasks ≤ 6553 → batch tasks 5 ≡ tasks ∷ []
unfolding batch
batch_whole tasks h =
    let width : max_var 5 ≡ 6553 = max_var_lem 5 (omega arith) in
    let fits : ltb (max_var 5) (length tasks) ≡ false = ground (arith, width, h) in rw fits refl

-- BatchInsert cuts its tasks for five columns, but has six: between 5462 and 6553 tasks become one
-- statement with more than DBMaxVariableSize parameters, so that all of them are refused with status
-- 500 and nothing is inserted. For a database that refuses an INSERT with more parameters than that.
pub batch_insert_tasks-exceeds :
    {D : Type 0} (l : Store D) (now : ℕ) (committed : Bool) (tasks : List AsyncTask) (db : D)
    → ((t : String) (cs : List String) (vss : List (List Value))
        → db_max_variable_size < parameters vss
        → (e : String) × (l.exec (insert t cs vss) db ≡ inl e))
    → 5461 < length tasks
    → length tasks ≤ 6553
    → (e : String) × (batch_insert_tasks l now tasks committed db ≡ (err (http_error 500 e), db))
unfolding batch_insert_tasks each_insert
batch_insert_tasks-exceeds l now committed [] db refuses many few = absurd (omega (arith, many))
batch_insert_tasks-exceeds l now committed (task ∷ tasks) db refuses many few =
    let rows = map (new_task_values now) (task ∷ tasks) in
    let (e, refused) =
      refuses (async_table committed) task_columns rows
        (omega (arith, many, parameters-new_task_values now (task ∷ tasks))) in
    (e, rw (batch_whole (task ∷ tasks) few, refused) refl)
