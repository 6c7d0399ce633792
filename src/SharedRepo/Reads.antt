-- ===== src/SharedRepo/Reads.antt =====
-- GetExecutionLogs of pkg/shared_repo/shared_repo.go, on a table whose rows are logs.
use mathlib.Core.List.{Perm}
use mathlib.Core.List.Perm
use scheduler.Base.{
  ℕ, suc, ◌+◌, ◌-◌, ◌*◌, ◌^◌, ◌<◌, ◌≤◌, ◌≡◌, refl, ap, sym, subst, ◌∙◌, Bool, false, ◌==◌, List, [],
  ◌∷◌, ◌++◌, map, length, concat, All, if◌then◌else◌, arith, Bool-cases, inl, inr, none, some,
  comparable_uint, String, leb, ap₂, Option, ◌⊎◌,
}
use scheduler.Base.Words.{slt}
use scheduler.Base.Maps.{lookup}
use scheduler.Models.{JobExecutionLog, no_job_execution_log}
use scheduler.Batch.{batch, db_max_variable_size}
use scheduler.Batch.Sizes.{concat-batch, batch_fits}
use scheduler.Sql.{
  Value, number, Query, Store, Outcome, ok, and_then_ok, select, count_up, all_rows, last_or, read,
  read_rows, Rows, after_scan, scan, scan_all, fill, each_read,
}
use scheduler.Sql.Scans.{fill-number, fill-text, fill-time, fill-nil, read-all_rows}
use scheduler.Sql.Fields.{the_number, the_first, the_second}
use scheduler.SharedRepo.{
  executions_table, inserted_columns, execution_values, log_setters, logs_with_ids,
  read_closed_without_err, read_closed, count_logs, max_min_ids, needless, select_from,
  logs_of_count, get_logs_batch, logs_between, get_execution_logs,
}
use scheduler.SharedRepo.Tables.{
  Row, column, pair, at, at_all, IsAscending, max_id, min_id, bounds_row, done, Tables,
}
use scheduler.SharedRepo.Orders.{at_all-Perm}
use scheduler.SharedRepo.Ids.{
  IsAscending-append, count_up-IsAscending, count_up-ne-nil, at_all-append, ids_of, values_of,
  range-covers, signed_range-count_up,
}

-- The row that InsertExecutionLogs writes for a log.
abbrev pub log_row : JobExecutionLog → Row
log_row log = pair inserted_columns (execution_values log)

abbrev pub stored : List (ℕ × JobExecutionLog) → List (ℕ × Row)
stored [] = []
stored ((i, log) ∷ es) = (i, log_row log) ∷ stored es

-- A log as it is read: the id is not selected.
abbrev pub as_read : JobExecutionLog → JobExecutionLog
as_read log = record log { id = 0 }

-- The logs are read, each one once and without its id, in an order that is not said.
abbrev pub Reads : Outcome String (List JobExecutionLog) → List JobExecutionLog → Type 0
Reads o logs = (read : List JobExecutionLog) × Perm read (map as_read logs) × (o ≡ ok read)

length-stored : (es : List (ℕ × JobExecutionLog)) → length (stored es) ≡ length es
length-stored [] = refl
length-stored (e ∷ es) = ap suc (length-stored es)

max_id-stored : (m : ℕ) (es : List (ℕ × JobExecutionLog)) → max_id m (stored es) ≡ max_id m es
max_id-stored m [] = refl
max_id-stored m ((i, log) ∷ es) = max_id-stored (if leb m i then i else m) es

min_id-stored : (m : ℕ) (es : List (ℕ × JobExecutionLog)) → min_id m (stored es) ≡ min_id m es
min_id-stored m [] = refl
min_id-stored m ((i, log) ∷ es) = min_id-stored (if leb i m then i else m) es

at-stored : (es : List (ℕ × JobExecutionLog)) (i : ℕ) → at (stored es) i ≡ map log_row (at es i)
at-stored [] i = refl
at-stored ((j, log) ∷ es) i = elim (Bool-cases (j == i)) [
  | inl same ↦ rw same (ap (λ x. log_row log ∷ x) (at-stored es i))
  | inr other ↦ rw other (at-stored es i)
]

map-append : {A B : Type 0} (f : A → B) (xs ys : List A) → map f (xs ++ ys) ≡ map f xs ++ map f ys
map-append f [] ys = refl
map-append f (x ∷ xs) ys = ap (λ l. f x ∷ l) (map-append f xs ys)

at_all-stored :
    (es : List (ℕ × JobExecutionLog)) (ids : List ℕ)
    → at_all (stored es) ids ≡ map log_row (at_all es ids)
at_all-stored es [] = refl
at_all-stored es (i ∷ ids) =
    ap (λ x. x ++ at_all (stored es) ids) (at-stored es i)
    ∙ ap (λ x. map log_row (at es i) ++ x) (at_all-stored es ids)
    ∙ sym (map-append log_row (at es i) (at_all es ids))

module _ {D : Type 0} (l : Store D) (t : Tables l) where
  scan_all-number : (n : ℕ) → scan_all l (the_number l ∷ []) 0 ((number n ∷ []) ∷ []) ≡ inr (n ∷ [])
  unfolding scan_all scan
  scan_all-number n = simp (fill-number l t.scans)

  read_number :
      (q : Query) (db : D) (n : ℕ)
      → l.query q db ≡ inr (done ((number n ∷ []) ∷ []))
      → read l (the_number l ∷ []) 0 q db ≡ all_rows (n ∷ []) none
  read_number q db n h =
      read-all_rows l (the_number l ∷ []) 0 q db (done ((number n ∷ []) ∷ [])) (n ∷ []) h refl
        (scan_all-number n)

  abbrev pub selected : Row → List Value
  selected row = map (column row) (logs_with_ids l "" []).columns

  fill-log_row :
      (log : JobExecutionLog)
      → fill (log_setters l) (selected (log_row log)) no_job_execution_log ≡ (none, as_read log)
  unfolding column lookup
  fill-log_row log =
      simp (fill-number l t.scans, fill-text l t.scans, fill-time l t.scans, fill-nil)

  scan_all-numbers :
      (m n : ℕ)
      → scan_all l (the_first l ∷ the_second l ∷ []) (0, 0) ((number m ∷ number n ∷ []) ∷ [])
        ≡ inr ((m, n) ∷ [])
  unfolding scan_all scan
  scan_all-numbers m n = simp (fill-number l t.scans)

  read_numbers :
      (q : Query) (db : D) (m n : ℕ)
      → l.query q db ≡ inr (done ((number m ∷ number n ∷ []) ∷ []))
      → read l (the_first l ∷ the_second l ∷ []) (0, 0) q db ≡ all_rows ((m, n) ∷ []) none
  read_numbers q db m n h =
      read-all_rows l (the_first l ∷ the_second l ∷ []) (0, 0) q db
        (done ((number m ∷ number n ∷ []) ∷ [])) ((m, n) ∷ []) h refl (scan_all-numbers m n)

  scan_all-log_rows :
      (logs : List JobExecutionLog)
      → scan_all l (log_setters l) no_job_execution_log (map selected (map log_row logs))
        ≡ inr (map as_read logs)
  unfolding scan_all scan column lookup
  scan_all-log_rows [] = refl
  scan_all-log_rows (log ∷ logs) = rw (fill-log_row log, scan_all-log_rows logs) refl

  get_logs_batch-all :
      (table : String) (db : D) (es : List (ℕ × JobExecutionLog)) (id : ℕ) (ids : List ℕ)
      → t.rows table db ≡ stored es
      → IsAscending (id ∷ ids)
      → length (id ∷ ids) ≤ db_max_variable_size
      → Reads (get_logs_batch l table db (id ∷ ids)) (at_all es (id ∷ ids))
  get_logs_batch-all table db es id ids h asc fits =
      let (order, ordered, answered) = t.picked table (id ∷ ids) db asc fits in
      let rows = map selected (map log_row (at_all es order)) in
      let picked : l.query (select (logs_with_ids l table (id ∷ ids)) []) db ≡ inr (done rows) =
        answered
        ∙ ap (λ x. inr (done (map selected x)))
            (ap (λ x. at_all x order) h ∙ at_all-stored es order) in
      (
        map as_read (at_all es order),
        Perm.map as_read (at_all-Perm es ordered),
        ap read_closed_without_err (
            read-all_rows l (log_setters l) no_job_execution_log
              (select (logs_with_ids l table (id ∷ ids)) []) db (done rows)
              (map as_read (at_all es order)) picked refl (scan_all-log_rows (at_all es order))),
      )

  each_read_lem :
      (table : String) (db : D) (es : List (ℕ × JobExecutionLog)) (bs : List (List ℕ))
      → t.rows table db ≡ stored es
      → All (λ b. (0 < length b) × (length b * 7 ≤ db_max_variable_size)) bs
      → IsAscending (concat bs)
      → Reads (each_read (get_logs_batch l table db) bs) (at_all es (concat bs))
  unfolding each_read
  each_read_lem table db es [] h fits asc = ([], Perm.refl [], refl)
  each_read_lem table db es ([] ∷ bs) h fits asc = absurd (omega (arith, fits.0.0))
  each_read_lem table db es ((id ∷ ids) ∷ bs) h fits asc =
      let parts = IsAscending-append (id ∷ ids) (concat bs) asc in
      let (read, ordered, e) =
        get_logs_batch-all table db es id ids h parts.0 (omega (arith, fits.0.1)) in
      let (rest, ordered', e') = each_read_lem table db es bs h fits.1 parts.1 in
      (
        read ++ rest,
        subst (λ x. Perm (read ++ rest) x)
            (sym (map-append as_read (at_all es (id ∷ ids)) (at_all es (concat bs)))
              ∙ ap (map as_read) (sym (at_all-append es (id ∷ ids) (concat bs))))
            (Perm.append ordered ordered'),
        rw (e, e') refl,
      )

  logs_between_lem :
      (table : String) (db : D) (i : ℕ) (log : JobExecutionLog) (es : List (ℕ × JobExecutionLog))
      → t.rows table db ≡ stored ((i, log) ∷ es)
      → IsAscending (ids_of ((i, log) ∷ es))
      → All (λ e. e.0 < 2 ^ 63 - 1) ((i, log) ∷ es)
      → Reads (logs_between l table db (max_id i es, min_id i es)) (values_of ((i, log) ∷ es))
  logs_between_lem table db i log es h asc small =
      let (ordered, top, covers) = range-covers i log es asc small in
      let n = max_id i es - min_id i es + 1 in
      let ids = count_up n (min_id i es) in
      let batches = concat-batch ids 7 in
      let (read, same, answered) =
        each_read_lem table db ((i, log) ∷ es) (batch ids 7) h
          (batch_fits ids 7 (omega arith) (omega arith)
            (count_up-ne-nil n (min_id i es) (omega arith)))
          (subst IsAscending (sym batches)
            (count_up-IsAscending n (min_id i es) (omega (arith, ordered, top)))) in
      (
        read,
        subst (λ x. Perm read (map as_read x)) (ap (at_all ((i, log) ∷ es)) batches ∙ covers) same,
        ap (λ o. and_then_ok o (λ ids. each_read (get_logs_batch l table db) (batch ids 7)))
              (signed_range-count_up (min_id i es) (max_id i es) ordered top)
            ∙ answered,
      )

  after_scan-none :
      (table : String) (db : D) (error close : Option String) (x : String ⊎ List (ℕ × ℕ))
      → logs_of_count l table db 0 (after_scan l error close x) ≡ ok []
  after_scan-none table db error close (inl e) = refl
  after_scan-none table db (some e) close (inr xs) = refl
  after_scan-none table db none close (inr xs) = refl

  max_min-none :
      (table : String) (db : D) (q : Query) (r : Rows)
      → l.query q db ≡ inr r
      → logs_of_count l table db 0 (read l (the_first l ∷ the_second l ∷ []) (0, 0) q db) ≡ ok []
  unfolding read
  max_min-none table db q r h =
      ap (λ x. logs_of_count l table db 0 (read_rows l (the_first l ∷ the_second l ∷ []) (0, 0) x))
        h
      ∙ after_scan-none table db r.error r.close
          (scan_all l (the_first l ∷ the_second l ∷ []) (0, 0) r.rows)

  count_logs-all :
      (node_id : ℕ) (table : String) (db : D) (es : List (ℕ × JobExecutionLog))
      → t.rows table db ≡ stored es
      → read_closed (count_logs l node_id table db) ≡ ok (length es ∷ [])
  count_logs-all node_id table db es h = ap read_closed (
      read_number (select (select_from table ("count(*)" ∷ [])) (needless node_id)) db (length es) (
        t.counts table (needless node_id) db
        ∙ ap (λ n. inr (done ((number n ∷ []) ∷ []))) (ap length h ∙ length-stored es)))

  max_min_ids-all :
      (node_id : ℕ) (table : String) (db : D) (i : ℕ) (log : JobExecutionLog)
      (es : List (ℕ × JobExecutionLog))
      → t.rows table db ≡ stored ((i, log) ∷ es)
      → max_min_ids l node_id table db ≡ all_rows ((max_id i es, min_id i es) ∷ []) none
  max_min_ids-all node_id table db i log es h =
      read_numbers
        (select (select_from table ("max(id) as maxId" ∷ "min(id) as minId" ∷ []))
          (needless node_id))
        db (max_id i es) (min_id i es)
        (t.id_bounds table (needless node_id) db
          ∙ ap (λ r. inr (done (bounds_row r ∷ []))) h
          ∙ ap₂ (λ m n. inr (done ((number m ∷ number n ∷ []) ∷ []))) (max_id-stored i es)
              (min_id-stored i es))

  logs_of_count-some :
      (table : String) (db : D) (n : ℕ) (bounds : ℕ × ℕ)
      → 0 < n
      → n < 2 ^ 63
      → logs_of_count l table db n (all_rows (bounds ∷ []) none) ≡ logs_between l table db bounds
  logs_of_count-some table db n bounds h k =
      let few : slt n 1 ≡ false = ground (arith, h, k) in rw few refl

  -- GetExecutionLogs gives every log of the table once, in some order, each with the fields that were
  -- written and the id 0, for a table whose rows are logs with ascending ids below the largest int64
  -- and fewer than 2 ^ 63, of a database that answers the queries as sqlite does.
  pub get_execution_logs_lem :
      (node_id : ℕ) (committed : Bool) (db : D) (es : List (ℕ × JobExecutionLog))
      → t.rows (executions_table committed) db ≡ stored es
      → IsAscending (ids_of es)
      → All (λ e. e.0 < 2 ^ 63 - 1) es
      → length es < 2 ^ 63
      → Reads (get_execution_logs l node_id committed db) (values_of es)
  unfolding get_execution_logs
  get_execution_logs_lem node_id committed db [] h asc small few =
      let table = executions_table committed in
      (
        [],
        Perm.refl [],
        ap
              (λ o. and_then_ok o (λ counts.
                logs_of_count l table db (last_or 0 counts) (max_min_ids l node_id table db)))
              (count_logs-all node_id table db [] h)
            ∙ max_min-none table db _ (done (bounds_row (t.rows table db) ∷ []))
                (t.id_bounds table (needless node_id) db),
      )
  get_execution_logs_lem node_id committed db ((i, log) ∷ es) h asc small few =
      let table = executions_table committed in
      let (read, same, answered) = logs_between_lem table db i log es h asc small in
      (
        read,
        same,
        ap
              (λ o. and_then_ok o (λ counts.
                logs_of_count l table db (last_or 0 counts) (max_min_ids l node_id table db)))
              (count_logs-all node_id table db ((i, log) ∷ es) h)
            ∙ ap (logs_of_count l table db (length ((i, log) ∷ es)))
                (max_min_ids-all node_id table db i log es h)
            ∙ logs_of_count-some table db (length ((i, log) ∷ es)) (max_id i es, min_id i es)
                (omega arith) few
            ∙ answered,
      )
