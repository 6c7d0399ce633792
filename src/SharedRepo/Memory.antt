-- ===== src/SharedRepo/Memory.antt =====
-- A database in memory for the tests: it answers the statements of the shared repository as sqlite does.
use mathlib.Core.List.Perm
use scheduler.Base.{
  ℕ, ◌+◌, ◌≡◌, refl, ap, subst, ◌==◌, Bool, List, [], ◌∷◌, ◌++◌, map, length, none, ◌⊎◌, inl, inr,
  String, if◌then◌else◌, comparable_string,
}
use scheduler.RaftLog.{Executed}
use scheduler.Sql.{
  Value, text, number, flag, time, within, Condition, Statement, insert, update, remove, Query,
  select, Rows, Store,
}
use scheduler.SharedRepo.{logs_with_ids}
use scheduler.SharedRepo.Tables.{Row, column, numbered, without, at_all, bounds_row, done, Tables}

-- The rows of a table, and its next id.
abbrev pub Memory : Type 0
Memory = String → List (ℕ × Row) × ℕ

abbrev pub with_table : String → List (ℕ × Row) × ℕ → Memory → Memory
with_table t rows db s = if s == t then rows else db s

abbrev pub answer : Memory → Executed Memory
answer db = record { db = db; last_insert_id = inr 0; rows_affected = inr 0 }

abbrev pub exec_in_memory : Statement → Memory → String ⊎ Executed Memory
exec_in_memory (insert t cs vss) db =
    inr (answer (with_table t ((db t).0 ++ numbered ((db t).1) cs vss, (db t).1 + length vss) db))
exec_in_memory (update t sets c) db = inl "not supported"
exec_in_memory (remove t (within c vs)) db =
    inr (answer (with_table t (without c vs ((db t).0), (db t).1) db))
exec_in_memory (remove t c) db = inl "not supported"

abbrev pub number_of : Value → List ℕ
number_of (number n) = n ∷ []
number_of v = []

abbrev pub numbers_of : List Value → List ℕ
numbers_of [] = []
numbers_of (v ∷ vs) = number_of v ++ numbers_of vs

abbrev pub selected_rows : List String → List Condition → List (ℕ × Row) → List (List Value)
selected_rows cs (within c vs ∷ conditions) rows =
    map (λ row. map (column row) cs) (at_all rows (numbers_of vs))
selected_rows cs conditions rows = []

abbrev pub first_of : List String → String
first_of [] = ""
first_of (c ∷ cs) = c

abbrev pub rows_for : List String → List Condition → List (ℕ × Row) → Rows
rows_for cs conditions rows =
    if first_of cs == "count(*)"
    then done ((number (length rows) ∷ []) ∷ [])
    else if first_of cs == "max(id) as maxId"
    then done (bounds_row rows ∷ [])
    else done (selected_rows cs conditions rows)

abbrev pub query_in_memory : Query → Memory → String ⊎ Rows
query_in_memory (select s args) db = inr (rows_for s.columns s.conditions (db (first_of s.from)).0)
query_in_memory q db = inl "not supported"

abbrev pub number_from : Value → String ⊎ ℕ
number_from (number n) = inr n
number_from v = inl "not a number"

abbrev pub text_from : Value → String ⊎ String
text_from (text s) = inr s
text_from v = inl "not a text"

abbrev pub flag_from : Value → String ⊎ Bool
flag_from (flag b) = inr b
flag_from v = inl "not a flag"

abbrev pub time_from : Value → String ⊎ ℕ
time_from (time n) = inr n
time_from v = inl "not a time"

abbrev pub memory : Store Memory
memory = record {
  begin_tx = λ db. none;
  exec = exec_in_memory;
  commit = λ db. none;
  roll_back = λ db. (none, db);
  query = query_in_memory;
  to_number = number_from;
  to_text = text_from;
  to_flag = flag_from;
  to_time = time_from;
  wrong_count = "sql: wrong number of destination arguments";
  write = λ s nodes action db. (inr none, db);
}

pub numbers_of-map : (ids : List ℕ) → numbers_of (map number ids) ≡ ids
numbers_of-map [] = refl
numbers_of-map (i ∷ ids) = ap (λ l. i ∷ l) (numbers_of-map ids)

pub with_table_same : (t : String) (v : List (ℕ × Row) × ℕ) (db : Memory) → with_table t v db t ≡ v
with_table_same t v db = rw ((comparable_string.same_iff t t).1 refl) refl

abbrev pub Holds : (Memory → Type 0) → String ⊎ Executed Memory → Type 0
Holds P (inl e) = Unit
Holds P (inr x) = P x.db

abbrev pub memory_tables : Tables memory
memory_tables = record {
  scans = record { texts = λ s. refl; numbers = λ n. refl; flags = λ b. refl; times = λ n. refl };
  rows = λ t db. (db t).0;
  next = λ t db. (db t).1;
  inserted = λ t cs vss db x h.
      let v : List (ℕ × Row) × ℕ = ((db t).0 ++ numbered (db t).1 cs vss, (db t).1 + length vss) in
      let same = with_table_same t v db in
      subst (Holds (λ m. ((m t).0 ≡ v.0) × ((m t).1 ≡ v.1))) h
        (ap (λ p. p.0) same, ap (λ p. p.1) same);
  removed = λ t c vs db x h.
      let v : List (ℕ × Row) × ℕ = (without c vs (db t).0, (db t).1) in
      subst (Holds (λ m. (m t).0 ≡ v.0)) h (ap (λ p. p.0) (with_table_same t v db));
  rolled_back = λ db. refl;
  counts = λ t args db. refl;
  id_bounds = λ t args db. refl;
  picked = λ t ids db h fits. (
    ids,
    Perm.refl ids,
    ap
        (λ is. inr (
          done (
            map (λ row. map (column row) (logs_with_ids memory t ids).columns)
              (at_all (db t).0 is))))
        (numbers_of-map ids),
  );
}
