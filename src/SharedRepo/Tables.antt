-- ===== src/SharedRepo/Tables.antt =====
-- What sqlite promises of the statements of the shared repository, on a table of rows with ids.
use mathlib.Core.List.{Perm}
use scheduler.Batch.{db_max_variable_size}
use scheduler.Base.{
  ◌≤◌, ℕ, ◌+◌, ◌<◌, ◌≡◌, Bool, true, false, ◌==◌, List, [], ◌∷◌, ◌++◌, map, length, Option, none,
  some, inr, String, if◌then◌else◌, leb, comparable_string, comparable_uint,
}
use scheduler.Base.Maps.{lookup}
use scheduler.RaftLog.{Executed}
use scheduler.Sql.{Value, text, number, null, within, select, insert, remove, Rows, Store}
use scheduler.Sql.Scans.{Scans}
use scheduler.SharedRepo.{select_from, logs_with_ids}

-- A row of a table: the value of each column.
abbrev pub Row : Type 0
Row = List (String × Value)

abbrev pub or_null : Option Value → Value
or_null none = null
or_null (some v) = v

unfoldable pub column : Row → String → Value
unfolding lookup
column row name = or_null (lookup name row)

-- The columns of an INSERT with their values.
abbrev pub pair : List String → List Value → Row
pair [] vs = []
pair (c ∷ cs) [] = []
pair (c ∷ cs) (v ∷ vs) = (c, v) ∷ pair cs vs

-- Inserted rows get the ids from `n` on.
abbrev pub numbered : ℕ → List String → List (List Value) → List (ℕ × Row)
numbered n cs [] = []
numbered n cs (vs ∷ vss) = (n, pair cs vs) ∷ numbered (n + 1) cs vss

abbrev pub same_value : Value → Value → Bool
same_value (text s) (text t) = s == t
same_value (number m) (number n) = m == n
same_value v w = false

abbrev pub mem_value : Value → List Value → Bool
mem_value v [] = false
mem_value v (w ∷ ws) = if same_value v w then true else mem_value v ws

-- The rows that a DELETE with `c IN (vs)` leaves.
abbrev pub without : String → List Value → List (ℕ × Row) → List (ℕ × Row)
without c vs [] = []
without c vs ((i, row) ∷ rows) =
    if mem_value (column row c) vs then without c vs rows else (i, row) ∷ without c vs rows

-- The rows with an id.
abbrev pub at : {A : Type 0} → List (ℕ × A) → ℕ → List A
at [] i = []
at ((j, a) ∷ rows) i = if j == i then a ∷ at rows i else at rows i

-- The rows with some ids, in the order of the ids.
abbrev pub at_all : {A : Type 0} → List (ℕ × A) → List ℕ → List A
at_all rows [] = []
at_all rows (i ∷ ids) = at rows i ++ at_all rows ids

abbrev pub IsAscending : List ℕ → Type 0
IsAscending [] = Unit
IsAscending (i ∷ []) = Unit
IsAscending (i ∷ j ∷ ids) = (i < j) × IsAscending (j ∷ ids)

abbrev pub max_id : {A : Type 0} → ℕ → List (ℕ × A) → ℕ
max_id m [] = m
max_id m ((i, a) ∷ rows) = max_id (if leb m i then i else m) rows

abbrev pub min_id : {A : Type 0} → ℕ → List (ℕ × A) → ℕ
min_id m [] = m
min_id m ((i, a) ∷ rows) = min_id (if leb i m then i else m) rows

abbrev pub bounds_row : {A : Type 0} → List (ℕ × A) → List Value
bounds_row [] = null ∷ null ∷ []
bounds_row ((i, a) ∷ rows) = number (max_id i rows) ∷ number (min_id i rows) ∷ []

abbrev pub done : List (List Value) → Rows
done rows = record { rows = rows; error = none; close = none }

-- The rows of each table with their ids, and the id of the next row. INSERT appends, DELETE removes the
-- rows with one of the values, both in one table; `count(*)`, `max(id)` and `min(id)` are those of the
-- rows; the rows that are selected by some ids, each one once and no more of them than a statement takes
-- variables, come in some order. Rollback gives back the database on which the transaction began.
pub record Tables {D : Type 0} (l : Store D) : Type 0 where
  pub scans : Scans l
  pub rows : String → D → List (ℕ × Row)
  pub next : String → D → ℕ
  pub inserted :
      (t : String) (cs : List String) (vss : List (List Value)) (db : D) (x : Executed D)
      → l.exec (insert t cs vss) db ≡ inr x
      → (rows t x.db ≡ rows t db ++ numbered (next t db) cs vss)
        × (next t x.db ≡ next t db + length vss)
  pub removed :
      (t c : String) (vs : List Value) (db : D) (x : Executed D)
      → l.exec (remove t (within c vs)) db ≡ inr x
      → rows t x.db ≡ without c vs (rows t db)
  pub rolled_back : (db : D) → (l.roll_back db).1 ≡ db
  pub counts :
      (t : String) (args : List Value) (db : D)
      → l.query (select (select_from t ("count(*)" ∷ [])) args) db
        ≡ inr (done ((number (length (rows t db)) ∷ []) ∷ []))
  pub id_bounds :
      (t : String) (args : List Value) (db : D)
      → l.query (select (select_from t ("max(id) as maxId" ∷ "min(id) as minId" ∷ [])) args) db
        ≡ inr (done (bounds_row (rows t db) ∷ []))
  pub picked :
      (t : String) (ids : List ℕ) (db : D)
      → IsAscending ids
      → length ids ≤ db_max_variable_size
      → (order : List ℕ) × Perm order ids
        × (l.query (select (logs_with_ids l t ids) []) db
            ≡ inr (
                done (
                  map
                    (λ row. map (column row) (logs_with_ids l t ids).columns)
                    (at_all (rows t db) order))))
