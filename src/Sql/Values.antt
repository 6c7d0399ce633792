-- ===== src/Sql/Values.antt =====
-- Statements, queries and results of database/sql, and pkg/utils/errors.go.
use scheduler.Base.{
  ℕ, suc, Bool, List, [], ◌∷◌, Option, ◌⊎◌, String, zero, nat_beq, ltb, if◌then◌else◌, ◌^◌, ◌-◌,
  ◌+◌,
}
use scheduler.Base.Words.{add64, sub64, sle, max_int64}
use scheduler.RaftLog.{Executed, FsmResponse}

-- A driver.Value, as a parameter or in a row.
pub data Value : Type 0 where
  text : String → Value
  number : ℕ → Value
  flag : Bool → Value
  time : ℕ → Value
  null : Value

-- `column = ?`, `column IN (?, …)` and `column BETWEEN ? AND ?`.
pub data Condition : Type 0 where
  is : String → Value → Condition
  within : String → List Value → Condition
  between : String → Value → Value → Condition

-- A SELECT. Several tables stand for their UNION ALL; an empty `order_by` for no ORDER BY.
pub record Select : Type 0 where
  pub columns : List String
  pub from : List String
  pub conditions : List Condition
  pub order_by : String
  pub offset : Option ℕ
  pub limit : Option ℕ

-- `select` has the arguments that its text has no placeholder for. `first_rows` is
-- `select columns from (select columns, row_number() over (partition by column order by order)
-- rowNum from tables where condition) where rowNum = 1`.
pub data Query : Type 0 where
  select : Select → List Value → Query
  union : Select → Select → Query
  first_rows : List String → List String → String → String → Condition → Query

-- `INSERT INTO table (columns) VALUES (…), …`, `UPDATE table SET column = ?, … WHERE …` and
-- `DELETE FROM table WHERE …`.
pub data Statement : Type 0 where
  insert : String → List String → List (List Value) → Statement
  update : String → List (String × Value) → Condition → Statement
  remove : String → Condition → Statement

-- A sql.Rows: its rows, and what Err and Close give after them.
pub record Rows : Type 0 where
  pub rows : List (List Value)
  pub error : Option String
  pub close : Option String

-- A connection with its transactions and the conversions of Scan, and WriteCommandToRaftLog of a
-- CommandTypeDbExecute, for its target nodes and action; its errors have status 500. A transaction
-- that is not committed leaves the database.
pub record Store (D : Type 0) : Type 0 where
  pub begin_tx : D → Option String
  pub exec : Statement → D → String ⊎ Executed D
  pub commit : D → Option String
  pub roll_back : D → Option String × D
  pub query : Query → D → String ⊎ Rows
  pub to_number : Value → String ⊎ ℕ
  pub to_text : Value → String ⊎ String
  pub to_flag : Value → String ⊎ Bool
  pub to_time : Value → String ⊎ ℕ
  pub wrong_count : String
  pub write : Statement → List ℕ → ℕ → D → (String ⊎ Option FsmResponse) × D

-- utils.GenericError
pub record GenericError : Type 0 where
  pub message : String
  pub type : ℕ

-- HTTPGenericError
abbrev pub http_error : ℕ → String → GenericError
http_error status message = record { message = message; type = status }

-- How a call ends: with a value, with an error, with a panic, with log.Fatal, or not at all.
pub data Outcome (E A : Type 0) : Type 0 where
  ok : A → Outcome E A
  err : E → Outcome E A
  panics : Outcome E A
  exits : Outcome E A
  loops : Outcome E A

module _ {E A B : Type 0} where
  abbrev pub and_then_ok : Outcome E A → (A → Outcome E B) → Outcome E B
  and_then_ok (ok a) f = f a
  and_then_ok (err e) f = err e
  and_then_ok panics f = panics
  and_then_ok exits f = exits
  and_then_ok loops f = loops

  -- The same with a state, which keeps what was written before.
  abbrev pub and_then_in :
      {D : Type 0} → Outcome E A × D → (A → D → Outcome E B × D) → Outcome E B × D
  and_then_in (ok a, db) f = f a db
  and_then_in (err e, db) f = (err e, db)
  and_then_in (panics, db) f = (panics, db)
  and_then_in (exits, db) f = (exits, db)
  and_then_in (loops, db) f = (loops, db)

-- `n` numbers from `i` on, as 64-bit words.
unfoldable pub count_up : ℕ → ℕ → List ℕ
count_up zero i = []
count_up (suc n) i = i ∷ count_up n (add64 i 1)

-- `for i := min; i <= max; i++` on uint64: no uint64 is above the largest one, so that a loop up to
-- it does not end.
unfoldable pub unsigned_range : {E : Type 0} → ℕ → ℕ → Outcome E (List ℕ)
unfolding count_up
unsigned_range min max =
    if ltb max min
    then ok []
    else if nat_beq max (2 ^ 64 - 1)
    then loops
    else ok (count_up (sub64 max min + 1) min)

-- ExpandIdsRange of uint64: `make` panics where its capacity does not fit the address space of amd64.
unfoldable pub expand_ids_range : {E : Type 0} → ℕ → ℕ → Outcome E (List ℕ)
unfolding unsigned_range
expand_ids_range min max = if ltb (2 ^ 45) (sub64 max min) then panics else unsigned_range min max

-- `for i := min; i <= max; i++` on int64.
unfoldable pub signed_range : {E : Type 0} → ℕ → ℕ → Outcome E (List ℕ)
unfolding count_up
signed_range min max =
    if sle min max
    then if nat_beq max max_int64 then loops else ok (count_up (sub64 max min + 1) min)
    else ok []
