-- ===== src/Sql/Reads.antt =====
-- The loop `for rows.Next() { rows.Scan(…) }` over the rows of a query.
use scheduler.Base.{
  ℕ, Bool, List, [], ◌∷◌, ◌++◌, map, Option, none, some, ◌⊎◌, inl, inr, String, nat_beq, length,
  if◌then◌else◌, ◌+◌,
}
use scheduler.Sql.Values.{Value, Query, Rows, Store, Outcome, ok, and_then_ok, and_then_in}

-- A destination of Scan: a field of a record.
abbrev pub Setter : Type 0 → Type 0
Setter A = Value → A → String ⊎ A

-- What comes of a query and its loop: the query fails; a row does not fit the destinations; Err is not
-- nil after the rows; or all is read. The last two have what Close gives.
pub data RowsRead (A : Type 0) : Type 0 where
  no_query : String → RowsRead A
  no_scan : String → RowsRead A
  no_rows : String → List A → Option String → RowsRead A
  all_rows : List A → Option String → RowsRead A

-- The last row scanned into one record; `a` is what it holds before.
abbrev pub last_or : {A : Type 0} → A → List A → A
last_or a [] = a
last_or a (x ∷ xs) = last_or x xs

module _ {A : Type 0} where
  abbrev pub set_with : {V : Type 0} → (V → A → A) → A → String ⊎ V → String ⊎ A
  set_with set a (inl e) = inl e
  set_with set a (inr v) = inr (set v a)

  -- Fields are filled one by one, up to the first that does not fit.
  unfoldable pub fill : List (Setter A) → List Value → A → Option String × A
  fill [] vs a = (none, a)
  fill (f ∷ fs) [] a = (none, a)
  fill (f ∷ fs) (v ∷ vs) a = elim (f v a) [ inl e ↦ (some e, a) | inr b ↦ fill fs vs b ]

  abbrev pub scanned : Option String → A → String ⊎ List A → String ⊎ List A
  scanned (some e) x rest = inl e
  scanned none x (inl e) = inl e
  scanned none x (inr xs) = inr (x ∷ xs)

module _ {D : Type 0} (l : Store D) {A : Type 0} where
  abbrev pub set_number : (ℕ → A → A) → Setter A
  set_number set v a = set_with set a (l.to_number v)

  abbrev pub set_text : (String → A → A) → Setter A
  set_text set v a = set_with set a (l.to_text v)

  abbrev pub set_flag : (Bool → A → A) → Setter A
  set_flag set v a = set_with set a (l.to_flag v)

  abbrev pub set_time : (ℕ → A → A) → Setter A
  set_time set v a = set_with set a (l.to_time v)

  -- Rows.Scan
  unfoldable pub scan : List (Setter A) → A → List Value → Option String × A
  unfolding fill
  scan fs a vs = if nat_beq (length fs) (length vs) then fill fs vs a else (some l.wrong_count, a)

  -- A loop that ends at a row that does not fit.
  unfoldable pub scan_all : List (Setter A) → A → List (List Value) → String ⊎ List A
  unfolding scan
  scan_all fs zero [] = inr []
  scan_all fs zero (r ∷ rs) =
      let (failure, x) = scan fs zero r in scanned failure x (scan_all fs zero rs)

  -- A loop that looks at the wrong error: a row that does not fit stays filled in part.
  unfoldable pub scan_unchecked : List (Setter A) → A → List (List Value) → List A
  unfolding scan
  scan_unchecked fs zero rs = map (λ r. (scan fs zero r).1) rs

  -- The same for one record that each row is scanned into.
  unfoldable pub scan_over : List (Setter A) → A → List (List Value) → A
  unfolding scan
  scan_over fs a [] = a
  scan_over fs a (r ∷ rs) = scan_over fs (scan fs a r).1 rs

  abbrev pub after_rows : Option String → Option String → List A → RowsRead A
  after_rows (some e) close xs = no_rows e xs close
  after_rows none close xs = all_rows xs close

  abbrev pub after_scan : Option String → Option String → String ⊎ List A → RowsRead A
  after_scan error close (inl e) = no_scan e
  after_scan error close (inr xs) = after_rows error close xs

  abbrev pub read_rows : List (Setter A) → A → String ⊎ Rows → RowsRead A
  read_rows fs zero (inl e) = no_query e
  read_rows fs zero (inr r) = after_scan r.error r.close (scan_all fs zero r.rows)

  unfoldable pub read : List (Setter A) → A → Query → D → RowsRead A
  unfolding scan_all
  read fs zero q db = read_rows fs zero (l.query q db)

  -- Both with the scan errors not looked at.
  abbrev pub read_rows_unchecked : List (Setter A) → A → String ⊎ Rows → RowsRead A
  read_rows_unchecked fs zero (inl e) = no_query e
  read_rows_unchecked fs zero (inr r) = after_rows r.error r.close (scan_unchecked fs zero r.rows)

  unfoldable pub read_unchecked : List (Setter A) → A → Query → D → RowsRead A
  unfolding scan_unchecked
  read_unchecked fs zero q db = read_rows_unchecked fs zero (l.query q db)

  abbrev pub read_rows_over : List (Setter A) → A → String ⊎ Rows → RowsRead A
  read_rows_over fs zero (inl e) = no_query e
  read_rows_over fs zero (inr r) = after_rows r.error r.close (scan_over fs zero r.rows ∷ [])

  unfoldable pub read_over : List (Setter A) → A → Query → D → RowsRead A
  unfolding scan_over
  read_over fs zero q db = read_rows_over fs zero (l.query q db)

-- What a loop that scans into one record leaves: how it ended, the rows scanned, the record.
pub data Ended : Type 0 where
  query_failed : String → Ended
  scan_failed : String → Ended
  rows_failed : String → Ended
  whole : Ended

pub record One (A : Type 0) : Type 0 where
  pub ended : Ended
  pub count : ℕ
  pub value : A

abbrev pub at_end : Option String → Ended
at_end (some e) = rows_failed e
at_end none = whole

module _ {D : Type 0} (l : Store D) {A : Type 0} where
  unfoldable pub scan_one : List (Setter A) → Option String → ℕ → A → List (List Value) → One A
  unfolding scan
  scan_one fs error n a [] = record { ended = at_end error; count = n; value = a }
  scan_one fs error n a (r ∷ rs) =
      let (failure, b) = scan l fs a r in
      let rest = scan_one fs error (n + 1) b rs in
      elim failure [ some e ↦ record { ended = scan_failed e; count = n; value = b } | none ↦ rest ]

  unfoldable pub read_one : List (Setter A) → A → Query → D → One A
  unfolding scan_one
  read_one fs a q db = elim (l.query q db) [
    | inl e ↦ record { ended = query_failed e; count = 0; value = a }
    | inr r ↦ scan_one fs r.error 0 a r.rows
  ]

-- One query a batch, and the results in order; the first that does not end well ends it.
module _ {E A : Type 0} where
  unfoldable pub each_read : (List ℕ → Outcome E (List A)) → List (List ℕ) → Outcome E (List A)
  each_read get [] = ok []
  each_read get (b ∷ bs) =
      let rest = each_read get bs in
      and_then_ok (get b) (λ xs. and_then_ok rest (λ ys. ok (xs ++ ys)))

-- One statement a batch.
module _ {E A : Type 0} {D : Type 0} where
  unfoldable pub each_batch :
      (List A → D → Outcome E (Unit {0}) × D) → List (List A) → D → Outcome E (Unit {0}) × D
  each_batch act [] db = (ok tt, db)
  each_batch act (b ∷ bs) db = and_then_in (act b db) (λ u db'. each_batch act bs db')

module _ {E A B : Type 0} {D : Type 0} where
  -- The same with results, in order.
  unfoldable pub each_insert :
      (List A → D → Outcome E (List B) × D) → List (List A) → D → Outcome E (List B) × D
  each_insert act [] db = (ok [], db)
  each_insert act (b ∷ bs) db =
      and_then_in (act b db)
        (λ xs db'. and_then_in (each_insert act bs db') (λ ys db''. (ok (xs ++ ys), db'')))
