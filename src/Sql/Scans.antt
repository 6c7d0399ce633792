-- ===== src/Sql/Scans.antt =====
-- Scan on values of the kinds of the destinations.
use scheduler.Base.{ℕ, ◌≡◌, refl, ap, List, [], ◌∷◌, inr, String, Bool, none}
use scheduler.Sql.Values.{Value, text, number, flag, time, Store, Query, Rows}
use scheduler.Sql.Reads.{
  Setter, set_with, set_number, set_text, set_flag, set_time, fill, scan_all, all_rows, read,
}

-- What Scan makes of a value of the destination's kind.
pub record Scans {D : Type 0} (l : Store D) : Type 0 where
  pub texts : (s : String) → l.to_text (text s) ≡ inr s
  pub numbers : (n : ℕ) → l.to_number (number n) ≡ inr n
  pub flags : (b : Bool) → l.to_flag (flag b) ≡ inr b
  pub times : (n : ℕ) → l.to_time (time n) ≡ inr n

fill-step :
    {A : Type 0} (f : Setter A) (fs : List (Setter A)) (v : Value) (vs : List Value) (a b : A)
    → f v a ≡ inr b
    → fill (f ∷ fs) (v ∷ vs) a ≡ fill fs vs b
unfolding fill
fill-step f fs v vs a b h = rw h refl

pub fill-nil : {A : Type 0} (a : A) → fill [] [] a ≡ (none, a)
unfolding fill
fill-nil a = refl

module _ {D : Type 0} (l : Store D) (s : Scans l) {A : Type 0} where
  pub fill-number :
      (set : ℕ → A → A) (fs : List (Setter A)) (n : ℕ) (vs : List Value) (a : A)
      → fill (set_number l set ∷ fs) (number n ∷ vs) a ≡ fill fs vs (set n a)
  fill-number set fs n vs a =
      fill-step (set_number l set) fs (number n) vs a (set n a) (ap (set_with set a) (s.numbers n))

  pub fill-text :
      (set : String → A → A) (fs : List (Setter A)) (n : String) (vs : List Value) (a : A)
      → fill (set_text l set ∷ fs) (text n ∷ vs) a ≡ fill fs vs (set n a)
  fill-text set fs n vs a =
      fill-step (set_text l set) fs (text n) vs a (set n a) (ap (set_with set a) (s.texts n))

  pub fill-flag :
      (set : Bool → A → A) (fs : List (Setter A)) (n : Bool) (vs : List Value) (a : A)
      → fill (set_flag l set ∷ fs) (flag n ∷ vs) a ≡ fill fs vs (set n a)
  fill-flag set fs n vs a =
      fill-step (set_flag l set) fs (flag n) vs a (set n a) (ap (set_with set a) (s.flags n))

  pub fill-time :
      (set : ℕ → A → A) (fs : List (Setter A)) (n : ℕ) (vs : List Value) (a : A)
      → fill (set_time l set ∷ fs) (time n ∷ vs) a ≡ fill fs vs (set n a)
  fill-time set fs n vs a =
      fill-step (set_time l set) fs (time n) vs a (set n a) (ap (set_with set a) (s.times n))

module _ {D : Type 0} (l : Store D) {A : Type 0} where
  -- The rows of a query that all fit, with no error.
  pub read-all_rows :
      (fs : List (Setter A)) (zero : A) (q : Query) (db : D) (r : Rows) (xs : List A)
      → l.query q db ≡ inr r
      → r.error ≡ none
      → scan_all l fs zero r.rows ≡ inr xs
      → read l fs zero q db ≡ all_rows xs r.close
  unfolding read
  read-all_rows fs zero q db r xs h e k = rw (h, k, e) refl
