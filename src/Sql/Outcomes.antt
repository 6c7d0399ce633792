-- ===== src/Sql/Outcomes.antt =====
-- How calls end, by the way that their parts end.
use mathlib.Core.Path.{Path}
use scheduler.Base.{◌≡◌, refl, ap}
use scheduler.Sql.Values.{Outcome, ok, err, panics, exits, loops, and_then_in}

pub err-ne-ok : {E A : Type 0} (e : E) {a : A} → (err e ≡ ok a) → ⊥
err-ne-ok e h = cc

-- A chain that gives a value has parts that give one.
pub and_then_in-ok :
    {E A B D : Type 0} (r : Outcome E A × D) (f : A → D → Outcome E B × D) (b : B) (db : D)
    → and_then_in r f ≡ (ok b, db)
    → (a : A) × (db' : D) × (r ≡ (ok a, db')) × (f a db' ≡ (ok b, db))
and_then_in-ok (ok a, db') f b db h = (a, db', refl, h)
and_then_in-ok (err e, db') f b db h = absurd (cc)
and_then_in-ok (panics, db') f b db h = absurd (cc)
and_then_in-ok (exits, db') f b db h = absurd (cc)
and_then_in-ok (loops, db') f b db h = absurd (cc)

abbrev value_or : {E A : Type 0} → A → Outcome E A → A
value_or d (ok a) = a
value_or d (err e) = d
value_or d panics = d
value_or d exits = d
value_or d loops = d

pub ok_injective : {E A : Type 0} (a b : A) → Path (Outcome E A) (ok a) (ok b) → a ≡ b
ok_injective a b h = ap (value_or a) h
