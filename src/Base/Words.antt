-- ===== src/Base/Words.antt =====
-- 64-bit machine words. An `int64` or `int` of the source is its bit pattern, a number below
-- 2 ^ 64; the signed order goes by the pattern with its sign bit flipped.
use Prim.Native.Nat.{ℕ, ◌+◌, ◌-◌, ◌/◌, ◌%◌, ◌^◌, ◌<◌}
use mathlib.Core.Path.{◌≡◌, refl}
use mathlib.Core.Bool.{Bool}
use native.Mathlib.Omega.{arith}
use scheduler.Base.Tests.{ltb, leb, if◌then◌else◌}

abbrev pub max_int64 : ℕ
max_int64 = 2 ^ 63 - 1

abbrev pub min_int64 : ℕ
min_int64 = 2 ^ 63

-- math.MinInt16 as an int64.
abbrev pub min_int16 : ℕ
min_int16 = 2 ^ 64 - 2 ^ 15

abbrev pub add64 : ℕ → ℕ → ℕ
add64 a b = (a + b) % 2 ^ 64

abbrev pub sub64 : ℕ → ℕ → ℕ
sub64 a b = (a + 2 ^ 64 - b) % 2 ^ 64

-- Conversion of an unbounded count or a uint64 into a 64-bit pattern.
abbrev pub word64 : ℕ → ℕ
word64 a = a % 2 ^ 64

-- The pattern with its sign bit flipped: the signed order is the order of these.
abbrev pub bias : ℕ → ℕ
bias a = (a + 2 ^ 63) % 2 ^ 64

-- a < b and a ≤ b on int64.
abbrev pub slt : ℕ → ℕ → Bool
slt a b = ltb (bias a) (bias b)

abbrev pub sle : ℕ → ℕ → Bool
sle a b = leb (bias a) (bias b)

abbrev pub is_negative : ℕ → Bool
is_negative a = leb (2 ^ 63) a

abbrev pub neg64 : ℕ → ℕ
neg64 a = (2 ^ 64 - a) % 2 ^ 64

abbrev pub abs64 : ℕ → ℕ
abs64 a = if is_negative a then 2 ^ 64 - a else a

-- Division of int64 is truncated towards zero. (By zero it panics: callers test before.)
abbrev pub sdiv64 : ℕ → ℕ → ℕ
sdiv64 a b =
    if is_negative a
    then (if is_negative b then abs64 a / abs64 b else neg64 (abs64 a / b))
    else (if is_negative b then neg64 (a / abs64 b) else a / b)

sdiv64_example : sdiv64 (2 ^ 64 - 7) 2 ≡ 2 ^ 64 - 3
sdiv64_example = refl

-- On patterns of numbers that are not negative, signed and unsigned orders agree.
pub slt-ltb : (a b : ℕ) → a < 2 ^ 63 → b < 2 ^ 63 → slt a b ≡ ltb a b
slt-ltb a b ha hb = ground arith

pub sle-leb : (a b : ℕ) → a < 2 ^ 63 → b < 2 ^ 63 → sle a b ≡ leb a b
sle-leb a b ha hb = ground arith

pub sdiv64-div : (a b : ℕ) → a < 2 ^ 63 → b < 2 ^ 63 → sdiv64 a b ≡ a / b
sdiv64-div a b ha hb = ground arith
