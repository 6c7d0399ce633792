-- ===== src/Base/Floats.antt =====
-- The conversions between int64 and float64 that the source makes. Every float of the source is a
-- whole number, so a float64 is a signed integer, rounded to 53 significant bits.
use Prim.Native.Nat.{ℕ, zero, suc, ◌+◌, ◌-◌, ◌*◌, ◌/◌, ◌%◌, ◌^◌, ◌≤◌}
use mathlib.Core.Path.{◌≡◌, refl}
use native.Mathlib.Omega.{arith}
use scheduler.Base.Tests.{ltb, leb, if◌then◌else◌}
use scheduler.Base.Words.{is_negative, abs64}

-- To the nearest multiple of `unit`, a tie to the even multiple.
round_to : ℕ → ℕ → ℕ
round_to unit n =
    if ltb (2 * (n % unit)) unit
    then n / unit * unit
    else if ltb unit (2 * (n % unit))
    then (n / unit + 1) * unit
    else (n / unit + n / unit % 2) * unit

-- The exponent is searched upwards; 64-bit values need at most 11 steps.
round_from : ℕ → ℕ → ℕ → ℕ
unfolding round_to
round_from zero k n = round_to (2 ^ k) n
round_from (suc fuel) k n =
    let more = round_from fuel (k + 1) n in
    if ltb n (2 ^ (53 + k)) then round_to (2 ^ k) n else more

-- float64(n) for a uint64 or a non-negative int64.
unfoldable pub float64 : ℕ → ℕ
unfolding round_from
float64 n = if leb n (2 ^ 53) then n else round_from 10 1 n

-- A whole float64.
pub data Float : Type 0 where
  pos : ℕ → Float
  neg : ℕ → Float

-- float64(a) for an int64 `a`.
abbrev pub float_of_int64 : ℕ → Float
float_of_int64 a = if is_negative a then neg (float64 (abs64 a)) else pos (float64 a)

-- math.Min.
abbrev pub float_min : Float → Float → Float
float_min (pos a) (pos b) = if leb a b then pos a else pos b
float_min (pos a) (neg b) = neg b
float_min (neg a) (pos b) = neg a
float_min (neg a) (neg b) = if leb a b then neg b else neg a

-- int64(x). Out of range the amd64 instruction gives the least int64.
abbrev pub int64_of_float : Float → ℕ
int64_of_float (pos a) = if ltb a (2 ^ 63) then a else 2 ^ 63
int64_of_float (neg a) = if leb a (2 ^ 63) then (2 ^ 64 - a) % 2 ^ 64 else 2 ^ 63

float64_odd : float64 (2 ^ 53 + 1) ≡ 2 ^ 53
unfolding float64
float64_odd = refl

float64_max : float64 (2 ^ 64 - 1) ≡ 2 ^ 64
unfolding float64
float64_max = refl

-- Up to 2 ^ 53 the conversion is exact.
pub float64_exact : (n : ℕ) → n ≤ 2 ^ 53 → float64 n ≡ n
unfolding float64
float64_exact n h = ground arith

-- On non-negative int64 values up to 2 ^ 53, math.Min through float64 is the minimum.
pub float_min_exact :
    (a b : ℕ)
    → a ≤ 2 ^ 53
    → b ≤ 2 ^ 53
    → int64_of_float (float_min (float_of_int64 a) (float_of_int64 b)) ≡ (if leb a b then a else b)
float_min_exact a b ha hb = ground (arith, float64_exact a, float64_exact b)
