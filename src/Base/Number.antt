-- ===== src/Base/Number.antt =====
-- A JavaScript number, as far as the code looks at one: NaN, the infinities, and a finite number by
-- its floor and whether it has a fraction.
use Prim.Native.Nat.{ℕ, zero, min, max}
use mathlib.Core.Bool.{Bool, true, false, not, ◌&&◌}
use mailgun_ses_proxy.Base.Tests.{ltb, leb, if◌then◌else◌}

-- `negsuc n` is -(n + 1).
pub data ℤ : Type 0 where
  pos : ℕ → ℤ
  negsuc : ℕ → ℤ

pub data Number : Type 0 where
  nan infinity neg_infinity : Number
  finite : (floor : ℤ) (fraction : Bool) → Number

-- max(0, z).
abbrev pub to_nat : ℤ → ℕ
to_nat (pos n) = n
to_nat (negsuc n) = 0

abbrev pub is_finite : Number → Bool
is_finite (finite z f) = true
is_finite _ = false

abbrev pub floor : Number → ℤ
floor (finite z f) = z
floor _ = pos 0

abbrev pub is_integer : Number → Bool
is_integer (finite z f) = not f
is_integer _ = false

abbrev pub max_safe_integer : ℕ
max_safe_integer = 9007199254740991

abbrev pub is_safe : ℤ → Bool
is_safe (pos n) = leb n max_safe_integer
is_safe (negsuc n) = ltb n max_safe_integer

abbrev pub is_safe_integer : Number → Bool
is_safe_integer (finite z f) = not f && is_safe z
is_safe_integer _ = false

-- `v < 0` and `v <= 0`.
abbrev pub is_negative : Number → Bool
is_negative neg_infinity = true
is_negative (finite (negsuc n) f) = true
is_negative _ = false

abbrev pub is_not_positive : Number → Bool
is_not_positive (finite (pos zero) f) = not f
is_not_positive v = is_negative v

-- `v > n` for a natural number n.
abbrev pub exceeds : Number → ℕ → Bool
exceeds infinity n = true
exceeds (finite (pos m) f) n = if f then leb n m else ltb n m
exceeds _ n = false

abbrev pub nat : ℕ → Number
nat n = finite (pos n) false

-- min(hi, max(lo, floor v)) for natural bounds.
abbrev pub clamp_floor : ℕ → ℕ → Number → ℕ
clamp_floor lo hi v = min hi (max lo (to_nat (floor v)))
