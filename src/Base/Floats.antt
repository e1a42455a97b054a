-- ===== src/Base/Floats.antt =====
-- The order of `f64`. A float is its bit pattern: the sign, 11 bits of exponent, 52 of fraction.
use Prim.Native.Nat.{ℕ, ◌*◌, ◌/◌, ◌%◌, ◌^◌}
use mathlib.Core.Path.{◌≡◌}
use mathlib.Core.Logic.{◌⊎◌, inl, inr}
use mathlib.Core.Bool.{Bool, true, false, not, ◌&&◌}
use native.Mathlib.Omega.{arith}
use plgames_booster_up.Base.Tests.{ltb, ◌==◌, if◌then◌else◌, Bool-cases}

abbrev pub F64 : Type 0
F64 = ℕ

abbrev sign_bit : F64 → ℕ
sign_bit x = x / 2 ^ 63 % 2

abbrev magnitude : F64 → ℕ
magnitude x = x % 2 ^ 63

-- All bits of the exponent and some of the fraction are set.
abbrev is_nan : F64 → Bool
is_nan x = ltb (0x7FF * 2 ^ 52) (magnitude x)

-- `x < y`. The two zeros are equal, and a NaN is neither less nor greater.
unfoldable pub ltb_f64 : F64 → F64 → Bool
ltb_f64 x y =
    not (is_nan x)
    && not (is_nan y)
    && (if sign_bit x == 0
        then sign_bit y == 0 && ltb (magnitude x) (magnitude y)
        else if sign_bit y == 0
        then not (magnitude x == 0 && magnitude y == 0)
        else ltb (magnitude y) (magnitude x))

pub ltb_f64_trans : (x y z : F64) → ltb_f64 x y ≡ true → ltb_f64 y z ≡ true → ltb_f64 x z ≡ true
unfolding ltb_f64
ltb_f64_trans x y z h k = ground arith

pub ltb_f64_irrefl : (x : F64) → ltb_f64 x x ≡ false
unfolding ltb_f64
ltb_f64_irrefl x = ground arith

pub ltb_f64_asymm : (x y : F64) → ltb_f64 x y ≡ true → ltb_f64 y x ≡ false
unfolding ltb_f64
ltb_f64_asymm x y h = ground arith

-- At most, as far as the order of the floats goes.
abbrev pub AtMost : F64 → F64 → Type 0
AtMost x y = (x ≡ y) ⊎ (ltb_f64 x y ≡ true)

pub AtMost-below : (x y z : F64) → AtMost x y → ltb_f64 y z ≡ true → ltb_f64 x z ≡ true
AtMost-below x y z (inl e) h = rw e h
AtMost-below x y z (inr k) h = ltb_f64_trans x y z k h

pub below-AtMost : (x y z : F64) → ltb_f64 x y ≡ false → AtMost z y → ltb_f64 x z ≡ false
below-AtMost x y z h (inl e) = rw e h
below-AtMost x y z h (inr k) = elim (Bool-cases (ltb_f64 x z)) [
  | inl l ↦ cc (ltb_f64_trans x z y l k, h)
  | inr l ↦ l
]
