-- ===== src/Base/Bits.antt =====
-- Bit operations of machine words as arithmetic: `hi << k | lo`, and masks of the low or high bits.
use Prim.Native.Nat.{ℕ, zero, suc, ◌+◌, ◌-◌, ◌*◌, ◌/◌, ◌%◌, ◌^◌, ◌≤◌, ◌<◌, min, max}
use Prim.Native.Nat.{bit_and, bit_or, bit_xor, digits, bitwise, differ}
use Prim.Native.Nat.{bit_and-bitwise, bit_or-bitwise, bit_xor-bitwise}
use mathlib.Core.Path.{◌≡◌, refl, ap}
use mathlib.Core.Bool.{Bool, true, ◌&&◌}
use mathlib.Core.Logic.{◌↔◌}
use native.Mathlib.Omega.{arith}
use native.Mathlib.Nat.{pow-suc, one-le-pow, div-div-eq-div-mul}

-- The digit recursion has fuel; any two fuels that are enough agree.
module _ (z : ℕ → ℕ) (f : ℕ → ℕ → ℕ) where
  digits_enough : (n m a b : ℕ) → a ≤ n → a ≤ m → digits z f n a b ≡ digits z f m a b
  digits_enough zero zero a b p q = refl
  digits_enough zero (suc m) zero b p q = refl
  digits_enough zero (suc m) (suc a) b p q = elim p [ ]
  digits_enough (suc n) zero zero b p q = refl
  digits_enough (suc n) zero (suc a) b p q = elim q [ ]
  digits_enough (suc n) (suc m) zero b p q = refl
  digits_enough (suc n) (suc m) (suc a) b p q =
      rw (digits_enough n m (suc a / 2) (b / 2) (omega arith) (omega arith))

  last_digit :
      (a b : ℕ)
      → bitwise z f (suc a) b ≡ bitwise z f (suc a / 2) (b / 2) * 2 + f (suc a % 2) (b % 2)
  last_digit a b =
      let same = digits_enough a (suc a / 2) (suc a / 2) (b / 2) (omega arith) (omega arith) in
      omega (arith, same)

or_last : (a b : ℕ) → bit_or a b ≡ bit_or (a / 2) (b / 2) * 2 + max (a % 2) (b % 2)
or_last zero b = simp bit_or-bitwise (omega arith)
or_last (suc a) b = simp bit_or-bitwise (last_digit (λ y. y) max a b)

and_last : (a b : ℕ) → bit_and a b ≡ bit_and (a / 2) (b / 2) * 2 + min (a % 2) (b % 2)
and_last zero b = simp bit_and-bitwise (omega arith)
and_last (suc a) b = simp bit_and-bitwise (last_digit (λ y. 0) min a b)

xor_last : (a b : ℕ) → bit_xor a b ≡ bit_xor (a / 2) (b / 2) * 2 + differ (a % 2) (b % 2)
xor_last zero b = simp bit_xor-bitwise (ground arith)
xor_last (suc a) b = simp bit_xor-bitwise (last_digit (λ y. y) differ a b)

or_zero : (k a : ℕ) → a ≤ k → bit_or a 0 ≡ a
or_zero k zero h = refl
or_zero zero (suc a) h = elim h [ ]
or_zero (suc k) (suc a) h = omega (arith, or_last (suc a) 0, or_zero k (suc a / 2) (omega arith))

and_zero : (k a : ℕ) → a ≤ k → bit_and a 0 ≡ 0
and_zero k zero h = refl
and_zero zero (suc a) h = elim h [ ]
and_zero (suc k) (suc a) h = omega (arith, and_last (suc a) 0, and_zero k (suc a / 2) (omega arith))

double_pow : (h k : ℕ) → h * 2 ^ suc k ≡ 2 * (h * 2 ^ k)
double_pow h k = omega (arith, ap (λ (t : ℕ). h * t) (pow-suc 2 k))

-- `hi << k | lo` is a sum when `lo` has at most `k` bits.
pub or_shifted : (k h l : ℕ) → l < 2 ^ k → bit_or (h * 2 ^ k) l ≡ h * 2 ^ k + l
or_shifted zero h l fits = ground (arith, or_zero h h (omega arith))
or_shifted (suc k) h l fits =
    ground (arith, or_last (h * 2 ^ suc k) l, double_pow h k, or_shifted k h (l / 2) (omega arith))

halved : (a k : ℕ) → a / 2 / 2 ^ k ≡ a / 2 ^ suc k
halved a k = ground (arith, div-div-eq-div-mul a 2 (2 ^ k), pow-suc 2 k)

-- A mask whose low `k` bits are clear leaves the other bits to the rest of the mask.
pub and_high : (k a m : ℕ) → bit_and a (m * 2 ^ k) ≡ bit_and (a / 2 ^ k) m * 2 ^ k
and_high zero a m = ground arith
and_high (suc k) a m = ground (
  arith,
  and_last a (m * 2 ^ suc k),
  double_pow m k,
  double_pow (bit_and (a / 2 ^ suc k) m) k,
  and_high k (a / 2) m,
  halved a k,
)

and_low_parts : (k q r : ℕ) → r < 2 ^ k → bit_and (q * 2 ^ k + r) (2 ^ k - 1) ≡ r
and_low_parts zero q r fits = ground (arith, and_zero q q (omega arith))
and_low_parts (suc k) q r fits = ground (
  arith,
  and_last (q * 2 ^ suc k + r) (2 ^ suc k - 1),
  double_pow q k,
  pow-suc 2 k,
  and_low_parts k q (r / 2) (omega arith),
)

-- A mask of the low `k` bits is the remainder by `2 ^ k`.
pub and_low : (k a : ℕ) → bit_and a (2 ^ k - 1) ≡ a % 2 ^ k
and_low k a = ground (arith, one-le-pow k 2, and_low_parts k (a / 2 ^ k) (a % 2 ^ k))

differ_zero : (x y : ℕ) → differ x y ≡ 0 → x ≡ y
differ_zero zero y e = omega arith
differ_zero (suc x) zero e = omega arith
differ_zero (suc x) (suc y) e = omega (arith, differ_zero x y e)

differ_self : (x : ℕ) → differ x x ≡ 0
differ_self zero = refl
differ_self (suc x) = differ_self x

xor_zero_below : (k a b : ℕ) → a + b ≤ k → bit_xor a b ≡ 0 → a ≡ b
xor_zero_below zero a b h e = omega arith
xor_zero_below (suc k) a b h e =
    let last : differ (a % 2) (b % 2) ≡ 0 = omega (arith, xor_last a b) in
    let front : bit_xor (a / 2) (b / 2) ≡ 0 = omega (arith, xor_last a b) in
    omega (
      arith,
      differ_zero (a % 2) (b % 2) last,
      xor_zero_below k (a / 2) (b / 2) (omega arith) front,
    )

xor_self : (k a : ℕ) → a ≤ k → bit_xor a a ≡ 0
xor_self zero a h = let e : a ≡ 0 = omega arith in rw e
xor_self (suc k) a h =
    omega (arith, xor_last a a, differ_self (a % 2), xor_self k (a / 2) (omega arith))

-- Exclusive or is 0 exactly at equal numbers.
pub xor_zero_iff : (a b : ℕ) → (bit_xor a b ≡ 0) ↔ (a ≡ b)
xor_zero_iff a b =
    (xor_zero_below (a + b) a b (omega arith), λ e. rw e (xor_self b b (omega arith)))

or_zero_below : (k a b : ℕ) → a + b ≤ k → bit_or a b ≡ 0 → (a ≡ 0) × (b ≡ 0)
or_zero_below zero a b h e = omega arith
or_zero_below (suc k) a b h e =
    let front : bit_or (a / 2) (b / 2) ≡ 0 = omega (arith, or_last a b) in
    omega (arith, or_last a b, or_zero_below k (a / 2) (b / 2) (omega arith) front)

-- Or is 0 exactly if both sides are.
pub or_zero_iff : (a b : ℕ) → (bit_or a b ≡ 0) ↔ ((a ≡ 0) × (b ≡ 0))
or_zero_iff a b = (or_zero_below (a + b) a b (omega arith), λ h. rw (h.0, h.1))

-- A property of all bytes by a table.
unfoldable pub all_below : ℕ → (ℕ → Bool) → Bool
all_below zero p = true
all_below (suc n) p = p n && all_below n p

pub all_below_sound : (n : ℕ) (p : ℕ → Bool) (x : ℕ) → all_below n p ≡ true → x < n → p x ≡ true
unfolding all_below
all_below_sound zero p x h lt = elim lt [ ]
all_below_sound (suc n) p x h lt = ground (arith, all_below_sound n p x)
