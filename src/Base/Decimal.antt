-- ===== src/Base/Decimal.antt =====
-- Decimal numbers of the standard library: `{}` of an unsigned integer, and `str::parse` into one.
use Prim.Native.Nat.{ℕ, zero, suc, ◌+◌, ◌-◌, ◌*◌, ◌/◌, ◌%◌, ◌≤◌, ◌<◌}
use mathlib.Core.Path.{◌≡◌}
use mathlib.Core.Bool.{Bool, true, ◌&&◌}
use mathlib.Core.Option.{Option, none, some}
use mathlib.Core.List.{[], ◌∷◌, ◌++◌, append-nil, append_assoc}
use native.Mathlib.Omega.{arith}
use plgames_booster_up.Base.Tests.{◌==◌, ltb, leb, if◌then◌else◌, Bool-cases}
use mathlib.Core.Logic.{inl, inr}
use plgames_booster_up.Base.Lists.{Bytes, All, All-append}

unfoldable pub is_digit : ℕ → Bool
is_digit c = leb b'0' c && leb c b'9'

-- The digits, the most significant first, without leading zeros. A number has at most as many
-- digits as its value and one more, so the fuel of `print_number` is enough.
print_digits : ℕ → ℕ → Bytes
print_digits zero n = []
print_digits (suc f) n =
    let front = print_digits f (n / 10) in
    if ltb n 10 then (b'0' + n) ∷ [] else front ++ (b'0' + n % 10) ∷ []

unfoldable pub print_number : ℕ → Bytes
unfolding print_digits
print_number n = print_digits (suc (suc (suc n))) n

-- The loop of `from_str_radix`: checked multiplication and addition against the type's maximum.
unfoldable pub digits_value : ℕ → ℕ → Bytes → Option ℕ
unfolding is_digit
digits_value most acc [] = some acc
digits_value most acc (c ∷ cs) =
    let next = acc * 10 + (c - b'0') in
    let rest = digits_value most next cs in if is_digit c && leb next most then rest else none

-- `s.parse::<uN>()` with `most` the largest value of the type: one leading `+` is allowed, the
-- empty text and a lone `+` are refused.
unfoldable pub parse_number : ℕ → Bytes → Option ℕ
unfolding digits_value
parse_number most [] = none
parse_number most (c ∷ []) = if c == b'+' then none else digits_value most 0 (c ∷ [])
parse_number most (c ∷ d ∷ cs) =
    if c == b'+' then digits_value most 0 (d ∷ cs) else digits_value most 0 (c ∷ d ∷ cs)

digits_value-print_digits :
    (f most n : ℕ) (rest : Bytes)
    → n < f
    → n ≤ most
    → digits_value most 0 (print_digits f n ++ rest) ≡ digits_value most n rest
unfolding digits_value print_digits
digits_value-print_digits zero most n rest h fits = elim h [ ]
digits_value-print_digits (suc f) most n rest h fits = ground (
  arith,
  append_assoc (print_digits f (n / 10)) ((b'0' + n % 10) ∷ []) rest,
  digits_value-print_digits f most (n / 10) ((b'0' + n % 10) ∷ rest),
)

-- A printed number is its front digits, if it has any, and a last digit.
print_digits-shape :
    (f n : ℕ) → n < f → (d : ℕ) × (ds : Bytes) × (print_digits f n ≡ d ∷ ds) × (is_digit d ≡ true)
unfolding print_digits is_digit
print_digits-shape zero n h = elim h [ ]
print_digits-shape (suc f) n h = elim (Bool-cases (ltb n 10)) [
  | inl small ↦ (b'0' + n, [], rw small, ground arith)
  | inr big ↦
      let (d, ds, e, g) = print_digits-shape f (n / 10) (ground arith) in
      (d, ds ++ (b'0' + n % 10) ∷ [], rw (big, e), g)
]

parse_digits :
    (most d : ℕ) (ds : Bytes)
    → is_digit d ≡ true
    → parse_number most (d ∷ ds) ≡ digits_value most 0 (d ∷ ds)
unfolding parse_number is_digit
parse_digits most d [] h = ground arith
parse_digits most d (c ∷ ds) h = ground arith

-- Reading digits that front a text: the value goes on into the rest of the text.
parse-print_digits :
    (most n : ℕ) (rest : Bytes)
    → n ≤ most
    → parse_number most (print_digits (suc (suc (suc n))) n ++ rest) ≡ digits_value most n rest
parse-print_digits most n rest fits =
    let (d, ds, e, g) = print_digits-shape (suc (suc (suc n))) n (omega arith) in
    cc (
      e,
      parse_digits most d (ds ++ rest) g,
      digits_value-print_digits (suc (suc (suc n))) most n rest (omega arith) fits,
    )

-- A number that fits the type is read back from its decimal form.
pub parse-print_number : (most n : ℕ) → n ≤ most → parse_number most (print_number n) ≡ some n
unfolding print_number digits_value
parse-print_number most n fits =
    rw (← append-nil (print_digits (suc (suc (suc n))) n)) (parse-print_digits most n [] fits)

-- The three forms of a number below 1000.
pub print_number_below_1000 :
    (n : ℕ)
    → n < 1000
    → print_number n ≡ (
        if ltb n 10
        then (b'0' + n) ∷ []
        else if ltb n 100
        then (b'0' + n / 10) ∷ (b'0' + n % 10) ∷ []
        else (b'0' + n / 100) ∷ (b'0' + n / 10 % 10) ∷ (b'0' + n % 10) ∷ [])
unfolding print_number
print_number_below_1000 n h = ground arith

print_digits-All-ascii : (f n : ℕ) → All (λ c. c < 128) (print_digits f n)
unfolding print_digits
print_digits-All-ascii zero n = tt
print_digits-All-ascii (suc f) n = elim (Bool-cases (ltb n 10)) [
  | inl small ↦ rw small (ground arith)
  | inr big ↦ rw big (
      All-append (λ c. c < 128) (print_digits f (n / 10)) ((b'0' + n % 10) ∷ [])
        (print_digits-All-ascii f (n / 10)) (omega arith))
]

pub print_number-All-ascii : (n : ℕ) → All (λ c. c < 128) (print_number n)
unfolding print_number
print_number-All-ascii n = print_digits-All-ascii (suc (suc (suc n))) n

-- A decimal digit.
abbrev pub IsDigit : ℕ → Type 0
IsDigit c = (b'0' ≤ c) × (c ≤ b'9')

print_digits-All-IsDigit : (f n : ℕ) → All IsDigit (print_digits f n)
unfolding print_digits
print_digits-All-IsDigit zero n = tt
print_digits-All-IsDigit (suc f) n = elim (Bool-cases (ltb n 10)) [
  | inl small ↦ rw small (ground arith)
  | inr big ↦ rw big (
      All-append IsDigit (print_digits f (n / 10)) ((b'0' + n % 10) ∷ [])
        (print_digits-All-IsDigit f (n / 10)) (ground arith))
]

pub print_number-All-IsDigit : (n : ℕ) → All IsDigit (print_number n)
unfolding print_number
print_number-All-IsDigit n = print_digits-All-IsDigit (suc (suc (suc n))) n

-- A printed number has a first digit, and the reading loop gives the number back.
pub print_number-shape :
    (n : ℕ) → (d : ℕ) × (ds : Bytes) × (print_number n ≡ d ∷ ds) × (is_digit d ≡ true)
unfolding print_number
print_number-shape n = print_digits-shape (suc (suc (suc n))) n (omega arith)

pub digits_value-print_number :
    (most n : ℕ) → n ≤ most → digits_value most 0 (print_number n) ≡ some n
unfolding print_number digits_value
digits_value-print_number most n fits = cc (
  append-nil (print_digits (suc (suc (suc n))) n),
  digits_value-print_digits (suc (suc (suc n))) most n [] (omega arith) fits,
)
