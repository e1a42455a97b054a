-- ===== src/Base/Int.antt =====
-- Signed machine integers as they are printed: an `i32` or `i64` is an integer in its range.
use Prim.Native.Nat.{ℕ, suc}
use mathlib.Core.List.{◌∷◌}
use plgames_booster_up.Base.Lists.{Bytes}
use plgames_booster_up.Base.Decimal.{print_number}

-- `negsuc n` is -(n + 1).
pub data ℤ : Type 0 where
  pos : ℕ → ℤ
  negsuc : ℕ → ℤ

unfoldable pub print_int : ℤ → Bytes
print_int (pos n) = print_number n
print_int (negsuc n) = b'-' ∷ print_number (suc n)
