-- ===== src/Base/Words.antt =====
-- `to_be_bytes` and `from_be_bytes` of the 16 and 32 bit words.
use Prim.Native.Nat.{ℕ, ◌+◌, ◌*◌, ◌/◌, ◌%◌, ◌^◌, ◌<◌}
use mathlib.Core.List.{[], ◌∷◌}
use native.Mathlib.Omega.{arith}
use plgames_booster_up.Base.Lists.{Bytes, IsBytes}

unfoldable pub be_bytes_u32 : ℕ → Bytes
be_bytes_u32 x = x / 2 ^ 24 % 256 ∷ x / 2 ^ 16 % 256 ∷ x / 2 ^ 8 % 256 ∷ x % 256 ∷ []

unfoldable pub from_be_u32 : ℕ → ℕ → ℕ → ℕ → ℕ
from_be_u32 a b c d = a * 2 ^ 24 + b * 2 ^ 16 + c * 2 ^ 8 + d

unfoldable pub be_bytes_u16 : ℕ → Bytes
be_bytes_u16 x = x / 2 ^ 8 % 256 ∷ x % 256 ∷ []

unfoldable pub from_be_u16 : ℕ → ℕ → ℕ
from_be_u16 a b = a * 2 ^ 8 + b

pub be_bytes_u32-IsBytes : (x : ℕ) → IsBytes (be_bytes_u32 x)
unfolding be_bytes_u32
be_bytes_u32-IsBytes x = omega arith

pub be_bytes_u16-IsBytes : (x : ℕ) → IsBytes (be_bytes_u16 x)
unfolding be_bytes_u16
be_bytes_u16-IsBytes x = omega arith

pub from_be_u32-lt :
    (a b c d : ℕ) → a < 256 → b < 256 → c < 256 → d < 256 → from_be_u32 a b c d < 2 ^ 32
unfolding from_be_u32
from_be_u32-lt a b c d ha hb hc hd = omega arith
