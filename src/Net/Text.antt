-- ===== src/Net/Text.antt =====
-- `std::str`: validity of UTF-8, and the first split of a text at a byte.
use plgames_booster_up.Base.{
  ℕ, Bytes, Bool, true, false, ◌&&◌, Option, none, some, List, [], ◌∷◌, ltb, leb, ◌==◌,
  if◌then◌else◌,
}

abbrev pub Ranges : Type 0
Ranges = List (ℕ × ℕ)

-- The ranges of the bytes that must follow a first byte; `none` for a byte that starts no character.
first_byte : ℕ → Option Ranges
first_byte c =
    if ltb c 0x80
    then some []
    else if ltb c 0xc2
    then none
    else if ltb c 0xe0
    then some (tail ∷ [])
    else if c == 0xe0
    then some ((0xa0, 0xbf) ∷ tail ∷ [])
    else if c == 0xed
    then some ((0x80, 0x9f) ∷ tail ∷ [])
    else if ltb c 0xf0
    then some (tail ∷ tail ∷ [])
    else if c == 0xf0
    then some ((0x90, 0xbf) ∷ tail ∷ tail ∷ [])
    else if ltb c 0xf4
    then some (tail ∷ tail ∷ tail ∷ [])
    else if c == 0xf4
    then some ((0x80, 0x8f) ∷ tail ∷ tail ∷ [])
    else none
  where
    tail : ℕ × ℕ
    tail = (0x80, 0xbf)

unfoldable pub is_utf8_after : Ranges → Bytes → Bool
unfolding first_byte
is_utf8_after [] [] = true
is_utf8_after (r ∷ rs) [] = false
is_utf8_after [] (c ∷ cs) = elim (first_byte c) [ none ↦ false | some rs ↦ is_utf8_after rs cs ]
is_utf8_after ((lo, hi) ∷ rs) (c ∷ cs) = leb lo c && leb c hi && is_utf8_after rs cs

-- `std::str::from_utf8(data).ok()`.
unfoldable pub from_utf8 : Bytes → Option Bytes
unfolding is_utf8_after
from_utf8 s = if is_utf8_after [] s then some s else none

unfoldable pub prepend : ℕ → Option (Bytes × Bytes) → Option (Bytes × Bytes)
prepend c none = none
prepend c (some (before, after)) = some (c ∷ before, after)

-- `s.split_once(c)`.
unfoldable pub split_once : ℕ → Bytes → Option (Bytes × Bytes)
unfolding prepend
split_once c [] = none
split_once c (x ∷ xs) = if x == c then some ([], xs) else prepend x (split_once c xs)

-- `s.splitn(2, c).collect()`: the whole text, or what stands before and behind the first `c`.
unfoldable pub splitn_2 : ℕ → Bytes → List Bytes
splitn_2 c s = elim (split_once c s) [ none ↦ s ∷ [] | some (before, after) ↦ before ∷ after ∷ [] ]
