-- ===== src/Relay/Api/Key.antt =====
-- relay/src/api.rs, `constant_time_eq`: it is equality of byte strings.
use plgames_booster_up.Base.{
  ℕ, ◌≡◌, refl, ap₂, ◌↔◌, true, [], ◌∷◌, arith, Bytes, length, bit_or, bit_xor,
}
use plgames_booster_up.Base.Bits.{xor_zero_iff, or_zero_iff}
use plgames_booster_up.Relay.Api.{diff_bytes, constant_time_eq}

-- The accumulator ends at 0 exactly if it started there and the bytes agree.
diff_bytes-eq-zero :
    (diff : ℕ) (a b : Bytes) → length a ≡ length b → diff_bytes diff a b ≡ 0 → (diff ≡ 0) × (a ≡ b)
unfolding diff_bytes
diff_bytes-eq-zero diff [] [] e h = (h, refl)
diff_bytes-eq-zero diff [] (y ∷ ys) e h = absurd (omega arith)
diff_bytes-eq-zero diff (x ∷ xs) [] e h = absurd (omega arith)
diff_bytes-eq-zero diff (x ∷ xs) (y ∷ ys) e h =
    let (acc, rest) = diff_bytes-eq-zero (bit_or diff (bit_xor x y)) xs ys (omega arith) h in
    let (start, same) = (or_zero_iff diff (bit_xor x y)).0 acc in
    (start, ap₂ ◌∷◌ ((xor_zero_iff x y).0 same) rest)

diff_bytes_self : (a : Bytes) → diff_bytes 0 a a ≡ 0
unfolding diff_bytes
diff_bytes_self [] = refl
diff_bytes_self (x ∷ xs) =
    rw ((xor_zero_iff x x).1 refl, (or_zero_iff 0 0).1 (refl, refl)) (diff_bytes_self xs)

-- The comparison that does not stop early accepts exactly equal byte strings.
pub constant_time_eq_iff : (a b : Bytes) → (constant_time_eq a b ≡ true) ↔ (a ≡ b)
unfolding constant_time_eq
constant_time_eq_iff a b = (
  λ h. (diff_bytes-eq-zero 0 a b (ground arith) (ground arith)).1,
  λ e. rw e (ground (arith, diff_bytes_self b)),
)
