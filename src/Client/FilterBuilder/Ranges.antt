-- ===== src/Client/FilterBuilder/Ranges.antt =====
-- client/src-tauri/src/filter_builder.rs: the address range of a prefix, and when a filter is built.
use plgames_booster_up.Base.{
  ℕ, ◌+◌, ◌-◌, ◌*◌, ◌/◌, ◌^◌, ◌≡◌, ◌≤◌, ◌<◌, ◌↔◌, refl, sym, ap, ◌∙◌, Bytes, List, [], ◌∷◌, ◌++◌,
  arith, bit_and, bit_or, inl, ltb, Bool, true, false, ◌==◌, ◌&&◌, subst, not, is_empty,
}
use plgames_booster_up.Base.Bits.{all_below, all_below_sound, and_high, and_low, or_shifted}
use plgames_booster_up.Base.Decimal.{print_number, parse-print_number}
use plgames_booster_up.Net.{Ipv4Addr, IsIpv4, print_ipv4}
use plgames_booster_up.Net.Laws.{parse-print_ipv4, split_once-print_ipv4}
use plgames_booster_up.Client.FilterBuilder.{
  Checked, ok, error, u32_of, ipv4_of, mask_of, range_of, cidr_to_ip_range, parse_port_range,
  clauses, build_windivert_filter, ip_clause, port_clause,
}
use native.Mathlib.Nat.{one-le-pow, div-lt_iff_lt-mul, le-div_iff_mul-le, mod-eq_of_lt}

u32_of-lt : (a : Ipv4Addr) → IsIpv4 a → u32_of a < 2 ^ 32
u32_of-lt a h = omega arith

u32_of-ipv4_of : (n : ℕ) → n < 2 ^ 32 → u32_of (ipv4_of n) ≡ n
u32_of-ipv4_of n h = omega arith

-- The 33 prefix lengths, by computation.
mask_table : ℕ → Bool
unfolding mask_of
mask_table p =
    mask_of p == (2 ^ p - 1) * 2 ^ (32 - p)
    && 0xFFFFFFFF - mask_of p == 2 ^ (32 - p) - 1
    && 2 ^ p * 2 ^ (32 - p) == 2 ^ 32

mask_table-all : all_below 33 mask_table ≡ true
unfolding mask_table all_below mask_of
mask_table-all = refl

mask_of_lem :
    (p : ℕ)
    → p ≤ 32
    → (mask_of p ≡ (2 ^ p - 1) * 2 ^ (32 - p))
      × (0xFFFFFFFF - mask_of p ≡ 2 ^ (32 - p) - 1)
      × (2 ^ p * 2 ^ (32 - p) ≡ 2 ^ 32)
unfolding mask_table
mask_of_lem p h =
    let checked = all_below_sound 33 mask_table p mask_table-all (omega arith) in ground arith

masked : (p a : ℕ) → p ≤ 32 → a < 2 ^ 32 → bit_and a (mask_of p) ≡ a / 2 ^ (32 - p) * 2 ^ (32 - p)
masked p a hp h =
    let (mask, inverse, powers) = mask_of_lem p hp in
    let one = one-le-pow (32 - p) 2 (omega arith) in
    let small : a / 2 ^ (32 - p) < 2 ^ p =
      (div-lt_iff_lt-mul one).1 (subst (λ n. a < n) (sym powers) h) in
    rw mask (
      rw (and_high (32 - p) a (2 ^ p - 1))
        (rw (and_low p (a / 2 ^ (32 - p))) (ap (λ n. n * 2 ^ (32 - p)) (mod-eq_of_lt small))))

filled :
    (p q : ℕ)
    → p ≤ 32
    → bit_or (q * 2 ^ (32 - p)) (0xFFFFFFFF - mask_of p) ≡ q * 2 ^ (32 - p) + (2 ^ (32 - p) - 1)
filled p q hp =
    let (mask, inverse, powers) = mask_of_lem p hp in
    let one = one-le-pow (32 - p) 2 (omega arith) in
    rw inverse (or_shifted (32 - p) q (2 ^ (32 - p) - 1) (omega arith))

block_fits :
    (a p : ℕ)
    → p ≤ 32
    → a < 2 ^ 32
    → let block = 2 ^ (32 - p) in
      (0 < block) × (a / block * block ≤ a) × (a / block * block + (block - 1) < 2 ^ 32)
block_fits a p hp h =
    let (mask, inverse, powers) = mask_of_lem p hp in
    let one = one-le-pow (32 - p) 2 (omega arith) in
    let small : a / 2 ^ (32 - p) < 2 ^ p =
      (div-lt_iff_lt-mul one).1 (subst (λ n. a < n) (sym powers) h) in
    (one, (le-div_iff_mul-le one).0 (omega arith), grind arith)

-- The two ends of a range.
range_of-ends :
    (a : Ipv4Addr) (p : ℕ)
    → IsIpv4 a
    → p ≤ 32
    → let block = 2 ^ (32 - p) in
      let start = u32_of a / block * block in
      (u32_of (range_of a p).0 ≡ start) × (u32_of (range_of a p).1 ≡ start + (block - 1))
unfolding range_of
range_of-ends a p h hp =
    let (positive, low, high) = block_fits (u32_of a) p hp (u32_of-lt a h) in
    let q = u32_of a / 2 ^ (32 - p) in
    let start = masked p (u32_of a) hp (u32_of-lt a h) in
    let end : bit_or (bit_and (u32_of a) (mask_of p)) (0xFFFFFFFF - mask_of p)
        ≡ q * 2 ^ (32 - p) + (2 ^ (32 - p) - 1) =
      ap (λ n. bit_or n (0xFFFFFFFF - mask_of p)) start ∙ filled p q hp in
    (
      ap (λ n. u32_of (ipv4_of n)) start ∙ u32_of-ipv4_of (q * 2 ^ (32 - p)) (omega arith),
      ap (λ n. u32_of (ipv4_of n)) end
          ∙ u32_of-ipv4_of (q * 2 ^ (32 - p) + (2 ^ (32 - p) - 1)) (omega arith),
    )

same_block : (b q x : ℕ) → 0 < b → ((q * b ≤ x) × (x ≤ q * b + (b - 1))) ↔ (x / b ≡ q)
same_block b q x hb = (
  λ h.
      let below : x < (q + 1) * b = grind arith in
      let above : q ≤ x / b = (le-div_iff_mul-le hb).1 h.0 in
      let under : x / b < q + 1 = (div-lt_iff_lt-mul hb).1 below in omega arith,
  λ e.
      let above : q * b ≤ x = (le-div_iff_mul-le hb).0 (omega arith) in
      let under : x < (q + 1) * b = (div-lt_iff_lt-mul hb).0 (omega arith) in (above, grind arith),
)

ltb-prefix : (prefix : ℕ) → prefix ≤ 32 → ltb 32 prefix ≡ false
ltb-prefix prefix h = ground arith

-- The text of an IPv4 address, a slash and a prefix length up to 32 gives a range, and an address is
-- in it exactly when it has that prefix: when it agrees with the given address in all but the last
-- `32 - prefix` bits.
pub cidr_range_is_prefix :
    (a : Ipv4Addr) (prefix : ℕ)
    → IsIpv4 a
    → prefix ≤ 32
    → let block = 2 ^ (32 - prefix) in
      (start end : Ipv4Addr) × (cidr_to_ip_range (print_ipv4 a ++ b'/' ∷ print_number prefix)
        ≡ ok (start, end))
      × ((x : Ipv4Addr)
          → ((u32_of start ≤ u32_of x) × (u32_of x ≤ u32_of end))
            ↔ (u32_of x / block ≡ u32_of a / block))
unfolding cidr_to_ip_range
cidr_range_is_prefix a prefix h hp =
    let (e0, e1) = range_of-ends a prefix h hp in
    (
      (range_of a prefix).0,
      (range_of a prefix).1,
      rw (split_once-print_ipv4 b'/' a (print_number prefix) (inl refl) h, cidr_to_ip_range)
          (rw (parse-print_ipv4 a h) (
            rw (parse-print_number 0xFFFFFFFF prefix (omega arith))
              (rw (ltb-prefix prefix hp) refl))),
      λ x.
          rw (e0, e1)
            (same_block (2 ^ (32 - prefix)) (u32_of a / 2 ^ (32 - prefix)) (u32_of x)
              (one-le-pow (32 - prefix) 2 (omega arith))),
    )

abbrev pub is_ok : {A : Type 0} → Checked A → Bool
is_ok (ok a) = true
is_ok (error e) = false

abbrev pub all_ok : {A : Type 0} → (Bytes → Checked A) → List Bytes → Bool
all_ok parse [] = true
all_ok parse (x ∷ xs) = is_ok (parse x) && all_ok parse xs

is_ok-clauses :
    {A : Type 0} (parse : Bytes → Checked A) (print : A → Bytes) (xs : List Bytes)
    → is_ok (clauses parse print xs) ≡ all_ok parse xs
unfolding clauses
is_ok-clauses parse print [] = refl
is_ok-clauses parse print (x ∷ xs) = ground (arith, is_ok-clauses parse print xs)

-- A filter is built exactly when there is an address and a port in the profile and each address and
-- each port range of it is accepted.
pub filter_built :
    (ips ports : List Bytes)
    → is_ok (build_windivert_filter ips ports) ≡ (
        not (is_empty ips)
        && not (is_empty ports)
        && all_ok cidr_to_ip_range ips
        && all_ok parse_port_range ports)
unfolding build_windivert_filter
filter_built [] ports = refl
filter_built (ip ∷ ips) [] = refl
filter_built (ip ∷ ips) (port ∷ ports) = ground (
  arith,
  is_ok-clauses cidr_to_ip_range ip_clause (ip ∷ ips),
  is_ok-clauses parse_port_range port_clause (port ∷ ports),
)
