-- ===== src/Client/PacketBuilder/Checksum.antt =====
-- client/src-tauri/src/packet_builder.rs: the checksums against RFC 1071.
use plgames_booster_up.Base.{
  ℕ, ◌+◌, ◌*◌, ◌%◌, ◌^◌, ◌≡◌, ◌≢◌, ◌≤◌, ◌<◌, refl, inl, inr, Bytes, [], ◌∷◌, ◌++◌, length, take,
  drop, arith, ◌⊎◌, ◌∙◌, ap, subst,
}
use plgames_booster_up.Base.Words.{be_bytes_u16}
use plgames_booster_up.Net.{Ipv4Addr, IsIpv4}
use plgames_booster_up.Client.PacketBuilder.{
  octets, sum_words, fold_carry, rounds, complement, compute_ip_checksum, udp_len, total_len,
  ip_header, udp_header, build_udp_response,
}

-- The folding loop ends within the rounds given for every 32-bit sum: the result is a 16-bit word,
-- it is zero only for zero, and it is congruent to the sum modulo 0xFFFF.
pub fold_carry_lem :
    (sum : ℕ)
    → sum < 2 ^ 32
    → (fold_carry rounds sum < 2 ^ 16)
      × (fold_carry rounds sum % 0xFFFF ≡ sum % 0xFFFF)
      × (fold_carry rounds sum ≡ 0 → sum ≡ 0)
unfolding fold_carry
fold_carry_lem sum h = ground arith

-- The sum of all big-endian 16-bit words, an odd last byte being the high one.
abbrev pub word_sum : Bytes → ℕ
word_sum [] = 0
word_sum (a ∷ []) = a * 256
word_sum (a ∷ b ∷ bs) = a * 256 + b + word_sum bs

-- A receiver's test (RFC 1071): the folded sum of all words, with the checksum in its place, is
-- 0xFFFF.
abbrev pub Verifies : ℕ → Type 0
Verifies sum = fold_carry rounds (sum % 2 ^ 32) ≡ 0xFFFF

zero_or_full : (n : ℕ) → n < 2 ^ 16 → n % 0xFFFF ≡ 0 → (n ≡ 0) ⊎ (n ≡ 0xFFFF)
zero_or_full n h hm = ground arith

fold_carry-full : (s : ℕ) → s < 2 ^ 32 → s ≢ 0 → s % 0xFFFF ≡ 0 → fold_carry rounds s ≡ 0xFFFF
fold_carry-full s h hz hm =
    let (small, same, zero_only) = fold_carry_lem s h in
    elim (zero_or_full (fold_carry rounds s) small (same ∙ hm)) [
      | inl e ↦ absurd (hz (zero_only e))
      | inr e ↦ e
    ]

-- A number that makes the folded sum 0xFFFF: the complement of the folded sum, or 0xFFFF for 0.
complement-mod : (s : ℕ) → s < 2 ^ 32 → (s + complement (fold_carry rounds s)) % 0xFFFF ≡ 0
complement-mod s h = let (small, same, zero_only) = fold_carry_lem s h in omega arith

sum-Verifies :
    (total s c : ℕ)
    → total ≡ s + c
    → c % 0xFFFF ≡ complement (fold_carry rounds (s % 2 ^ 32)) % 0xFFFF
    → c < 2 ^ 16
    → s < 0xFFFF0000
    → s ≢ 0
    → Verifies total
sum-Verifies total s c e hc hc' hs hz =
    let below : s % 2 ^ 32 ≡ s = omega arith in
    let below' : total % 2 ^ 32 ≡ total = omega arith in
    let m = complement-mod s (omega arith) in
    let hc'' : c % 0xFFFF ≡ complement (fold_carry rounds s) % 0xFFFF =
      subst (λ t. c % 0xFFFF ≡ complement (fold_carry rounds t) % 0xFFFF) below hc in
    rw below' (fold_carry-full total (omega arith) (λ z. hz (omega arith)) (omega arith))

compute_ip_checksum_lem :
    (header : Bytes)
    → (compute_ip_checksum header ≡ complement (fold_carry rounds (sum_words 10 0 header % 2 ^ 32)))
      × (compute_ip_checksum header < 2 ^ 16)
unfolding compute_ip_checksum
compute_ip_checksum_lem header = (refl, omega arith)

-- The IPv4 header of a packet built for two IPv4 addresses passes a receiver's test.
pub ip_header-Verifies :
    (src dst : Ipv4Addr) (src_port dst_port : ℕ) (payload : Bytes)
    → IsIpv4 src
    → IsIpv4 dst
    → Verifies (word_sum (take 20 (build_udp_response src dst src_port dst_port payload)))
unfolding build_udp_response ip_header udp_header be_bytes_u16 sum_words
ip_header-Verifies src dst src_port dst_port payload hs hd =
    let header = ip_header src dst payload in
    let (e, small) = compute_ip_checksum_lem header in
    sum-Verifies (word_sum (take 20 (build_udp_response src dst src_port dst_port payload)))
      (sum_words 10 0 header) (compute_ip_checksum header) (omega arith) (ap (λ n. n % 0xFFFF) e)
      small (omega arith) (omega arith)

-- A built packet is as long as its IPv4 header says, carries both addresses and ports, the payload
-- at its end, and a UDP length that spans the rest, for a payload that fits into a packet.
pub build_udp_response_layout :
    (src dst : Ipv4Addr) (src_port dst_port : ℕ) (payload : Bytes)
    → length payload ≤ 65507
    → let packet = build_udp_response src dst src_port dst_port payload in
      (length packet ≡ 28 + length payload)
      × (take 2 (drop 2 packet) ≡ be_bytes_u16 (28 + length payload))
      × (take 8 (drop 12 packet) ≡ octets src ++ octets dst)
      × (take 4 (drop 20 packet) ≡ be_bytes_u16 src_port ++ be_bytes_u16 dst_port)
      × (take 2 (drop 24 packet) ≡ be_bytes_u16 (8 + length payload))
      × (drop 28 packet ≡ payload)
unfolding build_udp_response ip_header udp_header be_bytes_u16
build_udp_response_layout src dst src_port dst_port payload hl =
    let total : total_len payload ≡ 28 + length payload = omega arith in
    let udp : udp_len payload ≡ 8 + length payload = omega arith in
    (omega arith, ap be_bytes_u16 total, refl, refl, ap be_bytes_u16 udp, refl)
