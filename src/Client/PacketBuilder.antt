-- ===== src/Client/PacketBuilder.antt =====
-- client/src-tauri/src/packet_builder.rs: the raw IPv4 and UDP packet that is injected for a reply.
-- A machine word is a number with its wrap-around written out, and `!sum as u16` of a folded sum is
-- `0xFFFF - sum`.
pub mod Checksum
use plgames_booster_up.Base.{
  ℕ, zero, suc, ◌+◌, ◌-◌, ◌*◌, ◌/◌, ◌%◌, ◌^◌, Bytes, List, [], ◌∷◌, ◌++◌, ◌==◌, if◌then◌else◌,
  length, take, drop, set,
}
use plgames_booster_up.Base.Words.{be_bytes_u16}
use plgames_booster_up.Net.{Ipv4Addr}

abbrev pub octets : Ipv4Addr → Bytes
octets a = a.o0 ∷ a.o1 ∷ a.o2 ∷ a.o3 ∷ []

-- The sum of the big-endian 16-bit words from index `i` on, without the word at index `skip`. An odd
-- last byte counts as the high one.
unfoldable pub sum_words : ℕ → ℕ → Bytes → ℕ
sum_words skip i [] = 0
sum_words skip i (a ∷ []) = if i == skip then 0 else a * 256
sum_words skip i (a ∷ b ∷ bs) =
    let rest = sum_words skip (i + 2) bs in if i == skip then rest else a * 256 + b + rest

-- The folding loop: while the high half is not zero, it is added to the low half. The fuel is the
-- number of rounds.
unfoldable pub fold_carry : ℕ → ℕ → ℕ
fold_carry zero sum = sum
fold_carry (suc fuel) sum =
    let next = fold_carry fuel (sum % 2 ^ 16 + sum / 2 ^ 16) in
    if sum / 2 ^ 16 == 0 then sum else next

-- Three rounds fold every 32-bit sum.
abbrev pub rounds : ℕ
rounds = 3

abbrev pub complement : ℕ → ℕ
complement sum = 0xFFFF - sum % 2 ^ 16

unfoldable pub compute_ip_checksum : Bytes → ℕ
unfolding sum_words fold_carry
compute_ip_checksum header = complement (fold_carry rounds (sum_words 10 0 header % 2 ^ 32))

abbrev pub pseudo_header_sum : Bytes → Bytes → ℕ → ℕ
pseudo_header_sum src_ip dst_ip udp_length =
    sum_words 4 0 src_ip + sum_words 4 0 dst_ip + 17 + udp_length

unfoldable pub compute_udp_checksum : Bytes → Bytes → Bytes → ℕ
unfolding sum_words fold_carry
compute_udp_checksum src_ip dst_ip udp_segment =
    let pseudo = pseudo_header_sum src_ip dst_ip (length udp_segment % 2 ^ 32) in
    let sum = fold_carry rounds ((pseudo + sum_words 6 0 udp_segment) % 2 ^ 32) in
    if complement sum == 0 then 0xFFFF else complement sum

-- `8 + payload.len() as u16`, then `20 +` that.
abbrev pub udp_len : Bytes → ℕ
udp_len payload = (8 + length payload % 2 ^ 16) % 2 ^ 16

abbrev pub total_len : Bytes → ℕ
total_len payload = (20 + udp_len payload) % 2 ^ 16

-- Two bytes of the buffer are replaced by a 16-bit word.
abbrev put_u16 : Bytes → ℕ → ℕ → Bytes
put_u16 buf at word = set (set buf at (word / 256)) (at + 1) (word % 256)

-- The IPv4 header with the checksum placeholder.
unfoldable pub ip_header : Ipv4Addr → Ipv4Addr → Bytes → Bytes
unfolding be_bytes_u16
ip_header src_ip dst_ip payload =
    0x45
    ∷ 0x00
    ∷ (be_bytes_u16 (total_len payload)
        ++ (0x00 ∷ 0x00 ∷ 0x40 ∷ 0x00 ∷ 64 ∷ 17 ∷ 0x00 ∷ 0x00 ∷ (octets src_ip ++ octets dst_ip)))

unfoldable pub udp_header : ℕ → ℕ → Bytes → Bytes
unfolding be_bytes_u16
udp_header src_port dst_port payload =
    be_bytes_u16 src_port
    ++ (be_bytes_u16 dst_port ++ (be_bytes_u16 (udp_len payload) ++ (0x00 ∷ 0x00 ∷ [])))

unfoldable pub build_udp_response : Ipv4Addr → Ipv4Addr → ℕ → ℕ → Bytes → Bytes
unfolding ip_header udp_header compute_ip_checksum compute_udp_checksum
build_udp_response src_ip dst_ip src_port dst_port payload =
    let buf1 = ip_header src_ip dst_ip payload in
    let buf2 = put_u16 buf1 10 (compute_ip_checksum (take 20 buf1)) in
    let buf3 = (buf2 ++ udp_header src_port dst_port payload) ++ payload in
    put_u16 buf3 26 (compute_udp_checksum (octets src_ip) (octets dst_ip) (drop 20 buf3))
