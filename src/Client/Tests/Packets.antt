-- ===== src/Client/Tests/Packets.antt =====
-- The unit tests of client/src-tauri/src/packet_builder.rs on the model.
use plgames_booster_up.Base.{
  ℕ, zero, suc, ◌≡◌, refl, ◌+◌, Bytes, codes, Bool, true, not, ◌&&◌, [], ◌∷◌, ◌==◌, length,
  bytes_eq, get_or, take, drop,
}
use plgames_booster_up.Base.Words.{from_be_u16}
use plgames_booster_up.Net.{Ipv4Addr}
use plgames_booster_up.Client.PacketBuilder.{build_udp_response, fold_carry, rounds}
use plgames_booster_up.Client.PacketBuilder.Checksum.{word_sum}

abbrev ip : ℕ → ℕ → ℕ → ℕ → Ipv4Addr
ip a b c d = record { o0 = a; o1 = b; o2 = c; o3 = d }

abbrev word : Bytes → ℕ → ℕ
word pkt i = from_be_u16 (get_or pkt i 0) (get_or pkt (i + 1) 0)

abbrev test_build_udp_response_basic : Bool
test_build_udp_response_basic =
    let pkt = build_udp_response (ip 1 2 3 4) (ip 10 0 0 1) 27015 12345 (codes "hello") in
    length pkt == 33
    && get_or pkt 0 0 == 0x45
    && get_or pkt 9 0 == 17
    && bytes_eq (take 4 (drop 12 pkt)) (1 ∷ 2 ∷ 3 ∷ 4 ∷ [])
    && bytes_eq (take 4 (drop 16 pkt)) (10 ∷ 0 ∷ 0 ∷ 1 ∷ [])
    && word pkt 20 == 27015
    && word pkt 22 == 12345
    && word pkt 24 == 13
    && bytes_eq (take 5 (drop 28 pkt)) (codes "hello")

test_build_udp_response_basic_holds : test_build_udp_response_basic ≡ true
unfolding build_udp_response from_be_u16
test_build_udp_response_basic_holds = refl

abbrev test_build_udp_response_empty_payload : Bool
test_build_udp_response_empty_payload =
    let pkt = build_udp_response (ip 192 168 0 1) (ip 192 168 0 2) 80 1234 [] in
    length pkt == 28 && word pkt 24 == 8

test_build_udp_response_empty_payload_holds : test_build_udp_response_empty_payload ≡ true
unfolding build_udp_response from_be_u16
test_build_udp_response_empty_payload_holds = refl

abbrev copies : ℕ → ℕ → Bytes
copies b zero = []
copies b (suc n) = b ∷ copies b n

abbrev test_ip_total_length : Bool
test_ip_total_length =
    let pkt = build_udp_response (ip 10 0 0 1) (ip 10 0 0 2) 5000 6000 (copies 0xAB 100) in
    word pkt 2 == 20 + 8 + 100 && length pkt == 128

test_ip_total_length_holds : test_ip_total_length ≡ true
unfolding from_be_u16 build_udp_response
test_ip_total_length_holds = refl

-- The sum of the header's words, folded to 16 bits.
abbrev test_ip_checksum_valid : Bool
test_ip_checksum_valid =
    let pkt = build_udp_response (ip 1 2 3 4) (ip 5 6 7 8) 1000 2000 (codes "test") in
    fold_carry rounds (word_sum (take 20 pkt)) == 0xFFFF

test_ip_checksum_valid_holds : test_ip_checksum_valid ≡ true
unfolding fold_carry build_udp_response
test_ip_checksum_valid_holds = refl

abbrev test_udp_checksum_nonzero : Bool
test_udp_checksum_nonzero =
    let pkt = build_udp_response (ip 10 0 0 1) (ip 10 0 0 2) 27015 27015 (codes "game data here") in
    not (word pkt 26 == 0)

test_udp_checksum_nonzero_holds : test_udp_checksum_nonzero ≡ true
unfolding from_be_u16 build_udp_response
test_udp_checksum_nonzero_holds = refl

abbrev test_ttl_and_flags : Bool
test_ttl_and_flags =
    let pkt = build_udp_response (ip 1 1 1 1) (ip 2 2 2 2) 80 80 [] in
    get_or pkt 8 0 == 64 && get_or pkt 6 0 == 0x40 && get_or pkt 7 0 == 0x00

test_ttl_and_flags_holds : test_ttl_and_flags ≡ true
unfolding build_udp_response
test_ttl_and_flags_holds = refl

abbrev test_large_payload : Bool
test_large_payload =
    let payload = copies 0xFF 1400 in
    let pkt = build_udp_response (ip 192 168 1 1) (ip 192 168 1 2) 27015 27016 payload in
    length pkt == 20 + 8 + 1400 && bytes_eq (drop 28 pkt) payload

test_large_payload_holds : test_large_payload ≡ true
unfolding build_udp_response
test_large_payload_holds = refl
