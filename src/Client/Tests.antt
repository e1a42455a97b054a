-- ===== src/Client/Tests.antt =====
-- The unit tests of client/src-tauri/src/protocol.rs on the model.
mod Filters
mod Packets
mod Files
use plgames_booster_up.Base.{
  ℕ, ◌≡◌, refl, ◌+◌, ◌-◌, ◌^◌, Bytes, codes, Bool, true, false, not, ◌&&◌, ◌||◌, Option, none, some,
  List, [], ◌∷◌, ◌==◌, length, bytes_eq, is_some, is_empty, zero, suc, get_or,
}
use plgames_booster_up.Net.{Ipv4Addr, ipv4_eq}
use plgames_booster_up.Client.Protocol.{
  PlgPacket, header_size, flag_multipath_dup, data_packet, control, keepalive, with_multipath,
  encode, parse, is_keepalive, is_control, is_multipath_dup,
}
use plgames_booster_up.Client.FilterBuilder.{
  Checked, ok, error, cidr_to_ip_range, parse_port_range, build_windivert_filter,
}

-- A test of what a text parses to, as `unwrap` followed by assertions.
abbrev parsed : Bytes → (PlgPacket → Bool) → Bool
parsed bytes check = elim (parse bytes) [ none ↦ false | some p ↦ check p ]

abbrev test_data_packet_encode_decode : Bool
test_data_packet_encode_decode =
    let encoded = encode (data_packet 12345 1 (codes "hello")) in
    length encoded == header_size + 5
    && parsed encoded λ p.
      p.session_id == 12345
      && p.seq_number == 1
      && p.flags == 0
      && p.path_id == 0
      && bytes_eq p.payload (codes "hello")

test_data_packet_encode_decode_holds : test_data_packet_encode_decode ≡ true
unfolding encode data_packet parse
test_data_packet_encode_decode_holds = refl

abbrev test_control_packet : Bool
test_control_packet = parsed (encode (control 99999 0 (codes "1.2.3.4:27015"))) λ p.
    p.session_id == 99999
    && is_control p
    && not (is_keepalive p)
    && bytes_eq p.payload (codes "1.2.3.4:27015")

test_control_packet_holds : test_control_packet ≡ true
unfolding parse encode control is_control is_keepalive
test_control_packet_holds = refl

abbrev test_keepalive_packet : Bool
test_keepalive_packet =
    let encoded = encode (keepalive 42 10) in
    length encoded == header_size
    && parsed encoded λ p.
      p.session_id == 42
      && p.seq_number == 10
      && is_keepalive p
      && not (is_control p)
      && is_empty p.payload

test_keepalive_packet_holds : test_keepalive_packet ≡ true
unfolding encode keepalive parse is_keepalive is_control
test_keepalive_packet_holds = refl

abbrev test_multipath_flag : Bool
test_multipath_flag =
    parsed (encode (with_multipath (data_packet 1 1 (codes "test")) 1))
      λ p. is_multipath_dup p && p.path_id == 1 && p.flags == flag_multipath_dup

test_multipath_flag_holds : test_multipath_flag ≡ true
unfolding parse encode with_multipath data_packet is_multipath_dup
test_multipath_flag_holds = refl

abbrev zeros : ℕ → Bytes
zeros zero = []
zeros (suc n) = 0 ∷ zeros n

abbrev test_parse_too_short : Bool
test_parse_too_short = not (is_some (parse [])) && not (is_some (parse (zeros 9)))

test_parse_too_short_holds : test_parse_too_short ≡ true
unfolding parse
test_parse_too_short_holds = refl

abbrev test_parse_exact_header : Bool
test_parse_exact_header = parsed (zeros header_size) λ p. p.session_id == 0 && is_empty p.payload

test_parse_exact_header_holds : test_parse_exact_header ≡ true
unfolding parse
test_parse_exact_header_holds = refl

abbrev test_big_endian_encoding : Bool
test_big_endian_encoding =
    let encoded = encode (data_packet 12345 256 []) in
    get_or encoded 0 0 == 0x00
    && get_or encoded 1 0 == 0x00
    && get_or encoded 2 0 == 0x30
    && get_or encoded 3 0 == 0x39
    && get_or encoded 4 0 == 0x00
    && get_or encoded 5 0 == 0x00
    && get_or encoded 6 0 == 0x01
    && get_or encoded 7 0 == 0x00

test_big_endian_encoding_holds : test_big_endian_encoding ≡ true
unfolding encode data_packet
test_big_endian_encoding_holds = refl

abbrev u32_max : ℕ
u32_max = 0xFFFFFFFF

abbrev test_max_token_value : Bool
test_max_token_value =
    parsed (encode (data_packet u32_max u32_max (0xFF ∷ [])))
      λ p. p.session_id == u32_max && p.seq_number == u32_max

test_max_token_value_holds : test_max_token_value ≡ true
unfolding parse encode data_packet
test_max_token_value_holds = refl
