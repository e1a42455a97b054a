-- ===== src/Relay/Protocol.antt =====
-- relay/src/protocol.rs: the packet, its wire form and the flag tests.
pub mod Roundtrip
use plgames_booster_up.Base.{
  ℕ, Bytes, Bool, true, false, not, Option, none, some, List, [], ◌∷◌, ◌++◌, ◌<◌, ◌^◌, ltb, ◌==◌,
  if◌then◌else◌, length, drop, get_or, IsBytes, bit_and,
}
use plgames_booster_up.Base.Words.{be_bytes_u32, from_be_u32}

abbrev pub header_size : ℕ
header_size = 10

abbrev pub flag_multipath_dup : ℕ
flag_multipath_dup = 0x01

abbrev pub flag_keepalive : ℕ
flag_keepalive = 0x02

abbrev pub flag_control : ℕ
flag_control = 0x04

abbrev pub flag_compressed : ℕ
flag_compressed = 0x08

pub record PlgPacket : Type 0 where
  pub session_id : ℕ
  pub seq_number : ℕ
  pub flags : ℕ
  pub path_id : ℕ
  pub payload : Bytes

-- The fields are in the range of their types.
pub record IsPacket (p : PlgPacket) : Type 0 where
  pub id_fits : p.session_id < 2 ^ 32
  pub seq_fits : p.seq_number < 2 ^ 32
  pub flags_fit : p.flags < 256
  pub path_fits : p.path_id < 256
  pub payload_fits : IsBytes p.payload

unfoldable pub parse : Bytes → Option PlgPacket
unfolding from_be_u32
parse bytes =
    if ltb (length bytes) header_size
    then none
    else some (record {
      session_id = from_be_u32 (byte 0) (byte 1) (byte 2) (byte 3);
      seq_number = from_be_u32 (byte 4) (byte 5) (byte 6) (byte 7);
      flags = byte 8;
      path_id = byte 9;
      payload = drop header_size bytes;
    })
  where
    byte : ℕ → ℕ
    byte i = get_or bytes i 0

unfoldable pub serialize : PlgPacket → Bytes
unfolding be_bytes_u32
serialize p =
    be_bytes_u32 p.session_id ++ (be_bytes_u32 p.seq_number ++ (p.flags ∷ p.path_id ∷ p.payload))

abbrev pub has_flag : ℕ → ℕ → Bool
has_flag flags flag = not (bit_and flags flag == 0)

unfoldable pub is_keepalive : PlgPacket → Bool
is_keepalive p = has_flag p.flags flag_keepalive

unfoldable pub is_multipath_dup : PlgPacket → Bool
is_multipath_dup p = has_flag p.flags flag_multipath_dup

unfoldable pub is_control : PlgPacket → Bool
is_control p = has_flag p.flags flag_control
