-- ===== src/Client/Protocol.antt =====
-- client/src-tauri/src/protocol.rs: the client's packet, its constructors and its wire form.
pub mod Interop
use plgames_booster_up.Base.{
  ℕ, ◌<◌, ◌^◌, Bytes, Bool, not, Option, none, some, List, [], ◌∷◌, ◌++◌, ltb, ◌==◌, if◌then◌else◌,
  length, drop, get_or, bit_and, bit_or, IsBytes,
}
use plgames_booster_up.Base.Words.{be_bytes_u32, from_be_u32}

abbrev pub header_size : ℕ
header_size = 10

abbrev pub flag_multipath_dup : ℕ
flag_multipath_dup = 0x01

abbrev pub flag_keepalive : ℕ
flag_keepalive = 0x02

abbrev pub flag_control : ℕ
flag_control = 0x04

pub record PlgPacket : Type 0 where
  pub session_id : ℕ
  pub seq_number : ℕ
  pub flags : ℕ
  pub path_id : ℕ
  pub payload : Bytes

-- The fields are in the range of their types.
pub record IsPacket (p : PlgPacket) : Type 0 where
  pub id_fits : p.session_id < 2 ^ 32
  pub seq_fits : p.seq_number < 2 ^ 32
  pub flags_fit : p.flags < 256
  pub path_fits : p.path_id < 256
  pub payload_fits : IsBytes p.payload

unfoldable pub data_packet : ℕ → ℕ → Bytes → PlgPacket
data_packet session_id seq_number payload = record {
  session_id = session_id;
  seq_number = seq_number;
  flags = 0x00;
  path_id = 0;
  payload = payload;
}

unfoldable pub control : ℕ → ℕ → Bytes → PlgPacket
control session_id seq_number target = record {
  session_id = session_id;
  seq_number = seq_number;
  flags = flag_control;
  path_id = 0;
  payload = target;
}

unfoldable pub keepalive : ℕ → ℕ → PlgPacket
keepalive session_id seq_number = record {
  session_id = session_id;
  seq_number = seq_number;
  flags = flag_keepalive;
  path_id = 0;
  payload = [];
}

unfoldable pub with_multipath : PlgPacket → ℕ → PlgPacket
with_multipath p path_id = record p { flags = bit_or p.flags flag_multipath_dup; path_id = path_id }

unfoldable pub encode : PlgPacket → Bytes
unfolding be_bytes_u32
encode p =
    be_bytes_u32 p.session_id ++ (be_bytes_u32 p.seq_number ++ (p.flags ∷ p.path_id ∷ p.payload))

unfoldable pub parse : Bytes → Option PlgPacket
unfolding from_be_u32
parse bytes =
    if ltb (length bytes) header_size
    then none
    else some (record {
      session_id = from_be_u32 (byte 0) (byte 1) (byte 2) (byte 3);
      seq_number = from_be_u32 (byte 4) (byte 5) (byte 6) (byte 7);
      flags = byte 8;
      path_id = byte 9;
      payload = drop header_size bytes;
    })
  where
    byte : ℕ → ℕ
    byte i = get_or bytes i 0

unfoldable pub is_keepalive : PlgPacket → Bool
is_keepalive p = not (bit_and p.flags flag_keepalive == 0)

unfoldable pub is_control : PlgPacket → Bool
is_control p = not (bit_and p.flags flag_control == 0)

unfoldable pub is_multipath_dup : PlgPacket → Bool
is_multipath_dup p = not (bit_and p.flags flag_multipath_dup == 0)
