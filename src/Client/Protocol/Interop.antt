-- ===== src/Client/Protocol/Interop.antt =====
-- client/src-tauri/src/protocol.rs against relay/src/protocol.rs: each side reads what the other
-- writes.
use plgames_booster_up.Base.{
  ℕ, ◌≡◌, ◌<◌, ◌≤◌, ◌^◌, refl, Bool, false, true, Bytes, some, ◌∷◌, ◌++◌, arith,
}
use plgames_booster_up.Base.Decimal.{print_number}
use plgames_booster_up.Net.{Ipv6Text, Ipv4Addr, IsIpv4, v4, print_ipv4}
use plgames_booster_up.Relay.Protocol
use plgames_booster_up.Relay.Protocol.{has_flag}
use plgames_booster_up.Relay.Forwarder.{parse_control_payload}
use plgames_booster_up.Relay.Forwarder.Control.{parse-control_payload}
use plgames_booster_up.Client.Protocol.{
  PlgPacket, IsPacket, data_packet, control, keepalive, with_multipath, encode, parse,
}

-- The relay's view of a client packet.
abbrev pub to_relay : PlgPacket → Protocol.PlgPacket
to_relay p = record {
  session_id = p.session_id;
  seq_number = p.seq_number;
  flags = p.flags;
  path_id = p.path_id;
  payload = p.payload;
}

pub relay_parse-encode :
    (p : PlgPacket)
    → p.session_id < 2 ^ 32
    → p.seq_number < 2 ^ 32
    → Protocol.parse (encode p) ≡ some (to_relay p)
unfolding encode Protocol.parse
relay_parse-encode p ht hs = ground arith

-- For a packet whose fields fit their types, the relay parses what the client encodes to the same
-- fields, and the client parses what the relay serialises to the same fields.
pub relay_reads_client :
    (p : PlgPacket)
    → IsPacket p
    → (Protocol.parse (encode p) ≡ some (to_relay p))
      × (parse (Protocol.serialize (to_relay p)) ≡ some p)
unfolding encode parse Protocol.serialize Protocol.parse
relay_reads_client p h = (relay_parse-encode p h.id_fits h.seq_fits, ground arith)

-- The relay's two tests on a packet: keepalive, then control.
abbrev pub kind : PlgPacket → Bool × Bool
kind p = (has_flag p.flags Protocol.flag_keepalive, has_flag p.flags Protocol.flag_control)

-- The relay takes each of the client's packets for what it is: a data packet and its duplicate for
-- neither keepalive nor control, a control packet for control only, a keepalive for keepalive.
pub relay_classifies :
    (token seq path : ℕ) (payload : Bytes)
    → (kind (data_packet token seq payload) ≡ (false, false))
      × (kind (with_multipath (data_packet token seq payload) path) ≡ (false, false))
      × (kind (control token seq payload) ≡ (false, true))
      × (kind (keepalive token seq) ≡ (true, false))
unfolding data_packet control keepalive with_multipath
relay_classifies token seq path payload = (refl, refl, refl, refl)

-- A control packet that the client makes for an IPv4 address and a 16-bit port is read by the relay as a
-- control packet of the session with that target.
pub control_reaches_relay :
    (v6t : Ipv6Text) (token seq port : ℕ) (a : Ipv4Addr)
    → token < 2 ^ 32
    → seq < 2 ^ 32
    → IsIpv4 a
    → port ≤ 65535
    → (packet : Protocol.PlgPacket) × (Protocol.parse
          (encode (control token seq (print_ipv4 a ++ b':' ∷ print_number port)))
        ≡ some packet)
      × (packet.session_id ≡ token)
      × (has_flag packet.flags Protocol.flag_keepalive ≡ false)
      × (has_flag packet.flags Protocol.flag_control ≡ true)
      × (parse_control_payload v6t packet.payload ≡ some (record { ip = v4 a; port = port }))
unfolding control
control_reaches_relay v6t token seq port a ht hs ha hp =
    let text = print_ipv4 a ++ b':' ∷ print_number port in
    (
      to_relay (control token seq text),
      relay_parse-encode (control token seq text) ht hs,
      refl,
      refl,
      refl,
      parse-control_payload v6t a port ha hp,
    )
