-- ===== src/Client/Proxy/Types.antt =====
-- client/src-tauri/src/udp_proxy.rs: the machine types. Numbers stay in the range of their types, and
-- what is sent consists of bytes.
use plgames_booster_up.Base.{ℕ, ◌<◌, ◌≤◌, ◌^◌, ◌≡◌, Bytes, some, ◌∷◌, arith, length, IsBytes, All}
use plgames_booster_up.Base.Words.{be_bytes_u32}
use plgames_booster_up.Client.Protocol.{
  PlgPacket, IsPacket, data_packet, keepalive, with_multipath, encode, parse, header_size,
}
use plgames_booster_up.Client.Proxy.{
  ProxyStats, UdpProxy, Sent, to_relay, to_backup, to_game, Input, from_game, from_relay,
  from_backup, tick, max_seen,
}

-- `AtomicU64` and the other counters.
pub record IsStats (s : ProxyStats) : Type 0 where
  pub packets_sent : s.packets_sent < 2 ^ 64
  pub packets_received : s.packets_received < 2 ^ 64
  pub bytes_sent : s.bytes_sent < 2 ^ 64
  pub bytes_received : s.bytes_received < 2 ^ 64
  pub duplicates_dropped : s.duplicates_dropped < 2 ^ 64

pub record IsProxy (p : UdpProxy) : Type 0 where
  pub seq_counter : p.seq_counter < 2 ^ 32
  pub session_token : p.session_token < 2 ^ 32
  pub duplicates_dropped : p.duplicates_dropped < 2 ^ 64
  pub stats : IsStats p.stats
  pub seen_seqs : All (λ s. s < 2 ^ 32) p.seen_seqs
  pub few : length p.seen_seqs ≤ max_seen
  pub keepalive_sent : All (λ e. e.0 < 2 ^ 32) p.keepalive_sent

-- A datagram for a relay is a header and a payload of bytes.
abbrev pub IsSent : Sent → Type 0
IsSent (to_relay addr bytes) = IsBytes bytes × (header_size ≤ length bytes)
IsSent (to_backup addr bytes) = IsBytes bytes × (header_size ≤ length bytes)
IsSent (to_game addr payload) = IsBytes payload

abbrev pub IsInput : Input → Type 0
IsInput (from_game src payload) = IsBytes payload
IsInput (from_relay now bytes) = IsBytes bytes
IsInput (from_backup bytes) = IsBytes bytes
IsInput (tick now) = Unit

pub IsBytes-encode :
    (p : PlgPacket) → IsPacket p → IsBytes (encode p) × (header_size ≤ length (encode p))
unfolding encode be_bytes_u32
IsBytes-encode p h = let bytes = h.payload_fits in ground arith

pub parse-IsPacket : (s : Bytes) (p : PlgPacket) → IsBytes s → parse s ≡ some p → IsPacket p
unfolding parse
parse-IsPacket (a ∷ b ∷ c ∷ d ∷ e ∷ f ∷ g ∷ h ∷ i ∷ j ∷ rest) p ok parsed = ground arith
parse-IsPacket s p ok parsed = ground arith

pub IsPacket-data :
    (token seq : ℕ) (payload : Bytes)
    → token < 2 ^ 32
    → seq < 2 ^ 32
    → IsBytes payload
    → IsPacket (data_packet token seq payload)
      × IsPacket (with_multipath (data_packet token seq payload) 1)
unfolding data_packet with_multipath
IsPacket-data token seq payload ht hs h = (
  record {
    id_fits = ht;
    seq_fits = hs;
    flags_fit = omega arith;
    path_fits = omega arith;
    payload_fits = h;
  },
  record {
    id_fits = ht;
    seq_fits = hs;
    flags_fit = omega arith;
    path_fits = omega arith;
    payload_fits = h;
  },
)

pub IsPacket-keepalive :
    (token seq : ℕ) → token < 2 ^ 32 → seq < 2 ^ 32 → IsPacket (keepalive token seq)
unfolding keepalive
IsPacket-keepalive token seq ht hs = record {
  id_fits = ht;
  seq_fits = hs;
  flags_fit = omega arith;
  path_fits = omega arith;
  payload_fits = tt;
}
