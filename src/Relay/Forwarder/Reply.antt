-- ===== src/Relay/Forwarder/Reply.antt =====
-- relay/src/forwarder.rs, `spawn_response_listener`: what a client is sent.
use plgames_booster_up.Base.{
  ℕ, ◌≡◌, ◌≢◌, ◌<◌, ◌^◌, ◌+◌, refl, none, some, arith, length, Bytes, IsBytes,
}
use plgames_booster_up.Base.Maps.{get-modify}
use plgames_booster_up.Relay.Metrics.{add_u64}
use plgames_booster_up.Relay.Protocol.{parse, serialize, header_size}
use plgames_booster_up.Relay.Protocol.Roundtrip.{parse-serialize}
use plgames_booster_up.Relay.Session.{SessionCache, SessionInfo, lookup, token_by_port}
use plgames_booster_up.Relay.Session.Invariant.{IsConsistent}
use plgames_booster_up.Relay.Forwarder.{
  ToClient, game_packet, exits, skips, replies, reply_packet, count_out,
}

-- In a consistent cache a datagram from the game on the socket of a session whose client is known
-- goes to that client, and to nobody else; what the client receives parses to the session's 32-bit
-- token, sequence number 0, no flags and the game's bytes.
pub game_packet_replies :
    (c : SessionCache) (token port : ℕ) (info : SessionInfo) (payload : Bytes)
    → IsConsistent c
    → lookup c token ≡ some info
    → info.forward_socket.local_port ≡ some port
    → info.client_addr.port ≢ 0
    → token < 2 ^ 32
    → IsBytes payload
    → (d : ToClient) × ((game_packet c port payload).1 ≡ replies d)
      × (d.target ≡ info.client_addr)
      × (parse d.bytes
          ≡ some (record {
            session_id = token;
            seq_number = 0;
            flags = 0;
            path_id = 0;
            payload = payload;
          }))
unfolding game_packet
game_packet_replies c token port info payload v found port_of known fits bytes =
    let (_, p, port_p, back) = v.keyed token info found in
    let routed : token_by_port c port ≡ some token = ground arith in
    (
      record { target = info.client_addr; bytes = serialize (reply_packet token payload) },
      rw (routed, game_packet) (rw found (ground arith)),
      refl,
      parse-serialize (reply_packet token payload) (record {
        id_fits = fits;
        seq_fits = omega arith;
        flags_fit = omega arith;
        path_fits = omega arith;
        payload_fits = bytes;
      }),
    )

-- When a session has been unregistered, its listener ends with the next datagram it receives.
pub game_packet_exits :
    (c : SessionCache) (port : ℕ) (payload : Bytes)
    → token_by_port c port ≡ none
    → game_packet c port payload ≡ (c, exits)
unfolding game_packet
game_packet_exits c port payload gone = rw (gone, game_packet)

-- Nothing is sent to the placeholder address that a session has before its first packet; the
-- datagram is counted in the session's statistics.
pub game_packet_skips :
    (c : SessionCache) (token port : ℕ) (info : SessionInfo) (payload : Bytes)
    → token_by_port c port ≡ some token
    → lookup c token ≡ some info
    → info.client_addr.port ≡ 0
    → ((game_packet c port payload).1 ≡ skips)
      × (lookup (game_packet c port payload).0 token
          ≡ some (record info {
            packets_out = add_u64 info.packets_out 1;
            bytes_out = add_u64 info.bytes_out (header_size + length payload);
          }))
unfolding game_packet
game_packet_skips c token port info payload routed found unknown =
    ground (arith, get-modify token token (count_out (length payload)) c.sessions)
