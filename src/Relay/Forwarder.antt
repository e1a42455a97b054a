-- ===== src/Relay/Forwarder.antt =====
-- relay/src/forwarder.rs: what one round of each packet loop does with a datagram. A round that
-- sends is cut at its await: the first half gives the datagram to send, the second half takes the
-- operating system's answer.
pub mod Frame
pub mod Control
pub mod Client
pub mod Reply
use plgames_booster_up.Base.{
  ℕ, ◌+◌, Bytes, Bool, Option, none, some, List, [], ◌∷◌, ◌==◌, if◌then◌else◌, ◌>>=◌, length,
  contains,
}
use plgames_booster_up.Base.Decimal.{parse_number}
use plgames_booster_up.Net.{
  Ipv6Text, SocketAddr, socket_addr_eq, parse_ip, print_ip, from_utf8, splitn_2,
}
use plgames_booster_up.Relay.Protocol.{
  PlgPacket, parse, serialize, has_flag, flag_keepalive, flag_control, header_size,
}
use plgames_booster_up.Relay.Metrics.{
  Metrics, add_u64, count_received, count_dropped, count_invalid, count_keepalive, count_forwarded,
}
use plgames_booster_up.Relay.Session.{
  SessionCache, SessionInfo, UdpSocket, lookup, update_session, token_by_port,
}

-- A datagram for a game server, on the session's socket.
pub record ToGame : Type 0 where
  pub via : UdpSocket
  pub target : SocketAddr
  pub payload : Bytes

-- A datagram for a client, on the main socket.
pub record ToClient : Type 0 where
  pub target : SocketAddr
  pub bytes : Bytes

abbrev pub counted : (Metrics → Metrics) → SessionCache → SessionCache
counted f c = record c { metrics = f c.metrics }

-- What a packet of the session does to its entry: the address, the time and the counters.
unfoldable pub touch : ℕ → SocketAddr → ℕ → SessionInfo → SessionInfo
touch now from len info = record info {
  client_addr = if socket_addr_eq info.client_addr from then info.client_addr else from;
  last_seen = now;
  packets_in = add_u64 info.packets_in 1;
  bytes_in = add_u64 info.bytes_in len;
}

abbrev pub retarget : SocketAddr → SessionInfo → SessionInfo
retarget target info = record info { forward_target = some target }

-- The data branch.
unfoldable pub data_packet : SessionCache → SessionInfo → Bytes → SessionCache × Option ToGame
data_packet c info payload = elim info.forward_target [
  | none ↦ (counted count_dropped c, none)
  | some target ↦
      (c, some (record { via = info.forward_socket; target = target; payload = payload }))
]

module _ (v6t : Ipv6Text) where
  address_of : List Bytes → Option SocketAddr
  address_of (host ∷ port_text ∷ []) = do
    ip ← parse_ip v6t host
    port ← parse_number 65535 port_text
    some (record { ip = ip; port = port })
  address_of _ = none

  unfoldable pub parse_control_payload : Bytes → Option SocketAddr
  unfolding address_of
  parse_control_payload payload = do s ← from_utf8 payload; address_of (splitn_2 b':' s)

  -- The control branch: the new target must be one of the session's server addresses.
  unfoldable pub control_packet : SessionCache → ℕ → SessionInfo → Bytes → SessionCache
  unfolding parse_control_payload
  control_packet c token info payload = elim (parse_control_payload payload) [
    | none ↦ counted count_dropped c
    | some target ↦
        if contains info.game_server_ips (print_ip v6t target.ip)
        then update_session c token (retarget target)
        else counted count_dropped c
  ]

  -- A packet of a known session, whose entry has been touched.
  unfoldable pub session_packet :
      SessionCache → SessionInfo → PlgPacket → SessionCache × Option ToGame
  unfolding control_packet data_packet
  session_packet c info packet =
      if has_flag packet.flags flag_keepalive
      then (counted count_keepalive c, none)
      else if has_flag packet.flags flag_control
      then (control_packet c packet.session_id info packet.payload, none)
      else data_packet c info packet.payload

  -- `client_listener`, from the receipt of a datagram up to the await of `send_to`.
  unfoldable pub client_packet :
      SessionCache → ℕ → SocketAddr → Bytes → SessionCache × Option ToGame
  unfolding session_packet touch
  client_packet c now from bytes =
      let c1 = counted count_received c in
      elim (parse bytes) [
        | none ↦ (counted count_dropped c1, none)
        | some packet ↦ elim (lookup c1 packet.session_id) [
          | none ↦ (counted count_invalid c1, none)
          | some info ↦
              session_packet (update_session c1 packet.session_id (touch now from (length bytes)))
                (touch now from (length bytes) info) packet
        ]
      ]

-- `client_listener` behind the await: the number of bytes sent, or an error.
unfoldable pub after_send : SessionCache → Option ℕ → SessionCache
after_send c none = counted count_dropped c
after_send c (some sent) = counted (count_forwarded sent) c

-- What the response listener does with a datagram from the game.
pub data Response : Type 0 where
  -- The task returns.
  exits : Response
  -- The client's address is not known yet.
  skips : Response
  replies : ToClient → Response

unfoldable pub reply_packet : ℕ → Bytes → PlgPacket
reply_packet token payload = record {
  session_id = token;
  seq_number = 0;
  flags = 0;
  path_id = 0;
  payload = payload;
}

abbrev pub count_out : ℕ → SessionInfo → SessionInfo
count_out len info = record info {
  packets_out = add_u64 info.packets_out 1;
  bytes_out = add_u64 info.bytes_out (header_size + len);
}

-- The loop of `spawn_response_listener`, for the socket with this local port, up to the await.
unfoldable pub game_packet : SessionCache → ℕ → Bytes → SessionCache × Response
unfolding reply_packet
game_packet c local_port payload = elim (token_by_port c local_port) [
  | none ↦ (c, exits)
  | some token ↦ elim (lookup c token) [
    | none ↦ (c, exits)
    | some info ↦
        let c' = update_session c token (count_out (length payload)) in
        if info.client_addr.port == 0 then (c', skips) else (
          c',
          replies (record {
            target = info.client_addr;
            bytes = serialize (reply_packet token payload);
          }),
        )
  ]
]

-- Behind the await, whatever the answer was.
unfoldable pub after_reply : SessionCache → ToClient → SessionCache
after_reply c reply = counted (count_forwarded (length reply.bytes)) c
