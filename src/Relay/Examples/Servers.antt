-- ===== src/Relay/Examples/Servers.antt =====
-- The theorems about whole servers at concrete states: registrations that overlap, and the start.
use plgames_booster_up.Base.{
  bytes_eq, if◌then◌else◌, ◌^◌, ◌<◌, ℕ, ◌+◌, ◌-◌, ◌^◌, ◌≡◌, ◌≢◌, ◌≤◌, ◌<◌, ◌⊎◌, inl, inr, refl,
  arith, Bytes, codes, ◌↔◌, Bool, true, false, Option, none, some, List, [], ◌∷◌, ◌++◌, length, ltb,
  leb, ◌==◌, if◌then◌else◌, ◌>>=◌, unwrap_or, IsBytes,
}
use plgames_booster_up.Base.Maps.{get, insert, remove}
use plgames_booster_up.Net.{
  Ipv6Text, Ipv4Addr, v4, SocketAddr, parse_ip, parse_ipv4, print_ipv4, print_ip,
}
use plgames_booster_up.Relay.Protocol.{PlgPacket, parse}
use plgames_booster_up.Relay.Session.{
  SessionCache, SessionInfo, new, register_begin, register_finish, unregister, lookup,
  token_by_port, active_count,
}
use plgames_booster_up.Relay.Session.Invariant.{IsConsistent}
use plgames_booster_up.Relay.Forwarder.{ToClient, replies, client_packet, game_packet}
use plgames_booster_up.Relay.Api.{placeholder}
use plgames_booster_up.Relay.System.{
  IsFreshBind, client_datagram, Overlaps, whole, stays, later, begins, finishes,
}
use plgames_booster_up.Relay.System.Targets.{IsAllowed}
use plgames_booster_up.Relay.Config.{Config}
use plgames_booster_up.Relay.Server.{StartAnswers, server_is_bounded}
use plgames_booster_up.Relay.System.Overlapping.{
  overlap_forwards_to_allowed, overlap_replies_to_owner,
}
use plgames_booster_up.Relay.Examples.{
  no_ipv6, key, server_ip, client, socket, empty, one_session, fresh_bind, reach, datagram,
  to_server, other_socket, known_7,
}

-- Two registrations that overlap: 7 and 8 begin, and then 7 ends, before 8 does.
abbrev half_registered : SessionCache
half_registered =
    (register_finish no_ipv6 empty 7 placeholder (server_ip ∷ []) (27015 ∷ []) (some socket) 100).0

abbrev overlapped_cache : SessionCache
overlapped_cache =
    (register_finish no_ipv6 half_registered 8 placeholder [] [] (some other_socket) 101).0

half_fresh : IsFreshBind no_ipv6 key 0 half_registered (some other_socket)
unfolding get register_finish new insert remove
half_fresh s port e e' t info found = ground arith

overlapped : Overlaps no_ipv6 key 0 empty overlapped_cache
unfolding register_begin new unregister get
overlapped =
    later
      (later (later (later stays (begins 7 refl)) (begins 8 refl))
        (finishes 7 placeholder (server_ip ∷ []) (27015 ∷ []) (some socket) 100 fresh_bind))
      (finishes 8 placeholder [] [] (some other_socket) 101 half_fresh)

overlap_forwards_to_allowed_example :
    (p : PlgPacket) × (info : SessionInfo) × (parse datagram ≡ some p)
    × (lookup overlapped_cache p.session_id ≡ some info)
    × IsAllowed no_ipv6 info to_server.target
unfolding client_packet parse get register_finish insert remove parse_ip parse_ipv4
    plgames_booster_up.Net.read_octet plgames_booster_up.Net.expect
overlap_forwards_to_allowed_example =
    overlap_forwards_to_allowed no_ipv6 key 0 2 60000 overlapped_cache 110 client datagram to_server
      overlapped refl

abbrev overlapped_known : SessionCache
overlapped_known = (client_packet no_ipv6 overlapped_cache 110 client datagram).0

abbrev answer_7 : ToClient
answer_7 = record { target = client; bytes = 0 ∷ 0 ∷ 0 ∷ 7 ∷ 0 ∷ 0 ∷ 0 ∷ 0 ∷ 0 ∷ 0 ∷ 33 ∷ [] }

overlap_replies_to_owner_example :
    (token_by_port overlapped_known 40000 ≡ some 7)
    × ((game_packet overlapped_known 40000 (33 ∷ [])).1 ≡ replies answer_7)
unfolding get client_packet parse register_finish insert remove parse_ip parse_ipv4
    plgames_booster_up.Net.read_octet plgames_booster_up.Net.expect
    plgames_booster_up.Base.Maps.modify plgames_booster_up.Net.socket_addr_eq game_packet
    plgames_booster_up.Relay.Protocol.serialize
overlap_replies_to_owner_example =
    overlap_replies_to_owner no_ipv6 key 0 2 60000 overlapped_known 7 40000 known_7 (33 ∷ [])
      (later overlapped (whole (client_datagram 110 client datagram))) refl refl

-- All that the server asks for while it starts succeeds.
abbrev granted : StartAnswers
granted = record {
  socket_created = true;
  recv_buffer_set = true;
  send_buffer_set = true;
  address_reused = true;
  nonblocking_set = true;
  socket_bound = true;
  socket_converted = true;
  metrics_bound = true;
  api_bound = true;
}

-- The environment of a server for two sessions.
abbrev two_sessions : Bytes → Option Bytes
two_sessions name =
    if bytes_eq name (codes "RELAY_API_KEY")
    then some key
    else if bytes_eq name (codes "RELAY_MAX_SESSIONS")
    then some (codes "2")
    else if bytes_eq name (codes "RELAY_SESSION_TIMEOUT")
    then some (codes "60")
    else none

abbrev two_config : Config
two_config = record {
  api_key = key;
  relay_port = 443;
  api_port = 8443;
  metrics_port = 9090;
  max_sessions = 2;
  session_timeout = 60000;
}

server_is_bounded_example : IsConsistent one_session × (active_count one_session ≤ 2)
unfolding plgames_booster_up.Relay.Server.start_server plgames_booster_up.Relay.Config.from_env
    plgames_booster_up.Base.Decimal.parse_number
server_is_bounded_example =
    server_is_bounded no_ipv6 two_sessions granted
      (record { config = two_config; cache = empty; serves_metrics = true }) 0 one_session
      two_config refl refl reach
