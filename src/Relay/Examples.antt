-- ===== src/Relay/Examples.antt =====
-- The theorems about relay/src at concrete states: a cache with one session of token 7, whose client
-- sends from port 5000, and which plays on 10.0.0.1:27015.
mod Servers
use plgames_booster_up.Base.{
  bytes_eq, if◌then◌else◌, ◌^◌, ◌<◌, ℕ, ◌+◌, ◌-◌, ◌^◌, ◌≡◌, ◌≢◌, ◌≤◌, ◌<◌, ◌⊎◌, inl, inr, refl,
  arith, Bytes, codes, ◌↔◌, Bool, true, false, Option, none, some, List, [], ◌∷◌, ◌++◌, length, ltb,
  leb, ◌==◌, if◌then◌else◌, ◌>>=◌, unwrap_or, IsBytes,
}
use plgames_booster_up.Base.Maps.{get, insert, remove}
use plgames_booster_up.Net.{
  Ipv6Text, Ipv4Addr, v4, SocketAddr, parse_ip, parse_ipv4, print_ipv4, print_ip,
}
use plgames_booster_up.Relay.Protocol.{PlgPacket, parse}
use plgames_booster_up.Relay.Metrics.{new_metrics}
use plgames_booster_up.Relay.Session.{
  SessionCache, SessionInfo, UdpSocket, new, register, register_begin, register_finish, unregister,
  cleanup_stale, lookup, token_by_port, active_count,
}
use plgames_booster_up.Relay.Session.Invariant.{IsConsistent, IsFreshPort, register-IsConsistent}
use plgames_booster_up.Relay.Session.Cleanup.{keep_fresh, cleanup_stale-keep_fresh}
use plgames_booster_up.Relay.Session.Race.{
  Registration, register_both, register_both_over_limit, register_both_same_token,
}
use plgames_booster_up.Relay.Forwarder.{
  parse_control_payload, ToGame, ToClient, client_packet, game_packet,
}
use plgames_booster_up.Relay.Forwarder.Client.{client_packet_data}
use plgames_booster_up.Relay.Api.{
  RegisterRequest, register_session, unregister_session, health, unauthorized, handle,
  handle_register, authorized, placeholder, constant_time_eq,
}
use plgames_booster_up.Relay.Api.Key.{constant_time_eq_iff}
use plgames_booster_up.Relay.Api.Guard.{handle_requires_key}
use plgames_booster_up.Relay.System.{
  IsFreshBind, api_request, client_datagram, Reach, here, next, Overlaps, whole, stays, later,
  begins, finishes,
}
use plgames_booster_up.Relay.System.Invariant.{Reach-start}
use plgames_booster_up.Relay.System.Isolation.{Concerns, step_alone}
use plgames_booster_up.Relay.System.Targets.{IsAllowed}
use plgames_booster_up.Relay.Config.{Config}
use plgames_booster_up.Relay.Server.{StartAnswers, server_is_bounded}
use plgames_booster_up.Relay.System.Overlapping.{
  overlap_forwards_to_allowed, overlap_replies_to_owner,
}
use plgames_booster_up.Relay.System.Keepalive.{packet_keeps_session}

-- No text is an IPv6 address.
unfoldable pub no_ipv6 : Ipv6Text
no_ipv6 = record { parse = λ s. none; print = λ a. a; parse_colon = λ s a e. cc }

abbrev pub key : Bytes
key = codes "key"

abbrev server_ip : Bytes
server_ip = codes "10.0.0.1"

abbrev pub server : SocketAddr
server = record { ip = v4 (record { o0 = 10; o1 = 0; o2 = 0; o3 = 1 }); port = 27015 }

abbrev pub client : SocketAddr
client = record { ip = v4 (record { o0 = 192; o1 = 168; o2 = 0; o3 = 2 }); port = 5000 }

abbrev pub socket : UdpSocket
socket = record { local_port = some 40000 }

abbrev empty : SessionCache
empty = new 2 60000 new_metrics

abbrev pub session_7 : SessionInfo
session_7 = record {
  session_token = 7;
  client_addr = placeholder;
  game_server_ips = server_ip ∷ [];
  game_ports = 27015 ∷ [];
  forward_target = some server;
  forward_socket = socket;
  last_seen = 100;
  packets_in = 0;
  packets_out = 0;
  bytes_in = 0;
  bytes_out = 0;
}

abbrev pub one_session : SessionCache
one_session = record {
  sessions = (7, session_7) ∷ [];
  port_to_token = (40000, 7) ∷ [];
  max_sessions = 2;
  session_timeout = 60000;
  metrics = record (new_metrics) { active_sessions = 1 };
}

abbrev request : RegisterRequest
request = record {
  session_token = 7;
  game_server_ips = server_ip ∷ [];
  game_ports = codes "27015" ∷ [];
}

fresh_bind : IsFreshBind no_ipv6 key 0 empty (some socket)
unfolding get new
fresh_bind s port e e' t info found = absurd cc

reach : Reach no_ipv6 key 0 empty one_session
unfolding handle handle_register authorized register register_begin register_finish new insert
    unregister new_metrics plgames_booster_up.Base.Decimal.parse_number remove get parse_ip
    parse_ipv4 plgames_booster_up.Net.read_octet plgames_booster_up.Net.expect
reach = next here (api_request (some key) (register_session request) (some socket) 100 fresh_bind)

pub consistent : IsConsistent one_session
consistent = (Reach-start 2 60000 one_session reach).0

-- The wire form of a data packet of session 7 with sequence number 1 and two bytes.
abbrev datagram : Bytes
datagram = 0 ∷ 0 ∷ 0 ∷ 7 ∷ 0 ∷ 0 ∷ 0 ∷ 1 ∷ 0 ∷ 0 ∷ 11 ∷ 22 ∷ []

abbrev packet : PlgPacket
packet = record { session_id = 7; seq_number = 1; flags = 0; path_id = 0; payload = 11 ∷ 22 ∷ [] }

abbrev to_server : ToGame
to_server = record { via = socket; target = server; payload = 11 ∷ 22 ∷ [] }

datagram-parsed : parse datagram ≡ some packet
unfolding parse
datagram-parsed = refl

found_7 : lookup one_session 7 ≡ some session_7
unfolding get
found_7 = refl

datagram_sent : (client_packet no_ipv6 one_session 110 client datagram).1 ≡ some to_server
datagram_sent =
    client_packet_data no_ipv6 one_session 110 client datagram packet session_7 server
      datagram-parsed found_7 refl refl refl

short : (p : PlgPacket) → parse (1 ∷ 2 ∷ []) ≡ some p → lookup one_session p.session_id ≡ none
unfolding parse
short p e = absurd cc

abbrev other_socket : UdpSocket
other_socket = record { local_port = some 40001 }

other_fresh :
    (s : UdpSocket) (port : ℕ)
    → some other_socket ≡ some s
    → s.local_port ≡ some port
    → IsFreshPort one_session port
unfolding get
other_fresh s port e e' t info found = ground arith

register-IsConsistent_example :
    IsConsistent
      (register no_ipv6 one_session 9 placeholder
        (server_ip ∷ [])
        (27015 ∷ [])
        (some other_socket)
        120).0
register-IsConsistent_example =
    register-IsConsistent no_ipv6 one_session 9 placeholder (server_ip ∷ []) (27015 ∷ [])
      (some other_socket) 120 consistent other_fresh

cleanup_stale-keep_fresh_example :
    let r = cleanup_stale one_session 60101 in
    (r.0.sessions ≡ keep_fresh 60101 60000 one_session.sessions) × (r.1 + active_count r.0 ≡ 1)
cleanup_stale-keep_fresh_example = cleanup_stale-keep_fresh one_session 60101 consistent

abbrev registration : ℕ → UdpSocket → Registration
registration token s = record {
  token = token;
  addr = placeholder;
  ips = [];
  ports = [];
  socket = s;
  now = 120;
}

abbrev third_socket : UdpSocket
third_socket = record { local_port = some 40002 }

missing : (t : ℕ) → 7 ≢ t → lookup one_session t ≡ none
unfolding get
missing t h = ground arith

register_both_over_limit_example :
    (c' : SessionCache) × (register_both no_ipv6 one_session
        (registration 8 other_socket)
        (registration 9 third_socket)
      ≡ some (c', some 40001, some 40002))
    × (active_count c' ≡ 3)
register_both_over_limit_example =
    register_both_over_limit no_ipv6 one_session (registration 8 other_socket)
      (registration 9 third_socket) 40001 40002 refl (λ e. absurd (omega arith))
      (missing 8 (λ e. absurd (omega arith))) (missing 9 (λ e. absurd (omega arith))) refl refl

register_both_same_token_example :
    (c' : SessionCache) × (register_both no_ipv6 one_session
        (registration 8 other_socket)
        (registration 8 third_socket)
      ≡ some (c', some 40001, some 40002))
    × (token_by_port c' 40001 ≡ some 8)
    × (¬ IsConsistent c')
    × (token_by_port (unregister c' 8) 40001 ≡ some 8)
    × (lookup (unregister c' 8) 8 ≡ none)
register_both_same_token_example =
    register_both_same_token no_ipv6 one_session (registration 8 other_socket)
      (registration 8 third_socket) 40001 40002 (omega arith) refl (λ e. absurd (omega arith)) refl
      refl

step_alone_example :
    (lookup (client_packet no_ipv6 one_session 110 client datagram).0 7 ≡ lookup one_session 7)
    ⊎ Concerns no_ipv6 key 0 {c = one_session} (client_datagram 110 client datagram) 7
step_alone_example =
    step_alone no_ipv6 key 0 7 one_session (client_packet no_ipv6 one_session 110 client datagram).0
      (client_datagram 110 client datagram) consistent

-- The session when its client has sent something.
abbrev known_session : SessionCache
known_session = (client_packet no_ipv6 one_session 110 client datagram).0

abbrev known_7 : SessionInfo
known_7 = record session_7 { client_addr = client; last_seen = 110; packets_in = 1; bytes_in = 12 }

known-IsConsistent : IsConsistent known_session
known-IsConsistent =
    (Reach-start 2 60000 known_session (next reach (client_datagram 110 client datagram))).0

known_7-found : lookup known_session 7 ≡ some known_7
unfolding get client_packet parse plgames_booster_up.Base.Maps.modify
    plgames_booster_up.Net.socket_addr_eq
known_7-found = refl

constant_time_eq_iff_example : (constant_time_eq key key ≡ true) ↔ (key ≡ key)
constant_time_eq_iff_example = constant_time_eq_iff key key

handle_requires_key_example :
    let r = handle no_ipv6 key 0 one_session none (unregister_session 7) none 120 in
    (r.cache ≡ one_session)
    × (r.spawned ≡ none)
    × ((r.response ≡ unauthorized) ⊎ (unregister_session 7 ≡ health))
handle_requires_key_example =
    handle_requires_key no_ipv6 key 0 one_session none (unregister_session 7) none 120 (λ e. cc)

datagram-IsBytes : IsBytes datagram
datagram-IsBytes = ground arith

abbrev control_text : Bytes
control_text = codes "10.0.0.1:27015"

control_text-parsed : parse_control_payload no_ipv6 control_text ≡ some server
unfolding parse_control_payload plgames_booster_up.Net.from_utf8 plgames_booster_up.Net.splitn_2
    plgames_booster_up.Net.split_once parse_ip parse_ipv4 plgames_booster_up.Net.read_octet
    plgames_booster_up.Net.expect plgames_booster_up.Base.Decimal.parse_number
control_text-parsed = refl

-- An environment in which only the key and a session limit that is no number are set.
abbrev environment : Bytes → Option Bytes
environment name =
    if bytes_eq name (codes "RELAY_API_KEY")
    then some key
    else if bytes_eq name (codes "RELAY_MAX_SESSIONS")
    then some (codes "many")
    else none
