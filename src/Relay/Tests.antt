-- ===== src/Relay/Tests.antt =====
-- The unit tests of relay/src on the model. The sockets and the times are chosen here, and a test of
-- a float or of a text that a library makes is left out.
use plgames_booster_up.Base.{
  ◌*◌, ℕ, ◌≡◌, refl, ◌+◌, Bytes, codes, Bool, true, false, not, ◌&&◌, Option, none, some, List, [],
  ◌∷◌, ◌==◌, length, bytes_eq, is_some, is_empty, bit_or, if◌then◌else◌,
}
use plgames_booster_up.Net.{Ipv6Text, SocketAddr, v4, socket_addr_eq, print_ip}
use plgames_booster_up.Relay.Metrics.{new_metrics}
use plgames_booster_up.Relay.Protocol.{
  PlgPacket, parse, serialize, header_size, flag_keepalive, flag_multipath_dup, is_keepalive,
  is_multipath_dup, is_control,
}
use plgames_booster_up.Relay.Session.{
  SessionCache, UdpSocket, new, register, unregister, cleanup_stale, lookup, token_by_port,
  active_count, update_client_addr, default_forward_target,
}
use plgames_booster_up.Relay.Forwarder.{parse_control_payload}
use plgames_booster_up.Relay.Config.{Config, from_env}
use plgames_booster_up.Relay.Examples.{no_ipv6}

abbrev cache_of : ℕ → ℕ → SessionCache
cache_of most secs = new most (secs * 1000) new_metrics

abbrev client : SocketAddr
client = record { ip = v4 (record { o0 = 1; o1 = 2; o2 = 3; o3 = 4 }); port = 5000 }

abbrev client2 : SocketAddr
client2 = record { ip = v4 (record { o0 = 5; o1 = 6; o2 = 7; o3 = 8 }); port = 6000 }

abbrev bound : ℕ → Option UdpSocket
bound port = some (record { local_port = some port })

abbrev with_game : List Bytes
with_game = codes "10.0.0.1" ∷ []

-- `register` at time 0 on a socket with this port.
abbrev add : SessionCache → ℕ → List Bytes → List ℕ → ℕ → SessionCache × Option ℕ
add c token ips ports port = register no_ipv6 c token client ips ports (bound port) 0

abbrev test_register_and_get : Bool
test_register_and_get =
    let (c, port) = add (cache_of 10 300) 100 with_game (27015 ∷ []) 40000 in
    is_some port && active_count c == 1 && elim (lookup c 100) [
      | none ↦ false
      | some session ↦
          socket_addr_eq session.client_addr client
          && bytes_eq session.game_ports (27015 ∷ [])
          && is_some session.forward_target
    ]

test_register_and_get_holds : test_register_and_get ≡ true
unfolding register new plgames_booster_up.Base.Maps.insert plgames_booster_up.Base.Maps.remove
    unregister plgames_booster_up.Base.Maps.get socket_addr_eq plgames_booster_up.Net.parse_ip
    plgames_booster_up.Net.parse_ipv4 plgames_booster_up.Net.read_octet
    plgames_booster_up.Net.expect
test_register_and_get_holds = refl

abbrev test_unregister : Bool
test_unregister =
    let (c, bound_port) = add (cache_of 10 300) 200 with_game (27015 ∷ []) 40000 in
    elim bound_port [
      | none ↦ false
      | some port ↦
          let d = unregister c 200 in
          active_count c == 1
          && is_some (token_by_port c port)
          && active_count d == 0
          && not (is_some (token_by_port d port))
    ]

test_unregister_holds : test_unregister ≡ true
unfolding register new plgames_booster_up.Base.Maps.insert plgames_booster_up.Base.Maps.remove
    unregister plgames_booster_up.Base.Maps.get
test_unregister_holds = refl

abbrev test_max_sessions : Bool
test_max_sessions =
    let c1 = (add (cache_of 2 300) 1 [] [] 40000).0 in
    let c2 = (add c1 2 [] [] 40001).0 in
    let (c3, result) = add c2 3 [] [] 40002 in not (is_some result) && active_count c3 == 2

test_max_sessions_holds : test_max_sessions ≡ true
unfolding register new unregister plgames_booster_up.Base.Maps.get
    plgames_booster_up.Base.Maps.insert plgames_booster_up.Base.Maps.remove
test_max_sessions_holds = refl

-- The clean-up runs a moment later: a session of this very instant is not older than the timeout.
abbrev test_cleanup_stale : Bool
test_cleanup_stale =
    let (c, removed) = cleanup_stale (add (cache_of 10 0) 1 [] [] 40000).0 1 in
    removed == 1 && active_count c == 0

test_cleanup_stale_holds : test_cleanup_stale ≡ true
unfolding cleanup_stale register new plgames_booster_up.Base.Maps.insert unregister
    plgames_booster_up.Base.Maps.get plgames_booster_up.Base.Maps.remove
test_cleanup_stale_holds = refl

abbrev test_update_client_addr : Bool
test_update_client_addr =
    let c = update_client_addr (add (cache_of 10 300) 1 [] [] 40000).0 1 client2 in
    elim (lookup c 1) [ none ↦ false | some session ↦ socket_addr_eq session.client_addr client2 ]

test_update_client_addr_holds : test_update_client_addr ≡ true
unfolding plgames_booster_up.Base.Maps.get update_client_addr plgames_booster_up.Base.Maps.modify
    register new plgames_booster_up.Base.Maps.insert socket_addr_eq
test_update_client_addr_holds = refl

abbrev test_port_to_token_lookup : Bool
test_port_to_token_lookup =
    let (c, bound_port) = add (cache_of 10 300) 42 [] [] 40000 in
    elim bound_port [
      | none ↦ false
      | some port ↦
          not (is_some (token_by_port c (port + 1)))
          && elim (token_by_port c port) [ none ↦ false | some token ↦ token == 42 ]
    ]

test_port_to_token_lookup_holds : test_port_to_token_lookup ≡ true
unfolding register new plgames_booster_up.Base.Maps.get plgames_booster_up.Base.Maps.insert
    plgames_booster_up.Base.Maps.remove unregister
test_port_to_token_lookup_holds = refl

abbrev is_target : Option SocketAddr → SocketAddr → Bool
is_target none addr = false
is_target (some target) addr = socket_addr_eq target addr

abbrev test_default_forward_target : Bool
test_default_forward_target =
    is_target (default_forward_target no_ipv6 (codes "192.168.1.1" ∷ []) (27015 ∷ []))
      (record { ip = v4 (record { o0 = 192; o1 = 168; o2 = 1; o3 = 1 }); port = 27015 })
    && not (is_some (default_forward_target no_ipv6 [] (27015 ∷ [])))
    && not (is_some (default_forward_target no_ipv6 with_game []))

test_default_forward_target_holds : test_default_forward_target ≡ true
unfolding default_forward_target plgames_booster_up.Net.parse_ip plgames_booster_up.Net.parse_ipv4
    plgames_booster_up.Net.read_octet plgames_booster_up.Net.expect socket_addr_eq
test_default_forward_target_holds = refl

abbrev test_parse_and_serialize : Bool
test_parse_and_serialize =
    let original : PlgPacket = record {
      session_id = 12345;
      seq_number = 1;
      flags = 0;
      path_id = 0;
      payload = 0xDE ∷ 0xAD ∷ 0xBE ∷ 0xEF ∷ [];
    } in
    let bytes = serialize original in
    length bytes == header_size + 4 && elim (parse bytes) [
      | none ↦ false
      | some parsed ↦
          parsed.session_id == 12345
          && parsed.seq_number == 1
          && parsed.flags == 0
          && parsed.path_id == 0
          && bytes_eq parsed.payload (0xDE ∷ 0xAD ∷ 0xBE ∷ 0xEF ∷ [])
    ]

test_parse_and_serialize_holds : test_parse_and_serialize ≡ true
unfolding serialize parse
test_parse_and_serialize_holds = refl

abbrev test_flags : Bool
test_flags =
    let pkt : PlgPacket = record {
      session_id = 1;
      seq_number = 1;
      flags = bit_or flag_keepalive flag_multipath_dup;
      path_id = 1;
      payload = [];
    } in
    is_keepalive pkt && is_multipath_dup pkt && not (is_control pkt)

test_flags_holds : test_flags ≡ true
unfolding is_keepalive is_multipath_dup is_control
test_flags_holds = refl

abbrev test_too_short : Bool
test_too_short = not (is_some (parse (0 ∷ 0 ∷ 0 ∷ 0 ∷ 0 ∷ [])))

test_too_short_holds : test_too_short ≡ true
unfolding parse
test_too_short_holds = refl

abbrev test_parse_control_payload : Bool
test_parse_control_payload = elim (parse_control_payload no_ipv6 (codes "192.168.1.1:27015")) [
  | none ↦ false
  | some addr ↦ bytes_eq (print_ip no_ipv6 addr.ip) (codes "192.168.1.1") && addr.port == 27015
]

test_parse_control_payload_holds : test_parse_control_payload ≡ true
unfolding parse_control_payload plgames_booster_up.Net.from_utf8 plgames_booster_up.Net.splitn_2
    plgames_booster_up.Net.split_once plgames_booster_up.Net.parse_ip
    plgames_booster_up.Net.parse_ipv4 plgames_booster_up.Net.read_octet
    plgames_booster_up.Net.expect plgames_booster_up.Base.Decimal.parse_number print_ip
    plgames_booster_up.Net.print_ipv4 plgames_booster_up.Base.Decimal.print_number
test_parse_control_payload_holds = refl

abbrev test_parse_control_payload_ipv6 : Bool
test_parse_control_payload_ipv6 = not (is_some (parse_control_payload no_ipv6 (codes "::1:27015")))

test_parse_control_payload_ipv6_holds : test_parse_control_payload_ipv6 ≡ true
unfolding parse_control_payload plgames_booster_up.Net.from_utf8 plgames_booster_up.Net.splitn_2
    plgames_booster_up.Net.split_once plgames_booster_up.Net.parse_ip
    plgames_booster_up.Net.parse_ipv4 plgames_booster_up.Net.read_octet no_ipv6
test_parse_control_payload_ipv6_holds = refl

abbrev test_parse_control_payload_invalid : Bool
test_parse_control_payload_invalid =
    not (is_some (parse_control_payload no_ipv6 (codes "invalid")))
    && not (is_some (parse_control_payload no_ipv6 []))
    && not (is_some (parse_control_payload no_ipv6 (codes "192.168.1.1")))
    && not (is_some (parse_control_payload no_ipv6 (codes "192.168.1.1:abc")))

test_parse_control_payload_invalid_holds : test_parse_control_payload_invalid ≡ true
unfolding parse_control_payload plgames_booster_up.Net.from_utf8 plgames_booster_up.Net.splitn_2
    plgames_booster_up.Net.split_once plgames_booster_up.Net.parse_ip
    plgames_booster_up.Net.parse_ipv4 plgames_booster_up.Net.read_octet
    plgames_booster_up.Net.expect plgames_booster_up.Base.Decimal.parse_number
test_parse_control_payload_invalid_holds = refl

-- The environment with these variables.
abbrev variables : List (Bytes × Bytes) → Bytes → Option Bytes
variables [] name = none
variables ((key, value) ∷ rest) name = if bytes_eq key name then some value else variables rest name

abbrev is_config : Option Config → ℕ → ℕ → ℕ → ℕ → ℕ → Bool
is_config none relay api metrics most timeout = false
is_config (some cfg) relay api metrics most timeout =
    cfg.relay_port == relay
    && cfg.api_port == api
    && cfg.metrics_port == metrics
    && cfg.max_sessions == most
    && cfg.session_timeout == timeout

abbrev test_config_defaults : Bool
test_config_defaults =
    let cfg = from_env (variables ((codes "RELAY_API_KEY", codes "test-key-123") ∷ [])) in
    is_config cfg 443 8443 9090 1000 300000
    && elim cfg [ none ↦ false | some c ↦ bytes_eq c.api_key (codes "test-key-123") ]

test_config_defaults_holds : test_config_defaults ≡ true
unfolding from_env
test_config_defaults_holds = refl

abbrev test_config_custom : Bool
test_config_custom =
    is_config
      (from_env (
        variables (
          (codes "RELAY_API_KEY", codes "custom-key")
          ∷ (codes "RELAY_PORT", codes "9443")
          ∷ (codes "RELAY_API_PORT", codes "9444")
          ∷ (codes "RELAY_METRICS_PORT", codes "9091")
          ∷ (codes "RELAY_MAX_SESSIONS", codes "500")
          ∷ (codes "RELAY_SESSION_TIMEOUT", codes "600")
          ∷ [])))
      9443 9444 9091 500 600000

test_config_custom_holds : test_config_custom ≡ true
unfolding from_env plgames_booster_up.Base.Decimal.parse_number
test_config_custom_holds = refl
