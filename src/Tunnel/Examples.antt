-- ===== src/Tunnel/Examples.antt =====
-- Tests of client/src-tauri/src/udp_proxy.rs and relay/src/forwarder.rs together: a registered
-- session and its proxy, and a run in which a datagram arrives twice and its answer once.
use plgames_booster_up.Base.{
  ℕ, ◌≡◌, ◌≢◌, ◌++◌, refl, Bytes, true, false, none, some, List, [], ◌∷◌, arith,
}
use plgames_booster_up.Base.Maps.{get}
use plgames_booster_up.Net.{SocketAddr, v4}
use plgames_booster_up.Relay.Examples.{
  key, no_ipv6, server, client, socket, session_7, one_session, consistent,
}
use plgames_booster_up.Client.Proxy.{UdpProxy, to_game, from_relay, step}
use plgames_booster_up.Client.Protocol.{encode}
use plgames_booster_up.Relay.Forwarder.{reply_packet}
use plgames_booster_up.Relay.Session.{cleanup_stale}
use plgames_booster_up.Tunnel.Keepalive.{keepalive_keeps_IsOpen}
use plgames_booster_up.Tunnel.{
  IsOpen, ticks, World, asks, relays, answers, hands, game_asks, client_heard, server_answers,
  relay_heard, Reach, here, next,
}
use plgames_booster_up.Tunnel.Invariant.{IsStart, start-IsSound}
use plgames_booster_up.Tunnel.Refine.{on_port}
use plgames_booster_up.Tunnel.Delivery.{ask_and_answer}
use mathlib.Core.List.Memᴰ.{head}

abbrev game : SocketAddr
game = record { ip = v4 (record { o0 = 127; o1 = 0; o2 = 0; o3 = 1 }); port = 50000 }

abbrev relay : SocketAddr
relay = record { ip = v4 (record { o0 = 9; o1 = 9; o2 = 9; o3 = 9 }); port = 443 }

abbrev proxy : UdpProxy
proxy = record {
  running = true;
  seq_counter = 1;
  stats = record {
    packets_sent = 0;
    packets_received = 0;
    bytes_sent = 0;
    bytes_received = 0;
    last_rtt = none;
    multipath_enabled = false;
    multipath_active = false;
    duplicates_dropped = 0;
  };
  local_port = 6000;
  session_token = 7;
  relay_addr = relay;
  backup = none;
  game_addr = none;
  seen_seqs = [];
  keepalive_sent = [];
  duplicates_dropped = 0;
}

abbrev quiet : World
quiet = record {
  proxy = proxy;
  cache = one_session;
  asked = [];
  outward = [];
  served = [];
  answered = [];
  homeward = [];
  shown = [];
}

quiet-IsStart : IsStart 7 40000 quiet
unfolding get
quiet-IsStart = record {
  fits = omega arith;
  consistent = consistent;
  opened = record { info = session_7; found = refl; port_of = refl };
  same_token = refl;
  seq_fits = omega arith;
  no_backup = refl;
  asked = refl;
  outward = refl;
  served = refl;
  answered = refl;
  homeward = refl;
  shown = refl;
}

abbrev question : Bytes
question = 11 ∷ 22 ∷ []

abbrev answer : Bytes
answer = 33 ∷ []

abbrev asked : World
asked = asks 1 quiet game question

-- The wire form of the question, with the proxy's first free number.
abbrev datagram : Bytes
datagram = 0 ∷ 0 ∷ 0 ∷ 7 ∷ 0 ∷ 0 ∷ 0 ∷ 1 ∷ 0 ∷ 0 ∷ 11 ∷ 22 ∷ []

abbrev served : World
served = relays no_ipv6 (relays no_ipv6 asked 110 client datagram) 111 client datagram

abbrev answered : World
answered = answers 40000 served answer

abbrev reply : Bytes
reply = 0 ∷ 0 ∷ 0 ∷ 7 ∷ 0 ∷ 0 ∷ 0 ∷ 0 ∷ 0 ∷ 0 ∷ 33 ∷ []

abbrev last : World
last = hands 1 answered 120 reply

run : Reach no_ipv6 key 0 1 7 40000 quiet last
unfolding step encode plgames_booster_up.Client.Protocol.data_packet
    plgames_booster_up.Relay.Forwarder.game_packet get
    plgames_booster_up.Relay.Forwarder.client_packet plgames_booster_up.Relay.Protocol.parse
    plgames_booster_up.Base.Maps.modify plgames_booster_up.Net.socket_addr_eq
    plgames_booster_up.Relay.Protocol.serialize
run =
    next
      (next
        (next
          (next (next here (game_asks game question))
            (client_heard 110 client datagram (head refl)))
          (client_heard 111 client datagram (head refl)))
        (server_answers answer))
      (relay_heard 120 reply (head refl))

run-served : on_port 40000 last.served ≡ question ∷ question ∷ []
unfolding plgames_booster_up.Relay.Forwarder.client_packet plgames_booster_up.Relay.Protocol.parse
    get plgames_booster_up.Base.Maps.modify
run-served = refl

run-shown : last.shown ≡ answer ∷ []
unfolding step plgames_booster_up.Client.Protocol.parse
    plgames_booster_up.Client.Protocol.is_keepalive
run-shown = refl

ask_and_answer_example :
    (bytes reply : Bytes) × let asked = asks 1 quiet game question in
      let served = relays no_ipv6 asked 110 client bytes in
      let answered = answers 40000 served answer in
      (asked.outward ≡ bytes ∷ quiet.outward)
      × (served.served
          ≡ record { via = socket; target = server; payload = question } ∷ quiet.served)
      × (answered.homeward ≡ reply ∷ quiet.homeward)
      × ((step 1 answered.proxy (from_relay 120 reply)).1 ≡ to_game game answer ∷ [])
unfolding get
ask_and_answer_example =
    ask_and_answer no_ipv6 1 7 40000 quiet game client question answer 110 120 session_7 server
      (start-IsSound 7 40000 quiet quiet-IsStart) refl refl refl refl (λ e. absurd (omega arith))

keepalive_keeps_IsOpen_example :
    (bytes : Bytes) × let ticked = ticks 1 quiet 50 in
      let after = relays no_ipv6 ticked 100 client bytes in
      (ticked.outward ≡ bytes ∷ quiet.outward)
      × (after.served ≡ quiet.served)
      × IsOpen 7 40000 (cleanup_stale after.cache 160).0
keepalive_keeps_IsOpen_example =
    keepalive_keeps_IsOpen no_ipv6 1 7 40000 quiet 50 100 160 client
      (start-IsSound 7 40000 quiet quiet-IsStart) refl (omega arith)
