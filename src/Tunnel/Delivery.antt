-- ===== src/Tunnel/Delivery.antt =====
-- client/src-tauri/src/udp_proxy.rs and relay/src/forwarder.rs: a datagram of the game and its
-- answer, when the network loses neither.
use plgames_booster_up.Base.{
  ℕ, ◌≡◌, ◌≢◌, ◌<◌, ◌^◌, ◌++◌, refl, sym, subst, ap, ◌∙◌, Bytes, Bool, true, false, none, some,
  List, [], ◌∷◌, arith, if◌then◌else◌,
}
use plgames_booster_up.Net.{Ipv6Text, SocketAddr}
use plgames_booster_up.Relay.Protocol
use plgames_booster_up.Relay.Protocol.{has_flag}
use plgames_booster_up.Relay.Session.{SessionCache, SessionInfo, lookup, token_by_port}
use plgames_booster_up.Relay.Session.Invariant.{IsConsistent}
use plgames_booster_up.Relay.Forwarder.{client_packet, game_packet, reply_packet}
use plgames_booster_up.Relay.Forwarder.Client.{client_packet_data, client_packet_entry}
use plgames_booster_up.Client.Protocol.{PlgPacket, data_packet, encode}
use plgames_booster_up.Client.Protocol.Interop.{to_relay, relay_parse-encode}
use plgames_booster_up.Client.Proxy.{
  UdpProxy, Sent, to_game, from_game, from_relay, step, elem, deliver, game_datagram,
  relay_datagram,
}
use plgames_booster_up.Client.Proxy.Dedup.{relay_datagram-deliver, parse-reply, deliver_new}
use plgames_booster_up.Tunnel.{World, IsOpen, asks, relays, answers, relayed, reply_bytes, listed}
use plgames_booster_up.Tunnel.Invariant.{IsSound, asks-IsSound, relays-IsSound}

-- What a datagram of the game does to a running proxy.
module _ (second : ℕ) (p : UdpProxy) (src : SocketAddr) (payload : Bytes) (on : p.running ≡ true)
    (no_backup : p.backup ≡ none) where
  asked_bytes :
      relayed (step second p (from_game src payload)).1
      ≡ encode (data_packet p.session_token p.seq_counter payload) ∷ []
  unfolding step game_datagram
  asked_bytes = rw on (rw no_backup refl)

  asked_proxy :
      let q = (step second p (from_game src payload)).0 in
      (q.running ≡ true) × (q.game_addr ≡ some src) × (q.seen_seqs ≡ p.seen_seqs)
  unfolding step game_datagram
  asked_proxy = ground arith

-- A first reply goes to the game.
replied_game :
    (second now : ℕ) (p : UdpProxy) (token : ℕ) (payload : Bytes) (src : SocketAddr)
    → token < 2 ^ 32
    → p.running ≡ true
    → p.game_addr ≡ some src
    → elem 0 p.seen_seqs ≡ false
    → (step second p (from_relay now (Protocol.serialize (reply_packet token payload)))).1
      ≡ to_game src payload ∷ []
unfolding step deliver
replied_game second now p token payload src fits on known unseen =
    let bytes = Protocol.serialize (reply_packet token payload) in
    let packet : PlgPacket = record {
      session_id = token;
      seq_number = 0;
      flags = 0;
      path_id = 0;
      payload = payload;
    } in
    ap (λ (b : Bool). (if b then relay_datagram p now bytes else (p, [])).1) on
    ∙ ap (λ (r : UdpProxy × List Sent). r.1)
        (relay_datagram-deliver p now bytes packet (parse-reply token payload fits))
    ∙ deliver_new p packet src unseen known

-- In a consistent cache, a datagram on the socket of a session whose client is known.
replied_bytes :
    (token port : ℕ) (c : SessionCache) (info : SessionInfo) (payload : Bytes)
    → IsConsistent c
    → lookup c token ≡ some info
    → info.forward_socket.local_port ≡ some port
    → info.client_addr.port ≢ 0
    → reply_bytes (game_packet c port payload).1
      ≡ Protocol.serialize (reply_packet token payload) ∷ []
unfolding game_packet
replied_bytes token port c info payload v found port_of known =
    let (_, p, port_p, back) = v.keyed token info found in
    let routed : token_by_port c port ≡ some token = ground arith in
    rw (routed, game_packet) (rw found (ground arith))

-- Behind a client's datagram the session's client is the sender.
answered_bytes :
    (v6t : Ipv6Text) (token port now : ℕ) (c : SessionCache) (from : SocketAddr)
    (bytes answer : Bytes) (packet : Protocol.PlgPacket) (info : SessionInfo)
    → Protocol.parse bytes ≡ some packet
    → lookup c packet.session_id ≡ some info
    → packet.session_id ≡ token
    → from.port ≢ 0
    → IsConsistent (client_packet v6t c now from bytes).0
    → IsOpen token port (client_packet v6t c now from bytes).0
    → reply_bytes (game_packet (client_packet v6t c now from bytes).0 port answer).1
      ≡ Protocol.serialize (reply_packet token answer) ∷ []
answered_bytes v6t token port now c from bytes answer packet info parsed found same known v o =
    let (last, at, how) = client_packet_entry v6t c now from bytes packet info parsed found in
    let opened = o.info in
    let opened_found = o.found in
    let port_of = o.port_of in
    let known_last : last.client_addr ≡ from = ground arith in
    replied_bytes token port (client_packet v6t c now from bytes).0 last answer v
      (subst (λ t. lookup (client_packet v6t c now from bytes).0 t ≡ some last) same at)
      (ground arith) (ground arith)

-- One question and its answer, if the network loses neither: in a sound world (the session is
-- open on its socket in a consistent cache, the proxy has its 32-bit token, a 32-bit counter and
-- no backup relay, and what is under way is what the two ends sent), let a session have a
-- target, its proxy run and not have seen number 0, and the client's datagrams come to the relay
-- from a port other than 0. Then the relay sends the game's payload to the session's target on
-- the session's socket, and the proxy hands the answer that arrives on that socket to the
-- address from which the game's datagram came.
pub ask_and_answer :
    (v6t : Ipv6Text) (second token port : ℕ) (w : World) (src from : SocketAddr)
    (payload answer : Bytes) (now later : ℕ) (info : SessionInfo) (target : SocketAddr)
    → IsSound token port w
    → w.proxy.running ≡ true
    → elem 0 w.proxy.seen_seqs ≡ false
    → lookup w.cache token ≡ some info
    → info.forward_target ≡ some target
    → from.port ≢ 0
    → (bytes reply : Bytes) × let asked = asks second w src payload in
        let served = relays v6t asked now from bytes in
        let answered = answers port served answer in
        (asked.outward ≡ bytes ∷ w.outward)
        × (served.served
            ≡ record { via = info.forward_socket; target = target; payload = payload } ∷ w.served)
        × (answered.homeward ≡ reply ∷ w.homeward)
        × ((step second answered.proxy (from_relay later reply)).1 ≡ to_game src answer ∷ [])
unfolding data_packet
ask_and_answer v6t second token port w src from payload answer now later info target v on unseen
      found is_set known =
    let p = w.proxy in
    let bytes = encode (data_packet p.session_token p.seq_counter payload) in
    let asked = asks second w src payload in
    let v1 = asks-IsSound second token port w src payload v in
    let v2 = relays-IsSound v6t token port asked now from bytes v1 in
    let (still_on, addr, same_seen) = asked_proxy second p src payload on v.no_backup in
    let packet = to_relay (data_packet token p.seq_counter payload) in
    let parsed : Protocol.parse bytes ≡ some packet =
      subst (λ t. Protocol.parse (encode (data_packet t p.seq_counter payload)) ≡ some packet)
        (sym v.same_token)
        (relay_parse-encode (data_packet token p.seq_counter payload) v.fits v.seq_fits) in
    (
      bytes,
      Protocol.serialize (reply_packet token answer),
      (
        ap (λ l. l ++ w.outward) (asked_bytes second p src payload on v.no_backup),
        ap (λ o. listed o ++ w.served)
            (client_packet_data v6t w.cache now from bytes packet info target parsed found refl refl
              is_set),
        ap (λ l. l ++ w.homeward)
            (answered_bytes v6t token port now w.cache from bytes answer packet info parsed found
              refl known v2.consistent v2.opened),
        replied_game second later asked.proxy token answer src v.fits still_on addr
            (ap (elem 0) same_seen ∙ unseen),
      ),
    )
