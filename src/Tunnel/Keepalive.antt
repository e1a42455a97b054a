-- ===== src/Tunnel/Keepalive.antt =====
-- client/src-tauri/src/udp_proxy.rs and relay/src: the client's keepalives keep its session at the
-- relay.
use plgames_booster_up.Base.{
  ℕ, ◌≡◌, ◌≤◌, ◌+◌, ◌++◌, refl, sym, subst, ap, Bytes, true, false, none, some, [], ◌∷◌, arith,
  Option-cases, inl, inr,
}
use plgames_booster_up.Net.{Ipv6Text, SocketAddr}
use plgames_booster_up.Relay.Protocol
use plgames_booster_up.Relay.Protocol.{has_flag, flag_keepalive}
use plgames_booster_up.Relay.Session.Invariant.{IsConsistent}
use plgames_booster_up.Relay.Session.{SessionCache, SessionInfo, lookup, cleanup_stale}
use plgames_booster_up.Relay.Session.Cleanup.{lookup-cleanup_stale}
use plgames_booster_up.Relay.Forwarder.{client_packet}
use plgames_booster_up.Relay.Forwarder.Client.{client_packet_forwards}
use plgames_booster_up.Relay.System.Keepalive.{packet_keeps_session}
use plgames_booster_up.Client.Protocol.{keepalive, encode}
use plgames_booster_up.Client.Protocol.Interop.{to_relay, relay_parse-encode}
use plgames_booster_up.Client.Proxy.{UdpProxy, tick, step, keepalive_tick}
use plgames_booster_up.Tunnel.{World, IsOpen, ticks, relays, relayed, listed}
use plgames_booster_up.Tunnel.Invariant.{IsSound, ticks-IsSound, relays-IsSound}

ticked_bytes :
    (second : ℕ) (p : UdpProxy) (now : ℕ)
    → p.running ≡ true
    → p.backup ≡ none
    → relayed (step second p (tick now)).1 ≡ encode (keepalive p.session_token p.seq_counter) ∷ []
unfolding step keepalive_tick
ticked_bytes second p now on no_backup = rw on (rw no_backup refl)

-- A keepalive is not forwarded.
not_forwarded :
    (v6t : Ipv6Text) (w : World) (heard : ℕ) (from : SocketAddr) (token seq : ℕ) (bytes : Bytes)
    → Protocol.parse bytes ≡ some (to_relay (keepalive token seq))
    → (client_packet v6t w.cache heard from bytes).1 ≡ none
unfolding keepalive
not_forwarded v6t w heard from token seq bytes parsed =
    elim (Option-cases (client_packet v6t w.cache heard from bytes).1) [
      | inl nothing ↦ nothing
      | inr (d, sent) ↦
          let (packet, info, read, _, alive, _, _, _, _) =
            client_packet_forwards v6t w.cache heard from bytes d sent in
          let same : packet ≡ to_relay (keepalive token seq) = ground arith in
          let plain : has_flag (to_relay (keepalive token seq)).flags flag_keepalive ≡ false =
            subst (λ (q : Protocol.PlgPacket). has_flag q.flags flag_keepalive ≡ false) same
              alive in
          absurd cc
    ]

-- A session that a cleanup leaves is as it was.
cleanup_stale-IsOpen :
    (token port later : ℕ) (c : SessionCache) (last : SessionInfo)
    → IsConsistent c
    → IsOpen token port c
    → lookup (cleanup_stale c later).0 token ≡ some last
    → IsOpen token port (cleanup_stale c later).0
cleanup_stale-IsOpen token port later c last v o kept =
    let found = o.found in
    let port_of = o.port_of in
    record {
      info = last;
      found = kept;
      port_of = ground (arith, lookup-cleanup_stale c later token v);
    }

-- In a sound world (the session is open on its socket in a consistent cache, the proxy has its
-- 32-bit token, a 32-bit counter and no backup relay, and what is under way is what the two ends
-- sent), each tick of a running proxy's keepalive timer sends one datagram. When the relay hears
-- it, from whatever address, it forwards nothing, and a cleanup that runs at most the timeout
-- later leaves the session registered on its socket.
pub keepalive_keeps_IsOpen :
    (v6t : Ipv6Text) (second token port : ℕ) (w : World) (now heard later : ℕ) (from : SocketAddr)
    → IsSound token port w
    → w.proxy.running ≡ true
    → later ≤ heard + w.cache.session_timeout
    → (bytes : Bytes) × let ticked = ticks second w now in
        let after = relays v6t ticked heard from bytes in
        (ticked.outward ≡ bytes ∷ w.outward)
        × (after.served ≡ w.served)
        × IsOpen token port (cleanup_stale after.cache later).0
unfolding keepalive
keepalive_keeps_IsOpen v6t second token port w now heard later from v on soon =
    let p = w.proxy in
    let bytes = encode (keepalive p.session_token p.seq_counter) in
    let ticked = ticks second w now in
    let v1 = ticks-IsSound second token port w now v in
    let v2 = relays-IsSound v6t token port ticked heard from bytes v1 in
    let packet = to_relay (keepalive token p.seq_counter) in
    let parsed : Protocol.parse bytes ≡ some packet =
      subst (λ t. Protocol.parse (encode (keepalive t p.seq_counter)) ≡ some packet)
        (sym v.same_token) (relay_parse-encode (keepalive token p.seq_counter) v.fits v.seq_fits) in
    let (last, kept, _) =
      packet_keeps_session v6t w.cache heard later from bytes packet v.opened.info v.consistent
        parsed v.opened.found soon in
    (
      bytes,
      (
        ap (λ l. l ++ w.outward) (ticked_bytes second p now on v.no_backup),
        ap (λ o. listed o ++ w.served)
            (not_forwarded v6t w heard from token p.seq_counter bytes parsed),
        cleanup_stale-IsOpen token port later (client_packet v6t w.cache heard from bytes).0 last
            v2.consistent v2.opened kept,
      ),
    )
