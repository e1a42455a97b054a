-- ===== src/Relay/System/Keepalive.antt =====
-- relay/src/forwarder.rs and session.rs: packets of a client keep its session alive.
use plgames_booster_up.Base.{ℕ, ◌≡◌, ◌≤◌, ◌+◌, Bytes, some, arith}
use plgames_booster_up.Net.{Ipv6Text, SocketAddr}
use plgames_booster_up.Relay.Protocol.{PlgPacket, parse}
use plgames_booster_up.Relay.Session.{SessionCache, SessionInfo, lookup, cleanup_stale}
use plgames_booster_up.Relay.Session.Invariant.{IsConsistent}
use plgames_booster_up.Relay.Session.Cleanup.{lookup-cleanup_stale}
use plgames_booster_up.Relay.Forwarder.{client_packet}
use plgames_booster_up.Relay.Forwarder.Client.{client_packet_entry}
use plgames_booster_up.Relay.Forwarder.Frame.{client_packet-SameShape, SameShape-IsConsistent}

-- In a consistent cache, a session from which any packet arrived at time `now`, a keepalive included, is still there, with
-- the sender's address, behind a cleanup that runs at most the timeout later.
pub packet_keeps_session :
    (v6t : Ipv6Text) (c : SessionCache) (now later : ℕ) (from : SocketAddr) (bytes : Bytes)
    (packet : PlgPacket) (info : SessionInfo)
    → IsConsistent c
    → parse bytes ≡ some packet
    → lookup c packet.session_id ≡ some info
    → later ≤ now + c.session_timeout
    → (last : SessionInfo) × (lookup
          (cleanup_stale (client_packet v6t c now from bytes).0 later).0
          packet.session_id
        ≡ some last)
      × (last.client_addr ≡ from)
packet_keeps_session v6t c now later from bytes packet info v parsed found soon =
    let c' = (client_packet v6t c now from bytes).0 in
    let (last, at, how) = client_packet_entry v6t c now from bytes packet info parsed found in
    let v' = SameShape-IsConsistent (client_packet-SameShape v6t c now from bytes) v in
    let seen : last.last_seen ≡ now = ground arith in
    (
      last,
      ground (
        arith,
        lookup-cleanup_stale c' later packet.session_id v',
        (client_packet-SameShape v6t c now from bytes).timeout,
      ),
      ground arith,
    )
