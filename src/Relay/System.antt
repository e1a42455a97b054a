-- ===== src/Relay/System.antt =====
-- relay/src/main.rs: the tasks of the server as steps on the session cache. A step is one round of
-- a packet loop up to its await, the part behind the await, a request to the management interface,
-- or the periodic cleanup. A registration is one step of `Step`, and two of `Overlap`.
pub mod Invariant
pub mod Targets
pub mod Keepalive
pub mod Keyed
pub mod Overlapping
pub mod Isolation
use plgames_booster_up.Base.{
  ℕ, ◌≡◌, refl, ◌≤◌, inl, inr, Bytes, Option, none, some, List, [], ◌∷◌, arith, Bool-cases,
}
use plgames_booster_up.Base.Maps.{get}
use plgames_booster_up.Net.{Ipv6Text, SocketAddr}
use plgames_booster_up.Relay.Metrics.{new_metrics}
use plgames_booster_up.Relay.Session.{
  SessionCache, SessionInfo, UdpSocket, new, register, register_begin, register_finish, unregister,
  unregister_all, stale_tokens, cleanup_stale, active_count,
}
use plgames_booster_up.Relay.Forwarder.{
  client_packet, after_send, game_packet, after_reply, ToClient,
}
use plgames_booster_up.Relay.Session.Invariant.{IsFreshPort}
use plgames_booster_up.Relay.Api.{
  Request, health, register_session, unregister_session, handle, authorized, parse_ports,
  placeholder,
}

module _ (v6t : Ipv6Text) (api_key : Bytes) (start_time : ℕ) where
  -- A port that the operating system hands out is held by no session.
  abbrev pub IsFreshBind : SessionCache → Option UdpSocket → Type 0
  IsFreshBind c bound =
      (socket : UdpSocket) (port : ℕ)
      → bound ≡ some socket
      → socket.local_port ≡ some port
      → IsFreshPort c port

  pub data Step (c : SessionCache) : SessionCache → Type 0 where
    client_datagram :
        (now : ℕ) (from : SocketAddr) (bytes : Bytes)
        → Step c (client_packet v6t c now from bytes).0
    send_result : (answer : Option ℕ) → Step c (after_send c answer)
    game_datagram : (port : ℕ) (payload : Bytes) → Step c (game_packet c port payload).0
    reply_sent : (reply : ToClient) → Step c (after_reply c reply)
    api_request :
        (header : Option Bytes) (request : Request) (bound : Option UdpSocket) (now : ℕ)
        → IsFreshBind c bound
        → Step c (handle v6t api_key start_time c header request bound now).cache
    cleanup : (now : ℕ) → Step c (cleanup_stale c now).0

  pub data Reach (c : SessionCache) : SessionCache → Type 0 where
    here : Reach c c
    next : {d e : SessionCache} → Reach c d → Step d e → Reach c e

  -- A registration may be cut at its await, so that every other step, halves of other registrations
  -- included, can stand between its two parts.
  pub data Overlap (c : SessionCache) : SessionCache → Type 0 where
    whole : {d : SessionCache} → Step c d → Overlap c d
    -- A registration up to its await, and behind it.
    begins : (token : ℕ) {d : SessionCache} → register_begin v6t c token ≡ some d → Overlap c d
    finishes :
        (token : ℕ) (addr : SocketAddr) (ips : List Bytes) (ports : List ℕ)
        (bound : Option UdpSocket) (now : ℕ)
        → IsFreshBind c bound
        → Overlap c (register_finish v6t c token addr ips ports bound now).0

  pub data Overlaps (c : SessionCache) : SessionCache → Type 0 where
    stays : Overlaps c c
    later : {d e : SessionCache} → Overlaps c d → Overlap d e → Overlaps c e
