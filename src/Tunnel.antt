-- ===== src/Tunnel.antt =====
-- The way of a game's datagrams through client/src-tauri/src/udp_proxy.rs and relay/src/forwarder.rs
-- and back, over a network that may lose, repeat and reorder what it carries. The world holds a
-- proxy without a backup relay, the relay's session cache and a record of what was sent. A datagram
-- arrives when it is one of those sent so far: one that never arrives is lost.
pub mod Channel
pub mod Invariant
pub mod Refine
pub mod Answers
pub mod Delivery
pub mod Keepalive
mod Examples
use plgames_booster_up.Base.{
  ℕ, ◌≡◌, ◌≢◌, ◌++◌, Bytes, Bool, false, Option, none, some, List, [], ◌∷◌, ◌==◌, if◌then◌else◌,
}
use plgames_booster_up.Net.{Ipv6Text, SocketAddr}
use plgames_booster_up.Relay.Protocol
use plgames_booster_up.Relay.Session.{SessionCache, SessionInfo, UdpSocket, cleanup_stale, lookup}
use plgames_booster_up.Relay.Forwarder
use plgames_booster_up.Relay.Forwarder.{
  ToGame, ToClient, Response, exits, skips, replies, client_packet, after_send, game_packet,
  after_reply,
}
use plgames_booster_up.Relay.Api.{Request, handle}
use plgames_booster_up.Relay.System.{IsFreshBind}
use plgames_booster_up.Client.Proxy
use plgames_booster_up.Client.Proxy.{
  UdpProxy, Sent, to_relay, to_backup, to_game, Input, from_game, from_relay, tick,
}
use mathlib.Core.List.{Memᴰ}

pub record World : Type 0 where
  pub proxy : UdpProxy
  pub cache : SessionCache
  -- The payloads that the game has sent.
  pub asked : List Bytes
  -- What the proxy has sent to the relay.
  pub outward : List Bytes
  -- What the relay has sent to game servers, on the sockets of all sessions.
  pub served : List ToGame
  -- The payloads that have arrived on the session's socket at the relay.
  pub answered : List Bytes
  -- What the relay has sent to the session's client.
  pub homeward : List Bytes
  -- The payloads that the proxy has handed to the game.
  pub shown : List Bytes

-- The datagrams for the relay, and the payloads for the game.
abbrev pub relayed : List Sent → List Bytes
relayed [] = []
relayed (to_relay addr bytes ∷ out) = bytes ∷ relayed out
relayed (to_backup addr bytes ∷ out) = relayed out
relayed (to_game addr payload ∷ out) = relayed out

abbrev pub handed : List Sent → List Bytes
handed [] = []
handed (to_relay addr bytes ∷ out) = handed out
handed (to_backup addr bytes ∷ out) = handed out
handed (to_game addr payload ∷ out) = payload ∷ handed out

abbrev pub listed : Option ToGame → List ToGame
listed none = []
listed (some d) = d ∷ []

abbrev pub reply_bytes : Response → List Bytes
reply_bytes exits = []
reply_bytes skips = []
reply_bytes (replies d) = d.bytes ∷ []

-- The session has this token, and the relay's socket for it this port.
pub record IsOpen (token port : ℕ) (c : SessionCache) : Type 0 where
  pub info : SessionInfo
  pub found : lookup c token ≡ some info
  pub port_of : info.forward_socket.local_port ≡ some port

abbrev pub asks : ℕ → World → SocketAddr → Bytes → World
asks second w src payload =
    let (p, out) = Proxy.step second w.proxy (from_game src payload) in
    record w { proxy = p; asked = payload ∷ w.asked; outward = relayed out ++ w.outward }

abbrev pub ticks : ℕ → World → ℕ → World
ticks second w now =
    let (p, out) = Proxy.step second w.proxy (tick now) in
    record w { proxy = p; outward = relayed out ++ w.outward }

abbrev pub relays : Ipv6Text → World → ℕ → SocketAddr → Bytes → World
relays v6t w now from bytes =
    let (c, out) = client_packet v6t w.cache now from bytes in
    record w { cache = c; served = listed out ++ w.served }

abbrev pub answers : ℕ → World → Bytes → World
answers port w payload =
    let (c, out) = game_packet w.cache port payload in
    record w {
      cache = c;
      answered = payload ∷ w.answered;
      homeward = reply_bytes out ++ w.homeward;
    }

abbrev pub hands : ℕ → World → ℕ → Bytes → World
hands second w now bytes =
    let (p, out) = Proxy.step second w.proxy (from_relay now bytes) in
    record w { proxy = p; shown = handed out ++ w.shown }

module _ (v6t : Ipv6Text) (api_key : Bytes) (start_time : ℕ) where
  -- What else the relay does: the parts behind the awaits, requests to the management interface and
  -- the cleanup.
  pub data Housekeeping (c : SessionCache) : SessionCache → Type 0 where
    send_result : (answer : Option ℕ) → Housekeeping c (after_send c answer)
    reply_sent : (reply : ToClient) → Housekeeping c (after_reply c reply)
    api_request :
        (header : Option Bytes) (request : Request) (bound : Option UdpSocket) (now : ℕ)
        → IsFreshBind v6t api_key start_time c bound
        → Housekeeping c (handle v6t api_key start_time c header request bound now).cache
    cleanup : (now : ℕ) → Housekeeping c (cleanup_stale c now).0

module _ (v6t : Ipv6Text) (api_key : Bytes) (start_time second token port : ℕ) where
  pub data Step (w : World) : World → Type 0 where
    game_asks : (src : SocketAddr) (payload : Bytes) → Step w (asks second w src payload)
    timer_ticks : (now : ℕ) → Step w (ticks second w now)
    proxy_stops : Step w (record w { proxy = Proxy.stop w.proxy })
    -- From whatever address the client's datagram seems to come.
    client_heard :
        (now : ℕ) (from : SocketAddr) (bytes : Bytes)
        → Memᴰ bytes w.outward
        → Step w (relays v6t w now from bytes)
    -- Another client's datagram does not carry this session's token.
    other_heard :
        (now : ℕ) (from : SocketAddr) (bytes : Bytes)
        → ((packet : Protocol.PlgPacket)
            → Protocol.parse bytes ≡ some packet
            → packet.session_id ≢ token)
        → Step w (relays v6t w now from bytes)
    server_answers : (payload : Bytes) → Step w (answers port w payload)
    -- A datagram on another session's socket, whose answer goes to another client.
    other_answers :
        (other : ℕ) (payload : Bytes)
        → other ≢ port
        → Step w (record w { cache = (game_packet w.cache other payload).0 })
    relay_heard :
        (now : ℕ) (bytes : Bytes) → Memᴰ bytes w.homeward → Step w (hands second w now bytes)
    -- While the session stays registered on its socket.
    relay_works :
        (d : SessionCache)
        → Housekeeping v6t api_key start_time w.cache d
        → IsOpen token port d
        → Step w (record w { cache = d })

  pub data Reach (w : World) : World → Type 0 where
    here : Reach w w
    next : {u v : World} → Reach w u → Step u v → Reach w v
