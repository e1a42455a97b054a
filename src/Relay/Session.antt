-- ===== src/Relay/Session.antt =====
-- relay/src/session.rs: the session cache. Time is an argument; so is what the operating system
-- answers when a socket is bound. `register` awaits that answer, so it has two halves.
pub mod Invariant
pub mod Capacity
pub mod Cleanup
pub mod Race
use plgames_booster_up.Base.{
  ℕ, ◌-◌, Bytes, Bool, Option, none, some, List, [], ◌∷◌, ltb, leb, if◌then◌else◌, ◌>>=◌, length,
  first,
}
use mathlib.Core.Option
use plgames_booster_up.Base.Maps.{get, remove, insert, modify}
use plgames_booster_up.Net.{Ipv6Text, IpAddr, SocketAddr, parse_ip}
use plgames_booster_up.Relay.Metrics.{Metrics}

-- A bound socket, known by the answer of `local_addr`: its port, or an error.
pub record UdpSocket : Type 0 where
  pub local_port : Option ℕ

pub record SessionInfo : Type 0 where
  pub session_token : ℕ
  pub client_addr : SocketAddr
  pub game_server_ips : List Bytes
  pub game_ports : List ℕ
  pub forward_target : Option SocketAddr
  pub forward_socket : UdpSocket
  pub last_seen : ℕ
  pub packets_in : ℕ
  pub packets_out : ℕ
  pub bytes_in : ℕ
  pub bytes_out : ℕ

pub record SessionCache : Type 0 where
  pub sessions : List (ℕ × SessionInfo)
  pub port_to_token : List (ℕ × ℕ)
  pub max_sessions : ℕ
  pub session_timeout : ℕ
  pub metrics : Metrics

unfoldable pub new : ℕ → ℕ → Metrics → SessionCache
new max_sessions session_timeout metrics = record {
  sessions = [];
  port_to_token = [];
  max_sessions = max_sessions;
  session_timeout = session_timeout;
  metrics = metrics;
}

abbrev pub active_count : SessionCache → ℕ
active_count c = length c.sessions

abbrev pub set_gauge : SessionCache → SessionCache
set_gauge c = record c { metrics = record (c.metrics) { active_sessions = active_count c } }

abbrev forget_port : Option ℕ → List (ℕ × ℕ) → List (ℕ × ℕ)
forget_port none ports = ports
forget_port (some p) ports = remove p ports

unfoldable pub unregister : SessionCache → ℕ → SessionCache
unregister c token = elim (get token c.sessions) [
  | none ↦ c
  | some info ↦ set_gauge (record c {
    sessions = remove token c.sessions;
    port_to_token = forget_port info.forward_socket.local_port c.port_to_token;
  })
]

abbrev pub lookup : SessionCache → ℕ → Option SessionInfo
lookup c token = get token c.sessions

abbrev pub token_by_port : SessionCache → ℕ → Option ℕ
token_by_port c port = get port c.port_to_token

-- A write through the reference of `get_mut`.
abbrev pub update_session : SessionCache → ℕ → (SessionInfo → SessionInfo) → SessionCache
update_session c token f = record c { sessions = modify token f c.sessions }

unfoldable pub update_client_addr : SessionCache → ℕ → SocketAddr → SessionCache
update_client_addr c token addr =
    update_session c token (λ info. record info { client_addr = addr })

unfoldable pub set_forward_target : SessionCache → ℕ → SocketAddr → SessionCache
set_forward_target c token target =
    update_session c token (λ info. record info { forward_target = some target })

unfoldable pub is_stale : ℕ → ℕ → SessionInfo → Bool
is_stale now timeout info = ltb timeout (now - info.last_seen)

unfoldable pub stale_tokens : ℕ → ℕ → List (ℕ × SessionInfo) → List ℕ
unfolding is_stale
stale_tokens now timeout [] = []
stale_tokens now timeout ((k, info) ∷ m) =
    let rest = stale_tokens now timeout m in
    if is_stale now timeout info then info.session_token ∷ rest else rest

unfoldable pub unregister_all : SessionCache → List ℕ → SessionCache
unregister_all c [] = c
unregister_all c (t ∷ ts) = unregister_all (unregister c t) ts

-- The new cache and the number of sessions that were removed.
unfoldable pub cleanup_stale : SessionCache → ℕ → SessionCache × ℕ
unfolding stale_tokens unregister_all
cleanup_stale c now =
    let tokens = stale_tokens now c.session_timeout c.sessions in
    (unregister_all c tokens, length tokens)

module _ (v6t : Ipv6Text) where
  unfoldable pub default_forward_target : List Bytes → List ℕ → Option SocketAddr
  default_forward_target ips ports = do
    ip ← first ips
    port ← first ports
    addr ← parse_ip v6t ip
    some (record { ip = addr; port = port })

  -- Up to the await: the test of the limit, and the removal of a session with the same token.
  unfoldable pub register_begin : SessionCache → ℕ → Option SessionCache
  register_begin c token =
      if leb c.max_sessions (active_count c) then none else some (unregister c token)

  unfoldable pub new_session : ℕ → SocketAddr → List Bytes → List ℕ → UdpSocket → ℕ → SessionInfo
  unfolding default_forward_target
  new_session token addr ips ports socket now = record {
    session_token = token;
    client_addr = addr;
    game_server_ips = ips;
    game_ports = ports;
    forward_target = default_forward_target ips ports;
    forward_socket = socket;
    last_seen = now;
    packets_in = 0;
    packets_out = 0;
    bytes_in = 0;
    bytes_out = 0;
  }

  -- From the await on: `none` is a failed bind, as is a socket with no local address.
  unfoldable pub register_finish :
      SessionCache
      → ℕ
      → SocketAddr
      → List Bytes
      → List ℕ
      → Option UdpSocket
      → ℕ
      → SessionCache × Option ℕ
  unfolding new_session
  register_finish c token addr ips ports none now = (c, none)
  register_finish c token addr ips ports (some socket) now = elim socket.local_port [
    | none ↦ (c, none)
    | some port ↦ (
      set_gauge (record c {
        sessions = insert token (new_session token addr ips ports socket now) c.sessions;
        port_to_token = insert port token c.port_to_token;
      }),
      some port,
    )
  ]

  unfoldable pub register :
      SessionCache
      → ℕ
      → SocketAddr
      → List Bytes
      → List ℕ
      → Option UdpSocket
      → ℕ
      → SessionCache × Option ℕ
  unfolding register_begin register_finish
  register c token addr ips ports bound now = elim (register_begin c token) [
    | none ↦ (c, none)
    | some c' ↦ register_finish c' token addr ips ports bound now
  ]
