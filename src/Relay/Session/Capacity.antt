-- ===== src/Relay/Session/Capacity.antt =====
-- relay/src/session.rs: what `register` returns and how many sessions there can be.
use plgames_booster_up.Base.{
  ℕ, ◌≡◌, ◌≤◌, ◌<◌, ◌⊎◌, inl, inr, Option, none, some, arith, length, Bytes, List, leb, ◌==◌,
  if◌then◌else◌, Option-cases, Bool-cases,
}
use plgames_booster_up.Base.Maps.{get-insert, length-remove-le, length-insert-le}
use plgames_booster_up.Net.{Ipv6Text, SocketAddr}
use plgames_booster_up.Relay.Session.{
  SessionInfo, SessionCache, UdpSocket, lookup, token_by_port, active_count, unregister, register,
  register_begin, register_finish, new_session,
}
use plgames_booster_up.Relay.Session.Invariant.{lookup-unregister}

pub length-unregister-le :
    (c : SessionCache) (token : ℕ) → active_count (unregister c token) ≤ active_count c
unfolding unregister
length-unregister-le c token = ground (arith, length-remove-le token c.sessions)

pub max-unregister :
    (c : SessionCache) (token : ℕ) → (unregister c token).max_sessions ≡ c.max_sessions
unfolding unregister
max-unregister c token = ground arith

-- A registration that runs alone never takes the cache over its limit, and leaves the limit alone.
pub register_bounded :
    (v6t : Ipv6Text) (c : SessionCache) (token : ℕ) (addr : SocketAddr) (ips : List Bytes)
    (ports : List ℕ) (bound : Option UdpSocket) (now : ℕ)
    → active_count c ≤ c.max_sessions
    → let c' = (register v6t c token addr ips ports bound now).0 in
      (active_count c' ≤ c'.max_sessions) × (c'.max_sessions ≡ c.max_sessions)
unfolding register register_begin register_finish
register_bounded v6t c token addr ips ports none now h =
    ground (arith, length-unregister-le c token, max-unregister c token)
register_bounded v6t c token addr ips ports (some socket) now h = ground (
  arith,
  length-unregister-le c token,
  max-unregister c token,
  length-insert-le token (new_session v6t token addr ips ports socket now)
      (unregister c token).sessions,
)

-- At the limit a registration is refused and changes nothing, also for a token that is in use.
pub register_full :
    (v6t : Ipv6Text) (c : SessionCache) (token : ℕ) (addr : SocketAddr) (ips : List Bytes)
    (ports : List ℕ) (bound : Option UdpSocket) (now : ℕ)
    → c.max_sessions ≤ active_count c
    → register v6t c token addr ips ports bound now ≡ (c, none)
unfolding register register_begin
register_full v6t c token addr ips ports bound now h = ground arith

-- Below the limit, a failed bind returns nothing and has removed the token's old session, and
-- only that.
pub register_bind_failed :
    (v6t : Ipv6Text) (c : SessionCache) (token : ℕ) (addr : SocketAddr) (ips : List Bytes)
    (ports : List ℕ) (now t : ℕ)
    → active_count c < c.max_sessions
    → let r = register v6t c token addr ips ports none now in
      (r.1 ≡ none) × (lookup r.0 t ≡ (if token == t then none else lookup c t))
unfolding register register_begin
register_bind_failed v6t c token addr ips ports now t h =
    ground (arith, lookup-unregister c token t)

-- Below the limit and with a bound port, the port is returned and leads to the token; the token's
-- session is new, with empty counters and the caller's address, and no other session changes.
pub register_success :
    (v6t : Ipv6Text) (c : SessionCache) (token : ℕ) (addr : SocketAddr) (ips : List Bytes)
    (ports : List ℕ) (socket : UdpSocket) (port now t : ℕ)
    → active_count c < c.max_sessions
    → socket.local_port ≡ some port
    → let r = register v6t c token addr ips ports (some socket) now in
      (r.1 ≡ some port)
      × (token_by_port r.0 port ≡ some token)
      × (lookup r.0 t ≡ (
          if token == t
          then some (new_session v6t token addr ips ports socket now)
          else lookup c t))
unfolding register register_begin register_finish
register_success v6t c token addr ips ports socket port now t h e = ground (
  arith,
  lookup-unregister c token t,
  get-insert t token (new_session v6t token addr ips ports socket now)
      (unregister c token).sessions,
  get-insert port port token (unregister c token).port_to_token,
)

-- A session found behind a registration was there before, or is the new one.
pub lookup-register_cases :
    (v6t : Ipv6Text) (c : SessionCache) (token : ℕ) (addr : SocketAddr) (ips : List Bytes)
    (ports : List ℕ) (bound : Option UdpSocket) (now t : ℕ) (info : SessionInfo)
    → lookup (register v6t c token addr ips ports bound now).0 t ≡ some info
    → (lookup c t ≡ some info)
      ⊎ ((socket : UdpSocket) × (info ≡ new_session v6t token addr ips ports socket now))
unfolding register register_begin register_finish
lookup-register_cases v6t c token addr ips ports none now t info found =
    inl (ground (arith, lookup-unregister c token t))
lookup-register_cases v6t c token addr ips ports (some socket) now t info found =
    let fresh = new_session v6t token addr ips ports socket now in
    elim (Bool-cases (leb c.max_sessions (length c.sessions))) [
      | inl full ↦ inl (ground arith)
      | inr room ↦ elim (Option-cases socket.local_port) [
        | inl no_port ↦ inl (ground (arith, lookup-unregister c token t))
        | inr (port, port_of) ↦ elim (Bool-cases (token == t)) [
          | inl same ↦
              inr (socket, ground (arith, get-insert t token fresh (unregister c token).sessions))
          | inr other ↦ inl (
              ground (
                arith,
                get-insert t token fresh (unregister c token).sessions,
                lookup-unregister c token t,
              ))
        ]
      ]
    ]
