-- ===== src/Relay/Session/Race.antt =====
-- relay/src/session.rs: two registrations whose halves interleave around the await.
use plgames_booster_up.Base.{ℕ, ◌+◌, ◌≡◌, ◌≢◌, ◌<◌, Option, none, some, arith, Bytes, List, ◌>>=◌}
use plgames_booster_up.Base.Maps.{get, insert, get-insert, get-remove, length-insert_miss}
use plgames_booster_up.Net.{Ipv6Text, SocketAddr}
use plgames_booster_up.Relay.Session.{
  SessionCache, SessionInfo, UdpSocket, lookup, token_by_port, active_count, unregister,
  register_begin, register_finish, new_session,
}
use plgames_booster_up.Relay.Session.Invariant.{IsConsistent, lookup-unregister}
use plgames_booster_up.Relay.Session.Capacity.{length-unregister-le, max-unregister}

-- The arguments of one call of `register`.
pub record Registration : Type 0 where
  pub token : ℕ
  pub addr : SocketAddr
  pub ips : List Bytes
  pub ports : List ℕ
  pub socket : UdpSocket
  pub now : ℕ

-- A port that leads to a token whose session has another port breaks the invariant, and outlives
-- the session.
stray_route :
    (c : SessionCache) (info : SessionInfo) (t p q : ℕ)
    → get t c.sessions ≡ some info
    → info.forward_socket.local_port ≡ some q
    → p ≢ q
    → get p c.port_to_token ≡ some t
    → (¬ IsConsistent c)
      × (token_by_port (unregister c t) p ≡ some t)
      × (lookup (unregister c t) t ≡ none)
unfolding unregister
stray_route c info t p q found port_of differ route = (
  λ v. let (i, found_i, port_i) = v.routed p t route in ground arith,
  ground (arith, get-remove p q c.port_to_token),
  ground (arith, lookup-unregister c t t),
)

module _ (v6t : Ipv6Text) where
  abbrev finish : SessionCache → Registration → SessionCache × Option ℕ
  finish c r = register_finish v6t c r.token r.addr r.ips r.ports (some r.socket) r.now

  -- Both calls pass their test and remove old sessions, then both bind, the first one first.
  unfoldable pub register_both :
      SessionCache → Registration → Registration → Option (SessionCache × Option ℕ × Option ℕ)
  unfolding register_begin
  register_both c r s = do
    c1 ← register_begin v6t c r.token
    c2 ← register_begin v6t c1 s.token
    let first = finish c2 r
    let second = finish first.0 s
    some (second.0, first.1, second.1)

  -- With one place left, two interleaved registrations of unused tokens both succeed: the cache
  -- holds one session more than its limit.
  pub register_both_over_limit :
      (c : SessionCache) (r s : Registration) (p q : ℕ)
      → active_count c + 1 ≡ c.max_sessions
      → r.token ≢ s.token
      → lookup c r.token ≡ none
      → lookup c s.token ≡ none
      → r.socket.local_port ≡ some p
      → s.socket.local_port ≡ some q
      → (c' : SessionCache) × (register_both c r s ≡ some (c', some p, some q))
        × (active_count c' ≡ c.max_sessions + 1)
  unfolding register_both register_finish unregister
  register_both_over_limit c r s p q one_left differ no_r no_s port_r port_s =
      let new_r = new_session v6t r.token r.addr r.ips r.ports r.socket r.now in
      let new_s = new_session v6t s.token s.addr s.ips s.ports s.socket s.now in
      (
        (finish (finish c r).0 s).0,
        ground arith,
        ground (
          arith,
          length-insert_miss r.token new_r c.sessions no_r,
          get-insert s.token r.token new_r c.sessions,
          length-insert_miss s.token new_s (insert r.token new_r c.sessions),
        ),
      )

  finish_lem :
      (c : SessionCache) (r : Registration) (p : ℕ)
      → r.socket.local_port ≡ some p
      → let c' = (finish c r).0 in
        (get r.token c'.sessions
          ≡ some (new_session v6t r.token r.addr r.ips r.ports r.socket r.now))
        × (c'.port_to_token ≡ insert p r.token c.port_to_token)
        × ((finish c r).1 ≡ some p)
        × (c'.max_sessions ≡ c.max_sessions)
  unfolding register_finish
  finish_lem c r p h = ground (
    arith,
    get-insert r.token r.token (new_session v6t r.token r.addr r.ips r.ports r.socket r.now)
        c.sessions,
  )

  register_both_lem :
      (c : SessionCache) (r s : Registration)
      → active_count c < c.max_sessions
      → register_both c r s ≡ (
          let c2 = unregister (unregister c r.token) s.token in
          let first = finish c2 r in
          let second = finish first.0 s in some (second.0, first.1, second.1))
  unfolding register_both
  register_both_lem c r s room =
      ground (arith, length-unregister-le c r.token, max-unregister c r.token)

  -- When two interleaved registrations below the limit are for one token and get different ports, the
  -- cache is inconsistent: the first port still leads to the token, whose session has the second
  -- socket, and it still does when the token has been unregistered.
  pub register_both_same_token :
      (c : SessionCache) (r s : Registration) (p q : ℕ)
      → active_count c < c.max_sessions
      → r.token ≡ s.token
      → p ≢ q
      → r.socket.local_port ≡ some p
      → s.socket.local_port ≡ some q
      → (c' : SessionCache) × (register_both c r s ≡ some (c', some p, some q))
        × (token_by_port c' p ≡ some s.token)
        × (¬ IsConsistent c')
        × (token_by_port (unregister c' s.token) p ≡ some s.token)
        × (lookup (unregister c' s.token) s.token ≡ none)
  register_both_same_token c r s p q room same differ port_r port_s =
      let c2 = unregister (unregister c r.token) s.token in
      let first = (finish c2 r).0 in
      let c' = (finish first s).0 in
      let (found_r, ports_r, res_r, _) = finish_lem c2 r p port_r in
      let (found, ports, res, _) = finish_lem first s q port_s in
      let route : get p c'.port_to_token ≡ some s.token = ground (
        arith,
        ports,
        ports_r,
        get-insert p q s.token first.port_to_token,
        get-insert p p r.token c2.port_to_token,
      ) in
      let new_s = new_session v6t s.token s.addr s.ips s.ports s.socket s.now in
      let (broken, stays, gone) =
        stray_route c' new_s s.token p q found (unfold new_session in port_s) differ route in
      (c', cc (register_both_lem c r s room, res_r, res), route, broken, stays, gone)
