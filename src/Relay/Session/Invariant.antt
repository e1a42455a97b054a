-- ===== src/Relay/Session/Invariant.antt =====
-- relay/src/session.rs: the two maps of the cache stay inverse to one another.
use plgames_booster_up.Base.{
  ℕ, ◌≡◌, refl, ◌≢◌, inl, inr, Option, none, some, arith, length, ◌==◌, Bytes, List, [], ◌∷◌,
  if◌then◌else◌, Option-cases, Bool-cases, leb,
}
use plgames_booster_up.Base.Maps.{
  get, remove, insert, Unique, get-remove, get-insert, Unique-remove, Unique-insert,
}
use plgames_booster_up.Net.{Ipv6Text, SocketAddr}
use plgames_booster_up.Relay.Session.{
  SessionInfo, SessionCache, UdpSocket, unregister, unregister_all, cleanup_stale, stale_tokens,
  register, register_finish, register_begin, new_session,
}

-- Each session is stored under its own token, its socket has a port, and that port leads back to
-- the token; each port leads to a session with that port; the gauge counts the sessions.
pub record IsConsistent (c : SessionCache) : Type 0 where
  pub tokens_unique : Unique c.sessions
  pub ports_unique : Unique c.port_to_token
  pub keyed :
      (t : ℕ) (info : SessionInfo)
      → get t c.sessions ≡ some info
      → (info.session_token ≡ t)
        × (p : ℕ) × (info.forward_socket.local_port ≡ some p)
        × (get p c.port_to_token ≡ some t)
  pub routed :
      (p t : ℕ)
      → get p c.port_to_token ≡ some t
      → (info : SessionInfo) × (get t c.sessions ≡ some info)
        × (info.forward_socket.local_port ≡ some p)
  pub counted : c.metrics.active_sessions ≡ length c.sessions

-- What `unregister` does to the fields when the token is in use.
module _ (c : SessionCache) (token p : ℕ) (info : SessionInfo) (v : IsConsistent c)
    (found : get token c.sessions ≡ some info) (port_of : info.forward_socket.local_port ≡ some p)
    (leads_back : get p c.port_to_token ≡ some token) where
  keyed-remove :
      (t : ℕ) (i : SessionInfo)
      → get t (remove token c.sessions) ≡ some i
      → (i.session_token ≡ t)
        × (q : ℕ) × (i.forward_socket.local_port ≡ some q)
        × (get q (remove p c.port_to_token) ≡ some t)
  keyed-remove t i h =
      let (same, q, port_i, back_i) = v.keyed t i (ground (arith, get-remove t token c.sessions)) in
      (
        same,
        q,
        port_i,
        ground (arith, get-remove q p c.port_to_token, get-remove t token c.sessions),
      )

  routed-remove :
      (q t : ℕ)
      → get q (remove p c.port_to_token) ≡ some t
      → (i : SessionInfo) × (get t (remove token c.sessions) ≡ some i)
        × (i.forward_socket.local_port ≡ some q)
  routed-remove q t h =
      let (i, found_i, port_i) = v.routed q t (ground (arith, get-remove q p c.port_to_token)) in
      (i, ground (arith, get-remove q p c.port_to_token, get-remove t token c.sessions), port_i)

  unregister_hit-IsConsistent : IsConsistent (unregister c token)
  unfolding unregister
  unregister_hit-IsConsistent =
      rw (found, unregister, port_of)
        (record {
          tokens_unique = Unique-remove token c.sessions v.tokens_unique;
          ports_unique = Unique-remove p c.port_to_token v.ports_unique;
          keyed = keyed-remove;
          routed = routed-remove;
          counted = refl;
        })

-- Removing a session, or a token that has none, keeps the cache consistent.
pub unregister-IsConsistent :
    (c : SessionCache) (token : ℕ) → IsConsistent c → IsConsistent (unregister c token)
unfolding unregister
unregister-IsConsistent c token v = elim (Option-cases (get token c.sessions)) [
  | inl missing ↦ rw (missing, unregister) v
  | inr (info, found) ↦
      let (_, p, port_of, back) = v.keyed token info found in
      unregister_hit-IsConsistent c token p info v found port_of back
]

pub unregister_all-IsConsistent :
    (c : SessionCache) (ts : List ℕ) → IsConsistent c → IsConsistent (unregister_all c ts)
unfolding unregister_all
unregister_all-IsConsistent c [] v = v
unregister_all-IsConsistent c (t ∷ ts) v =
    unregister_all-IsConsistent (unregister c t) ts (unregister-IsConsistent c t v)

-- Removing the stale sessions keeps the cache consistent.
pub cleanup_stale-IsConsistent :
    (c : SessionCache) (now : ℕ) → IsConsistent c → IsConsistent (cleanup_stale c now).0
unfolding cleanup_stale
cleanup_stale-IsConsistent c now v =
    unregister_all-IsConsistent c (stale_tokens now c.session_timeout c.sessions) v

-- The operating system hands out no port that a session's socket still holds.
abbrev pub IsFreshPort : SessionCache → ℕ → Type 0
IsFreshPort c port =
    (t : ℕ) (info : SessionInfo)
    → get t c.sessions ≡ some info
    → info.forward_socket.local_port ≢ some port

-- What the map of sessions says of a token after `unregister`.
pub lookup-unregister :
    (c : SessionCache) (token t : ℕ)
    → get t (unregister c token).sessions ≡ (if token == t then none else get t c.sessions)
unfolding unregister
lookup-unregister c token t = ground (arith, get-remove t token c.sessions)

IsFreshPort-unregister :
    (c : SessionCache) (token port : ℕ) → IsFreshPort c port → IsFreshPort (unregister c token) port
IsFreshPort-unregister c token port fresh t info h =
    fresh t info (ground (arith, lookup-unregister c token t))

-- The second half of `register`, when the socket has a port that no session holds.
module _ (v6t : Ipv6Text) (c : SessionCache) (token port now : ℕ) (addr : SocketAddr)
    (ips : List Bytes) (ports : List ℕ) (socket : UdpSocket) (v : IsConsistent c)
    (absent : get token c.sessions ≡ none) (fresh : IsFreshPort c port)
    (port_of : socket.local_port ≡ some port) where
  abbrev added : SessionInfo
  unfolding new_session
  added = new_session v6t token addr ips ports socket now

  no_route : (t : ℕ) → get port c.port_to_token ≢ some t
  no_route t h = let (info, found, held) = v.routed port t h in fresh t info found held

  keyed-insert :
      (t : ℕ) (i : SessionInfo)
      → get t (insert token added c.sessions) ≡ some i
      → (i.session_token ≡ t)
        × (q : ℕ) × (i.forward_socket.local_port ≡ some q)
        × (get q (insert port token c.port_to_token) ≡ some t)
  unfolding new_session
  keyed-insert t i h = elim (Bool-cases (token == t)) [
    | inl same ↦ (
      ground (arith, get-insert t token added c.sessions),
      port,
      ground (arith, get-insert t token added c.sessions),
      ground (arith, get-insert port port token c.port_to_token),
    )
    | inr other ↦
        let (same_i, q, port_i, back_i) =
          v.keyed t i (ground (arith, get-insert t token added c.sessions)) in
        (
          same_i,
          q,
          port_i,
          ground (
            arith,
            get-insert q port token c.port_to_token,
            fresh t i,
            get-insert t token added c.sessions,
          ),
        )
  ]

  routed-insert :
      (q t : ℕ)
      → get q (insert port token c.port_to_token) ≡ some t
      → (i : SessionInfo) × (get t (insert token added c.sessions) ≡ some i)
        × (i.forward_socket.local_port ≡ some q)
  unfolding new_session
  routed-insert q t h = elim (Bool-cases (port == q)) [
    | inl same ↦ (
      added,
      ground (arith, get-insert q port token c.port_to_token, get-insert t token added c.sessions),
      ground arith,
    )
    | inr other ↦
        let (i, found_i, port_i) =
          v.routed q t (ground (arith, get-insert q port token c.port_to_token)) in
        (i, ground (arith, get-insert t token added c.sessions), port_i)
  ]

  pub register_finish-IsConsistent :
      IsConsistent (register_finish v6t c token addr ips ports (some socket) now).0
  unfolding register_finish
  register_finish-IsConsistent =
      rw (port_of, register_finish)
        (record {
          tokens_unique = Unique-insert token added c.sessions v.tokens_unique;
          ports_unique = Unique-insert port token c.port_to_token v.ports_unique;
          keyed = keyed-insert;
          routed = routed-insert;
          counted = refl;
        })

-- A registration keeps the cache consistent, whatever its outcome, provided that a port which the
-- operating system hands out is held by no session.
pub register-IsConsistent :
    (v6t : Ipv6Text) (c : SessionCache) (token : ℕ) (addr : SocketAddr) (ips : List Bytes)
    (ports : List ℕ) (bound : Option UdpSocket) (now : ℕ)
    → IsConsistent c
    → ((socket : UdpSocket) (port : ℕ)
        → bound ≡ some socket
        → socket.local_port ≡ some port
        → IsFreshPort c port)
    → IsConsistent (register v6t c token addr ips ports bound now).0
unfolding register register_begin
register-IsConsistent v6t c token addr ips ports none now v fresh =
    elim (Bool-cases (leb c.max_sessions (length c.sessions))) [
      | inl full ↦ rw (full, register) v
      | inr room ↦ rw (room, register) (unregister-IsConsistent c token v)
    ]
register-IsConsistent v6t c token addr ips ports (some socket) now v fresh =
    elim (Bool-cases (leb c.max_sessions (length c.sessions))) [
      | inl full ↦ rw (full, register) v
      | inr room ↦
          rw (room, register)
            (elim (Option-cases socket.local_port) [
              | inl no_port ↦ rw (no_port, register_finish) (unregister-IsConsistent c token v)
              | inr (port, port_of) ↦
                  register_finish-IsConsistent v6t (unregister c token) token port now addr ips
                    ports socket (unregister-IsConsistent c token v)
                    (ground (arith, lookup-unregister c token token))
                    (IsFreshPort-unregister c token port (fresh socket port refl port_of)) port_of
            ])
    ]
