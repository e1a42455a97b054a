-- ===== src/Relay/System/Keyed.antt =====
-- relay/src/session.rs: what removals and both halves of a registration keep in every interleaving.
use plgames_booster_up.Base.{
  ℕ, ◌≡◌, refl, leb, inl, inr, Bytes, Option, none, some, List, [], ◌∷◌, ◌==◌, arith, Bool-cases,
  Option-cases,
}
use plgames_booster_up.Base.Maps.{get, get-insert, get-remove}
use plgames_booster_up.Net.{Ipv6Text, SocketAddr}
use plgames_booster_up.Relay.Session.{
  SessionCache, SessionInfo, UdpSocket, lookup, register, register_begin, register_finish,
  new_session, unregister, unregister_all, active_count,
}
use plgames_booster_up.Relay.Session.Invariant.{IsFreshPort, lookup-unregister}
use plgames_booster_up.Relay.Forwarder.Frame.{SameShape}
use plgames_booster_up.Relay.System.Targets.{AllAllowed}

-- Each session knows its token, and the port of its socket leads to it.
abbrev pub IsKeyed : SessionCache → Type 0
IsKeyed c =
    (t : ℕ) (info : SessionInfo)
    → lookup c t ≡ some info
    → (info.session_token ≡ t)
      × (p : ℕ) × (info.forward_socket.local_port ≡ some p)
      × (get p c.port_to_token ≡ some t)

-- A removal takes the port of the removed session only.
pub unregister-IsKeyed : (c : SessionCache) (token : ℕ) → IsKeyed c → IsKeyed (unregister c token)
unfolding unregister
unregister-IsKeyed c token h t info found = elim (Option-cases (get token c.sessions)) [
  | inl missing ↦ ground (arith, h t info)
  | inr (old, present) ↦
      let (_, q, port_q, route) = h token old present in
      let (own, p, port_of, back) = h t info (ground (arith, lookup-unregister c token t)) in
      (own, p, port_of, ground (arith, lookup-unregister c token t, get-remove p q c.port_to_token))
]

pub unregister_all-IsKeyed :
    (c : SessionCache) (ts : List ℕ) → IsKeyed c → IsKeyed (unregister_all c ts)
unfolding unregister_all
unregister_all-IsKeyed c [] h = h
unregister_all-IsKeyed c (t ∷ ts) h =
    unregister_all-IsKeyed (unregister c t) ts (unregister-IsKeyed c t h)

pub SameShape-IsKeyed : {c d : SessionCache} → SameShape c d → IsKeyed c → IsKeyed d
SameShape-IsKeyed {c} {d} s h t info found = elim (Option-cases (get t c.sessions)) [
  | inl missing ↦ ground (arith, s.entries t)
  | inr (old, present) ↦
      let (own, p, port_of, back) = h t old present in
      (ground (arith, s.entries t), p, ground (arith, s.entries t), ground (arith, s.ports))
]

pub register_begin_lem :
    (v6t : Ipv6Text) (c d : SessionCache) (token : ℕ)
    → register_begin v6t c token ≡ some d
    → unregister c token ≡ d
unfolding register_begin
register_begin_lem v6t c d token e = ground arith

module _ (v6t : Ipv6Text) where
  pub register_finish-IsKeyed :
      (c : SessionCache) (token : ℕ) (addr : SocketAddr) (ips : List Bytes) (ports : List ℕ)
      (bound : Option UdpSocket) (now : ℕ)
      → IsKeyed c
      → ((socket : UdpSocket) (port : ℕ)
          → bound ≡ some socket
          → socket.local_port ≡ some port
          → IsFreshPort c port)
      → IsKeyed (register_finish v6t c token addr ips ports bound now).0
  unfolding register_finish new_session
  register_finish-IsKeyed c token addr ips ports none now h fresh t info found = h t info found
  register_finish-IsKeyed c token addr ips ports (some socket) now h fresh t info found =
      elim (Option-cases socket.local_port) [
        | inl portless ↦ ground (arith, h t info)
        | inr (port, port_of) ↦
            let added = new_session v6t token addr ips ports socket now in
            elim (Bool-cases (token == t)) [
              | inl same ↦ (
                ground (arith, get-insert t token added c.sessions),
                port,
                ground (arith, get-insert t token added c.sessions),
                ground (arith, get-insert port port token c.port_to_token),
              )
              | inr other ↦
                  let before : get t c.sessions ≡ some info =
                    ground (arith, get-insert t token added c.sessions) in
                  let (own, p, port_p, back) = h t info before in
                  let free = fresh socket port refl port_of t info before in
                  (own, p, port_p, ground (arith, get-insert p port token c.port_to_token))
            ]
      ]

  -- A registration that is not cut.
  pub register-IsKeyed :
      (c : SessionCache) (token : ℕ) (addr : SocketAddr) (ips : List Bytes) (ports : List ℕ)
      (bound : Option UdpSocket) (now : ℕ)
      → IsKeyed c
      → ((socket : UdpSocket) (port : ℕ)
          → bound ≡ some socket
          → socket.local_port ≡ some port
          → IsFreshPort c port)
      → IsKeyed (register v6t c token addr ips ports bound now).0
  unfolding register register_begin
  register-IsKeyed c token addr ips ports bound now h fresh =
      elim (Bool-cases (leb c.max_sessions (active_count c))) [
        | inl full ↦ rw (full, register) h
        | inr room ↦
            rw (room, register)
              (register_finish-IsKeyed (unregister c token) token addr ips ports bound now
                (unregister-IsKeyed c token h)
                (λ socket port e port_of t info found.
                  fresh socket port e port_of t info (ground (arith, lookup-unregister c token t))))
      ]

  pub register_finish-AllAllowed :
      (c : SessionCache) (token : ℕ) (addr : SocketAddr) (ips : List Bytes) (ports : List ℕ)
      (bound : Option UdpSocket) (now : ℕ)
      → AllAllowed v6t c
      → AllAllowed v6t (register_finish v6t c token addr ips ports bound now).0
  unfolding register_finish new_session
  register_finish-AllAllowed c token addr ips ports none now h t info found target is_set =
      h t info found target is_set
  register_finish-AllAllowed c token addr ips ports (some socket) now h t info found target is_set =
      let added = new_session v6t token addr ips ports socket now in
      elim (Option-cases socket.local_port) [
        | inl portless ↦ h t info (ground arith) target is_set
        | inr (port, port_of) ↦ elim (Bool-cases (token == t)) [
          | inl same ↦ inl (ground (arith, get-insert t token added c.sessions))
          | inr other ↦ h t info (ground (arith, get-insert t token added c.sessions)) target is_set
        ]
      ]
