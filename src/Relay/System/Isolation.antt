-- ===== src/Relay/System/Isolation.antt =====
-- relay/src/main.rs: for each step of the server, the sessions that the step is about, and what it
-- does to the others.
use plgames_booster_up.Base.{
  ℕ, ◌≡◌, ◌≢◌, ◌⊎◌, refl, ap, ◌∙◌, Bytes, true, Option, none, some, List, [], ◌==◌, arith, inl, inr,
  Option-cases, Bool-cases, unwrap_or, length, ltb, ◌-◌,
}
use plgames_booster_up.Base.Maps.{get-modify, get-insert}
use plgames_booster_up.Net.{Ipv6Text, SocketAddr}
use plgames_booster_up.Relay.Protocol.{PlgPacket, parse}
use plgames_booster_up.Relay.Session.{
  SessionCache, SessionInfo, UdpSocket, lookup, token_by_port, register, register_begin,
  register_finish, new_session, unregister, cleanup_stale,
}
use plgames_booster_up.Relay.Session.Invariant.{IsConsistent, lookup-unregister}
use plgames_booster_up.Relay.Session.Cleanup.{lookup-cleanup_stale}
use plgames_booster_up.Relay.Forwarder.{
  client_packet, after_send, game_packet, after_reply, count_out,
}
use plgames_booster_up.Relay.Forwarder.Client.{client_packet_others, client_packet_ignored}
use plgames_booster_up.Relay.Api.{
  Request, health, register_session, unregister_session, handle, authorized, parse_ports,
  placeholder,
}
use plgames_booster_up.Relay.Api.Key.{constant_time_eq_iff}
use plgames_booster_up.Relay.Api.Guard.{respond-cache}
use plgames_booster_up.Relay.System.{
  Step, client_datagram, send_result, game_datagram, reply_sent, api_request, cleanup,
}

-- The token that a request of the management interface is about.
abbrev pub token_of : Request → Option ℕ
token_of health = none
token_of (register_session req) = some req.session_token
token_of (unregister_session token) = some token

module _ (v6t : Ipv6Text) (api_key : Bytes) (start_time : ℕ) where
  -- What a step must be for it to change the session of the token `u`: a datagram that carries the
  -- token, a datagram on the session's port, a request about it with the key, or a cleanup when it
  -- has been silent for longer than the timeout.
  abbrev pub Concerns : {c d : SessionCache} → Step v6t api_key start_time c d → ℕ → Type 0
  Concerns (client_datagram now from bytes) u =
      (packet : PlgPacket) × (parse bytes ≡ some packet) × (packet.session_id ≡ u)
  Concerns (send_result answer) u = ⊥
  Concerns {c = c} (game_datagram port payload) u = token_by_port c port ≡ some u
  Concerns (reply_sent reply) u = ⊥
  Concerns (api_request header request bound now fresh) u =
      (unwrap_or header [] ≡ api_key) × (token_of request ≡ some u)
  Concerns {c = c} (cleanup now) u =
      (info : SessionInfo) × (lookup c u ≡ some info)
      × (ltb c.session_timeout (now - info.last_seen) ≡ true)

client_datagram_alone :
    (v6t : Ipv6Text) (c : SessionCache) (now : ℕ) (from : SocketAddr) (bytes : Bytes) (u : ℕ)
    → (lookup (client_packet v6t c now from bytes).0 u ≡ lookup c u)
      ⊎ ((packet : PlgPacket) × (parse bytes ≡ some packet) × (packet.session_id ≡ u))
client_datagram_alone v6t c now from bytes u = elim (Option-cases (parse bytes)) [
  | inl short ↦
      let nothing : (p : PlgPacket) → parse bytes ≡ some p → lookup c p.session_id ≡ none =
        λ p e. ground arith in
      inl (ground (arith, client_packet_ignored v6t c now from bytes nothing))
  | inr (packet, parsed) ↦ elim (Bool-cases (packet.session_id == u)) [
    | inl same ↦ inr (packet, parsed, ground arith)
    | inr other ↦ elim (Option-cases (lookup c packet.session_id)) [
      | inl unknown ↦
          let nothing : (p : PlgPacket) → parse bytes ≡ some p → lookup c p.session_id ≡ none =
            λ p e. ground arith in
          inl (ground (arith, client_packet_ignored v6t c now from bytes nothing))
      | inr (info, known) ↦
          inl (client_packet_others v6t c now from bytes packet info parsed known u (ground arith))
    ]
  ]
]

game_datagram_alone :
    (c : SessionCache) (port : ℕ) (payload : Bytes) (u : ℕ)
    → (lookup (game_packet c port payload).0 u ≡ lookup c u) ⊎ (token_by_port c port ≡ some u)
unfolding game_packet
game_datagram_alone c port payload u = elim (Option-cases (token_by_port c port)) [
  | inl gone ↦ inl (rw (gone, game_packet) refl)
  | inr (token, routed) ↦ elim (Bool-cases (token == u)) [
    | inl same ↦ inr (ground arith)
    | inr other ↦ elim (Option-cases (lookup c token)) [
      | inl absent ↦ inl (rw (routed, game_packet) (rw absent refl))
      | inr (info, found) ↦
          inl (ground (arith, get-modify u token (count_out (length payload)) c.sessions))
    ]
  ]
]

register-others :
    (v6t : Ipv6Text) (c : SessionCache) (token : ℕ) (addr : SocketAddr) (ips : List Bytes)
    (ports : List ℕ) (bound : Option UdpSocket) (now u : ℕ)
    → token ≢ u
    → lookup (register v6t c token addr ips ports bound now).0 u ≡ lookup c u
unfolding register register_begin register_finish
register-others v6t c token addr ips ports none now u other =
    ground (arith, lookup-unregister c token u)
register-others v6t c token addr ips ports (some socket) now u other =
    let added = new_session v6t token addr ips ports socket now in
    ground
      (arith, lookup-unregister c token u, get-insert u token added (unregister c token).sessions)

handle_alone :
    (v6t : Ipv6Text) (api_key : Bytes) (start_time : ℕ) (c : SessionCache) (header : Option Bytes)
    (request : Request) (bound : Option UdpSocket) (now u : ℕ)
    → (lookup (handle v6t api_key start_time c header request bound now).cache u ≡ lookup c u)
      ⊎ ((unwrap_or header [] ≡ api_key) × (token_of request ≡ some u))
unfolding handle authorized
handle_alone v6t key start c header health bound now u = inl refl
handle_alone v6t key start c header (register_session req) bound now u =
    elim (Bool-cases (authorized v6t key header)) [
      | inr refused ↦ inl (rw refused refl)
      | inl admitted ↦ elim (Bool-cases (req.session_token == u)) [
        | inl same ↦ inr ((constant_time_eq_iff (unwrap_or header []) key).0 admitted, ground arith)
        | inr other ↦ inl (
            rw admitted (
              ap (λ d. lookup d u)
                (respond-cache v6t req.session_token (
                  register v6t c req.session_token placeholder req.game_server_ips
                    (parse_ports req.game_ports) bound now))
              ∙ register-others v6t c req.session_token placeholder req.game_server_ips
                  (parse_ports req.game_ports) bound now u (ground arith)))
      ]
    ]
handle_alone v6t key start c header (unregister_session token) bound now u =
    elim (Bool-cases (authorized v6t key header)) [
      | inr refused ↦ inl (rw refused refl)
      | inl admitted ↦ elim (Bool-cases (token == u)) [
        | inl same ↦ inr ((constant_time_eq_iff (unwrap_or header []) key).0 admitted, ground arith)
        | inr other ↦ inl (rw admitted (ground (arith, lookup-unregister c token u)))
      ]
    ]

cleanup_alone :
    (c : SessionCache) (now u : ℕ)
    → IsConsistent c
    → (lookup (cleanup_stale c now).0 u ≡ lookup c u)
      ⊎ ((info : SessionInfo) × (lookup c u ≡ some info)
          × (ltb c.session_timeout (now - info.last_seen) ≡ true))
cleanup_alone c now u v = elim (Option-cases (lookup c u)) [
  | inl absent ↦ inl (ground (arith, lookup-cleanup_stale c now u v))
  | inr (info, found) ↦ elim (Bool-cases (ltb c.session_timeout (now - info.last_seen))) [
    | inl stale ↦ inr (info, found, stale)
    | inr fresh ↦ inl (ground (arith, lookup-cleanup_stale c now u v))
  ]
]

-- In a consistent cache, each step of the server, a registration being one step, leaves the session
-- of a token as it is, or leaves it absent, unless the step concerns that token: it is a datagram that
-- carries the token or arrives on a port that leads to it, a request about it with the key, or a
-- cleanup that finds its session silent for longer than the timeout.
pub step_alone :
    (v6t : Ipv6Text) (api_key : Bytes) (start_time u : ℕ) (c d : SessionCache)
    (s : Step v6t api_key start_time c d)
    → IsConsistent c
    → (lookup d u ≡ lookup c u) ⊎ Concerns v6t api_key start_time s u
unfolding after_send after_reply
step_alone v6t key start u c d (client_datagram now from bytes) v =
    client_datagram_alone v6t c now from bytes u
step_alone v6t key start u c d (send_result none) v = inl refl
step_alone v6t key start u c d (send_result (some sent)) v = inl refl
step_alone v6t key start u c d (game_datagram port payload) v = game_datagram_alone c port payload u
step_alone v6t key start u c d (reply_sent reply) v = inl refl
step_alone v6t key start u c d (api_request header request bound now fresh) v =
    handle_alone v6t key start c header request bound now u
step_alone v6t key start u c d (cleanup now) v = cleanup_alone c now u v
