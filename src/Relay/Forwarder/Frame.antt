-- ===== src/Relay/Forwarder/Frame.antt =====
-- relay/src/forwarder.rs: packets change neither which sessions there are nor their sockets.
use plgames_booster_up.Base.{
  ℕ, ◌≡◌, refl, sym, subst, ◌∙◌, inl, inr, Option, none, some, arith, length, Bytes, ◌==◌,
  Option-cases, Bool-cases, contains,
}
use mathlib.Core.Option
use plgames_booster_up.Base.Maps.{get, modify, Unique, get-modify, Unique-modify, length-modify}
use plgames_booster_up.Net.{Ipv6Text, SocketAddr, print_ip}
use plgames_booster_up.Relay.Metrics.{
  Metrics, count_received, count_dropped, count_invalid, count_keepalive, count_forwarded,
}
use plgames_booster_up.Relay.Protocol.{PlgPacket, parse, has_flag, flag_keepalive, flag_control}
use plgames_booster_up.Relay.Session.{
  SessionCache, SessionInfo, lookup, update_session, token_by_port,
}
use plgames_booster_up.Relay.Session.Invariant.{IsConsistent}
use plgames_booster_up.Relay.Forwarder.{
  counted, touch, retarget, parse_control_payload, control_packet, data_packet, session_packet,
  client_packet, after_send, game_packet, after_reply, count_out, ToClient,
}

-- The part of a session that packets leave alone.
abbrev shape : SessionInfo → ℕ × Option ℕ
shape info = (info.session_token, info.forward_socket.local_port)

-- The caches differ in the contents of entries and in counters only.
pub record SameShape (c c' : SessionCache) : Type 0 where
  pub ports : c'.port_to_token ≡ c.port_to_token
  pub unique : Unique c.sessions → Unique c'.sessions
  pub size : length c'.sessions ≡ length c.sessions
  pub gauge : c'.metrics.active_sessions ≡ c.metrics.active_sessions
  pub limit : c'.max_sessions ≡ c.max_sessions
  pub timeout : c'.session_timeout ≡ c.session_timeout
  pub entries : (t : ℕ) → Option.map shape (get t c'.sessions) ≡ Option.map shape (get t c.sessions)

SameShape-refl : (c : SessionCache) → SameShape c c
SameShape-refl c = record {
  ports = refl;
  unique = λ u. u;
  size = refl;
  gauge = refl;
  limit = refl;
  timeout = refl;
  entries = λ t. refl;
}

SameShape-trans : {a b c : SessionCache} → SameShape a b → SameShape b c → SameShape a c
SameShape-trans f g = record {
  ports = g.ports ∙ f.ports;
  unique = λ u. g.unique (f.unique u);
  size = g.size ∙ f.size;
  gauge = g.gauge ∙ f.gauge;
  limit = g.limit ∙ f.limit;
  timeout = g.timeout ∙ f.timeout;
  entries = λ t. g.entries t ∙ f.entries t;
}

counted-SameShape :
    (f : Metrics → Metrics) (c : SessionCache)
    → (f c.metrics).active_sessions ≡ c.metrics.active_sessions
    → SameShape c (counted f c)
counted-SameShape f c h = record {
  ports = refl;
  unique = λ u. u;
  size = refl;
  gauge = h;
  limit = refl;
  timeout = refl;
  entries = λ t. refl;
}

update_session-SameShape :
    (c : SessionCache) (token : ℕ) (f : SessionInfo → SessionInfo)
    → ((info : SessionInfo) → shape (f info) ≡ shape info)
    → SameShape c (update_session c token f)
update_session-SameShape c token f h = record {
  ports = refl;
  unique = Unique-modify token f c.sessions;
  size = length-modify token f c.sessions;
  gauge = refl;
  limit = refl;
  timeout = refl;
  entries = λ t. same_entry t;
}
  where
    same_entry :
        (t : ℕ)
        → Option.map shape (get t (modify token f c.sessions)) ≡ Option.map shape (get t c.sessions)
    same_entry t = elim (Option-cases (get t c.sessions)) [
      | inl absent ↦ ground (arith, get-modify t token f c.sessions)
      | inr (info, found) ↦ ground (arith, get-modify t token f c.sessions, h info)
    ]

-- Consistency depends on the shape alone.
pub SameShape-IsConsistent :
    {c c' : SessionCache} → SameShape c c' → IsConsistent c → IsConsistent c'
SameShape-IsConsistent {c} {c'} s v = record {
  tokens_unique = s.unique v.tokens_unique;
  ports_unique = subst Unique (sym s.ports) v.ports_unique;
  keyed = λ t info h. keyed_after t info h (get t c.sessions) refl;
  routed = λ p t h. routed_after p t h (get t c'.sessions) refl;
  counted = s.gauge ∙ v.counted ∙ sym s.size;
}
  where
    keyed_after :
        (t : ℕ) (info : SessionInfo)
        → get t c'.sessions ≡ some info
        → (o : Option SessionInfo) → get t c.sessions ≡ o
        → (info.session_token ≡ t)
          × (p : ℕ) × (info.forward_socket.local_port ≡ some p)
          × (get p c'.port_to_token ≡ some t)
    keyed_after t info h none e = ground (arith, s.entries t)
    keyed_after t info h (some old) e =
        let (same, p, port_of, back) = v.keyed t old e in
        (ground (arith, s.entries t), p, ground (arith, s.entries t), ground (arith, s.ports))

    routed_after :
        (p t : ℕ)
        → get p c'.port_to_token ≡ some t
        → (o : Option SessionInfo) → get t c'.sessions ≡ o
        → (info : SessionInfo) × (get t c'.sessions ≡ some info)
          × (info.forward_socket.local_port ≡ some p)
    routed_after p t h none e =
        let (old, found, port_of) = v.routed p t (ground (arith, s.ports)) in
        ground (arith, s.entries t)
    routed_after p t h (some info) e =
        let (old, found, port_of) = v.routed p t (ground (arith, s.ports)) in
        (info, e, ground (arith, s.entries t))

control_packet-SameShape :
    (v6t : Ipv6Text) (c : SessionCache) (token : ℕ) (info : SessionInfo) (payload : Bytes)
    → SameShape c (control_packet v6t c token info payload)
unfolding control_packet
control_packet-SameShape v6t c token info payload =
    elim (Option-cases (parse_control_payload v6t payload)) [
      | inl bad ↦ rw (bad, control_packet) (counted-SameShape count_dropped c refl)
      | inr (target, good) ↦
          rw (good, control_packet)
            (elim (Bool-cases (contains info.game_server_ips (print_ip v6t target.ip))) [
              | inl allowed ↦
                  rw allowed (update_session-SameShape c token (retarget target) (λ i. refl))
              | inr refused ↦ rw refused (counted-SameShape count_dropped c refl)
            ])
    ]

session_packet-SameShape :
    (v6t : Ipv6Text) (c : SessionCache) (info : SessionInfo) (packet : PlgPacket)
    → SameShape c (session_packet v6t c info packet).0
unfolding session_packet
session_packet-SameShape v6t c info packet =
    elim (Bool-cases (has_flag packet.flags flag_keepalive)) [
      | inl alive ↦ rw alive (counted-SameShape count_keepalive c refl)
      | inr other ↦ rw other (elim (Bool-cases (has_flag packet.flags flag_control)) [
        | inl control ↦
            rw control (control_packet-SameShape v6t c packet.session_id info packet.payload)
        | inr plain ↦ rw plain (elim (Option-cases info.forward_target) [
          | inl unset ↦ rw (unset, data_packet) (counted-SameShape count_dropped c refl)
          | inr (target, is_set) ↦ rw (is_set, data_packet) (SameShape-refl c)
        ])
      ])
    ]

-- No packet from a client adds or removes a session, moves a port, or touches the limit.
pub client_packet-SameShape :
    (v6t : Ipv6Text) (c : SessionCache) (now : ℕ) (from : SocketAddr) (bytes : Bytes)
    → SameShape c (client_packet v6t c now from bytes).0
unfolding client_packet
client_packet-SameShape v6t c now from bytes =
    SameShape-trans (counted-SameShape count_received c refl) (elim (Option-cases (parse bytes)) [
      | inl short ↦ rw (short, client_packet) (counted-SameShape count_dropped c1 refl)
      | inr (packet, parsed) ↦
          rw (parsed, client_packet)
            (elim (Option-cases (lookup c packet.session_id)) [
              | inl unknown ↦ rw unknown (counted-SameShape count_invalid c1 refl)
              | inr (info, found) ↦ rw found (
                  SameShape-trans
                    (update_session-SameShape c1 packet.session_id (touch now from (length bytes))
                      (λ i. refl))
                    (session_packet-SameShape v6t
                      (update_session c1 packet.session_id (touch now from (length bytes)))
                      (touch now from (length bytes) info) packet))
            ])
    ])
  where
    c1 : SessionCache
    c1 = counted count_received c

pub after_send-SameShape :
    (c : SessionCache) (answer : Option ℕ) → SameShape c (after_send c answer)
unfolding after_send
after_send-SameShape c none = counted-SameShape count_dropped c refl
after_send-SameShape c (some sent) = counted-SameShape (count_forwarded sent) c refl

pub game_packet-SameShape :
    (c : SessionCache) (port : ℕ) (payload : Bytes) → SameShape c (game_packet c port payload).0
unfolding game_packet
game_packet-SameShape c port payload = elim (Option-cases (token_by_port c port)) [
  | inl gone ↦ rw (gone, game_packet) (SameShape-refl c)
  | inr (token, routed) ↦
      rw (routed, game_packet)
        (elim (Option-cases (lookup c token)) [
          | inl absent ↦ rw absent (SameShape-refl c)
          | inr (info, found) ↦ rw found (elim (Bool-cases (info.client_addr.port == 0)) [
            | inl unknown ↦ rw unknown (counted_out token)
            | inr known ↦ rw known (counted_out token)
          ])
        ])
]
  where
    counted_out : (token : ℕ) → SameShape c (update_session c token (count_out (length payload)))
    counted_out token = update_session-SameShape c token (count_out (length payload)) (λ i. refl)

pub after_reply-SameShape :
    (c : SessionCache) (reply : ToClient) → SameShape c (after_reply c reply)
unfolding after_reply
after_reply-SameShape c reply = counted-SameShape (count_forwarded (length reply.bytes)) c refl
