-- ===== src/Relay/Forwarder/Client.antt =====
-- relay/src/forwarder.rs, `client_listener`: what is forwarded, and what a packet does to sessions.
use plgames_booster_up.Base.{
  ℕ, ◌≡◌, ◌≢◌, refl, subst, ◌⊎◌, inl, inr, true, false, none, some, arith, length, Bytes, ◌==◌,
  if◌then◌else◌, Option-cases, Bool-cases, contains,
}
use mathlib.Core.Option
use plgames_booster_up.Base.Maps.{get-modify}
use plgames_booster_up.Net.{Ipv6Text, SocketAddr, print_ip}
use plgames_booster_up.Net.Laws.{socket_addr_eq_sound}
use plgames_booster_up.Relay.Protocol.{PlgPacket, parse, has_flag, flag_keepalive, flag_control}
use plgames_booster_up.Relay.Metrics.{add_u64, count_received}
use plgames_booster_up.Relay.Session.{SessionCache, SessionInfo, lookup, update_session}
use plgames_booster_up.Relay.Forwarder.{
  ToGame, counted, touch, retarget, parse_control_payload, control_packet, data_packet,
  session_packet, client_packet,
}

module _ (v6t : Ipv6Text) (c : SessionCache) (now : ℕ) (from : SocketAddr) (bytes : Bytes) where
  -- What is sent to a game server is the payload of a well-formed data packet of a registered
  -- session, on that session's socket and to that session's target.
  pub client_packet_forwards :
      (d : ToGame)
      → (client_packet v6t c now from bytes).1 ≡ some d
      → (packet : PlgPacket) × (info : SessionInfo) × (parse bytes ≡ some packet)
        × (lookup c packet.session_id ≡ some info)
        × (has_flag packet.flags flag_keepalive ≡ false)
        × (has_flag packet.flags flag_control ≡ false)
        × (info.forward_target ≡ some d.target)
        × (d.via ≡ info.forward_socket)
        × (d.payload ≡ packet.payload)
  unfolding client_packet
  client_packet_forwards d sent = elim (Option-cases (parse bytes)) [
    | inl short ↦ ground arith
    | inr (packet, parsed) ↦ elim (Option-cases (lookup c packet.session_id)) [
      | inl unknown ↦ ground arith
      | inr (info, found) ↦ (
        packet,
        info,
        parsed,
        found,
        ground arith,
        ground arith,
        ground arith,
        ground arith,
        ground arith,
      )
    ]
  ]

  -- The payload of each data packet of a registered session with a target is sent to that target on
  -- the session's socket.
  pub client_packet_data :
      (packet : PlgPacket) (info : SessionInfo) (target : SocketAddr)
      → parse bytes ≡ some packet
      → lookup c packet.session_id ≡ some info
      → has_flag packet.flags flag_keepalive ≡ false
      → has_flag packet.flags flag_control ≡ false
      → info.forward_target ≡ some target
      → (client_packet v6t c now from bytes).1
        ≡ some (record { via = info.forward_socket; target = target; payload = packet.payload })
  unfolding client_packet
  client_packet_data packet info target parsed found data_1 data_2 is_set =
      rw (parsed, client_packet) (rw found (rw data_1 (rw data_2 (rw is_set))))

touch_lem :
    (now : ℕ) (from : SocketAddr) (len : ℕ) (info : SessionInfo)
    → touch now from len info ≡ record info {
      client_addr = from;
      last_seen = now;
      packets_in = add_u64 info.packets_in 1;
      bytes_in = add_u64 info.bytes_in len;
    }
unfolding touch
touch_lem now from len info = ground (arith, socket_addr_eq_sound info.client_addr from)

lookup-update_session :
    (c : SessionCache) (token t : ℕ) (f : SessionInfo → SessionInfo)
    → lookup (update_session c token f) t
      ≡ (if token == t then Option.map f (lookup c t) else lookup c t)
lookup-update_session c token t f = get-modify t token f c.sessions

-- The entry is as it was, or it is that of a control packet, whose payload has set the target to
-- one of the session's servers.
abbrev pub IsRetargeted : Ipv6Text → PlgPacket → SessionInfo → SessionInfo → Type 0
IsRetargeted v6t packet old new =
    (new ≡ old)
    ⊎ ((target : SocketAddr) × (has_flag packet.flags flag_keepalive ≡ false)
        × (has_flag packet.flags flag_control ≡ true)
        × (parse_control_payload v6t packet.payload ≡ some target)
        × (contains old.game_server_ips (print_ip v6t target.ip) ≡ true)
        × (new ≡ retarget target old))

control_packet_entry :
    (v6t : Ipv6Text) (c : SessionCache) (info : SessionInfo) (packet : PlgPacket)
    → has_flag packet.flags flag_keepalive ≡ false
    → has_flag packet.flags flag_control ≡ true
    → lookup c packet.session_id ≡ some info
    → (last : SessionInfo) × (lookup
          (control_packet v6t c packet.session_id info packet.payload)
          packet.session_id
        ≡ some last)
      × IsRetargeted v6t packet info last
unfolding control_packet
control_packet_entry v6t c info packet other control found =
    elim (Option-cases (parse_control_payload v6t packet.payload)) [
      | inl bad ↦ (info, rw (bad, control_packet) found, inl refl)
      | inr (target, good) ↦
          elim (Bool-cases (contains info.game_server_ips (print_ip v6t target.ip))) [
            | inr refused ↦ (info, rw (good, control_packet) (rw refused found), inl refl)
            | inl allowed ↦ (
              retarget target info,
              rw (good, control_packet)
                  (rw allowed (
                    ground (
                      arith,
                      lookup-update_session c packet.session_id packet.session_id (retarget target),
                    ))),
              inr (target, other, control, good, allowed, refl),
            )
          ]
    ]

sessions-data_packet :
    (c : SessionCache) (info : SessionInfo) (payload : Bytes)
    → (data_packet c info payload).0.sessions ≡ c.sessions
unfolding data_packet
sessions-data_packet c info payload = ground arith

session_packet_entry :
    (v6t : Ipv6Text) (c : SessionCache) (info : SessionInfo) (packet : PlgPacket)
    → lookup c packet.session_id ≡ some info
    → (last : SessionInfo) × (lookup (session_packet v6t c info packet).0 packet.session_id
        ≡ some last)
      × IsRetargeted v6t packet info last
unfolding session_packet
session_packet_entry v6t c info packet found =
    elim (Bool-cases (has_flag packet.flags flag_keepalive)) [
      | inl alive ↦ (info, rw alive found, inl refl)
      | inr other ↦ elim (Bool-cases (has_flag packet.flags flag_control)) [
        | inl control ↦
            let (last, at, how) = control_packet_entry v6t c info packet other control found in
            (last, rw other (rw control at), how)
        | inr plain ↦ (
          info,
          rw other (rw plain (ground (arith, sessions-data_packet c info packet.payload))),
          inl refl,
        )
      ]
    ]

-- Sessions other than the packet's are not looked at.
session_packet_others :
    (v6t : Ipv6Text) (c : SessionCache) (info : SessionInfo) (packet : PlgPacket) (t : ℕ)
    → t ≢ packet.session_id
    → lookup (session_packet v6t c info packet).0 t ≡ lookup c t
unfolding session_packet control_packet data_packet
session_packet_others v6t c info packet t other =
    elim (Option-cases (parse_control_payload v6t packet.payload)) [
      | inl bad ↦ ground arith
      | inr (target, good) ↦
          ground (arith, lookup-update_session c packet.session_id t (retarget target))
    ]

module _ (v6t : Ipv6Text) (c : SessionCache) (now : ℕ) (from : SocketAddr) (bytes : Bytes)
    (packet : PlgPacket) (info : SessionInfo) (parsed : parse bytes ≡ some packet)
    (found : lookup c packet.session_id ≡ some info) where
  pub client_packet_entry :
      (last : SessionInfo) × (lookup (client_packet v6t c now from bytes).0 packet.session_id
        ≡ some last)
      × IsRetargeted v6t packet
          (record info {
            client_addr = from;
            last_seen = now;
            packets_in = add_u64 info.packets_in 1;
            bytes_in = add_u64 info.bytes_in (length bytes);
          })
          last
  unfolding client_packet
  client_packet_entry =
      let c1 = counted count_received c in
      let new = touch now from (length bytes) info in
      let d = update_session c1 packet.session_id (touch now from (length bytes)) in
      subst
        (λ old.
          (last : SessionInfo) × (lookup (client_packet v6t c now from bytes).0 packet.session_id
            ≡ some last)
          × IsRetargeted v6t packet old last)
        (touch_lem now from (length bytes) info)
        (rw (parsed, client_packet)
          (rw found (
            session_packet_entry v6t d new packet (
              ground (
                arith,
                lookup-update_session c1 packet.session_id packet.session_id
                    (touch now from (length bytes)),
              )))))

  -- A packet of a registered session leaves the sessions of all other tokens as they were.
  pub client_packet_others :
      (t : ℕ) → t ≢ packet.session_id → lookup (client_packet v6t c now from bytes).0 t ≡ lookup c t
  unfolding client_packet
  client_packet_others t other =
      let c1 = counted count_received c in
      let new = touch now from (length bytes) info in
      let d = update_session c1 packet.session_id (touch now from (length bytes)) in
      rw (parsed, client_packet)
        (rw found (
          ground (
            arith,
            session_packet_others v6t d new packet t other,
            lookup-update_session c1 packet.session_id t (touch now from (length bytes)),
          )))

-- A datagram that does not parse, or that names no session, leaves every session as it was and is
-- not forwarded.
pub client_packet_ignored :
    (v6t : Ipv6Text) (c : SessionCache) (now : ℕ) (from : SocketAddr) (bytes : Bytes)
    → ((packet : PlgPacket) → parse bytes ≡ some packet → lookup c packet.session_id ≡ none)
    → ((client_packet v6t c now from bytes).0.sessions ≡ c.sessions)
      × ((client_packet v6t c now from bytes).1 ≡ none)
unfolding client_packet
client_packet_ignored v6t c now from bytes h = elim (Option-cases (parse bytes)) [
  | inl short ↦ rw (short, client_packet) (refl, refl)
  | inr (packet, parsed) ↦ rw (parsed, client_packet) (rw (h packet parsed) (refl, refl))
]
