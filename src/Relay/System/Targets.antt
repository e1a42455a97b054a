-- ===== src/Relay/System/Targets.antt =====
-- relay/src/forwarder.rs and session.rs: where the relay can be made to send game traffic.
use plgames_booster_up.Base.{
  ℕ, ◌≡◌, ◌⊎◌, inl, inr, true, Bytes, Option, none, some, List, [], ◌∷◌, arith, contains, length,
  ◌==◌, Bool-cases, Option-cases,
}
use mathlib.Core.Option
use plgames_booster_up.Base.Maps.{get, get-modify}
use plgames_booster_up.Net.{Ipv6Text, SocketAddr, print_ip}
use plgames_booster_up.Relay.Metrics.{new_metrics}
use plgames_booster_up.Relay.Protocol.{PlgPacket, parse}
use plgames_booster_up.Relay.Session.{
  SessionCache, SessionInfo, UdpSocket, lookup, token_by_port, new, default_forward_target,
  register, new_session, unregister, unregister_all, cleanup_stale, stale_tokens,
}
use plgames_booster_up.Relay.Session.Invariant.{lookup-unregister}
use plgames_booster_up.Relay.Session.Capacity.{lookup-register_cases}
use plgames_booster_up.Relay.Forwarder.{
  ToGame, client_packet, after_send, game_packet, after_reply, count_out,
}
use plgames_booster_up.Relay.Forwarder.Client.{
  client_packet_entry, client_packet_others, client_packet_forwards, client_packet_ignored,
}
use plgames_booster_up.Relay.Api.Guard.{handle_cases}
use plgames_booster_up.Relay.System.{
  Step, Reach, client_datagram, send_result, game_datagram, reply_sent, api_request, cleanup, here,
  next,
}

-- A target of a session is the default one, from the first address and port of its registration, or
-- its address is written among the session's server addresses.
abbrev pub IsAllowed : Ipv6Text → SessionInfo → SocketAddr → Type 0
IsAllowed v6t info target =
    (default_forward_target v6t info.game_server_ips info.game_ports ≡ some target)
    ⊎ (contains info.game_server_ips (print_ip v6t target.ip) ≡ true)

abbrev pub OnlyAllowed : Ipv6Text → SessionInfo → Type 0
OnlyAllowed v6t info =
    (target : SocketAddr) → info.forward_target ≡ some target → IsAllowed v6t info target

abbrev pub AllAllowed : Ipv6Text → SessionCache → Type 0
AllAllowed v6t c = (t : ℕ) (info : SessionInfo) → lookup c t ≡ some info → OnlyAllowed v6t info

module _ (v6t : Ipv6Text) where
  pub unregister-AllAllowed :
      (c : SessionCache) (token : ℕ) → AllAllowed v6t c → AllAllowed v6t (unregister c token)
  unregister-AllAllowed c token h t info found =
      h t info (ground (arith, lookup-unregister c token t))

  unregister_all-AllAllowed :
      (c : SessionCache) (ts : List ℕ) → AllAllowed v6t c → AllAllowed v6t (unregister_all c ts)
  unfolding unregister_all
  unregister_all-AllAllowed c [] h = h
  unregister_all-AllAllowed c (t ∷ ts) h =
      unregister_all-AllAllowed (unregister c t) ts (unregister-AllAllowed c t h)

  register-AllAllowed :
      (c : SessionCache) (token : ℕ) (addr : SocketAddr) (ips : List Bytes) (ports : List ℕ)
      (bound : Option UdpSocket) (now : ℕ)
      → AllAllowed v6t c
      → AllAllowed v6t (register v6t c token addr ips ports bound now).0
  unfolding new_session
  register-AllAllowed c token addr ips ports bound now h t info found target is_set =
      elim (lookup-register_cases v6t c token addr ips ports bound now t info found) [
        | inl old ↦ h t info old target is_set
        | inr (socket, e) ↦ inl (ground arith)
      ]

  client_packet-AllAllowed :
      (c : SessionCache) (now : ℕ) (from : SocketAddr) (bytes : Bytes)
      → AllAllowed v6t c
      → AllAllowed v6t (client_packet v6t c now from bytes).0
  client_packet-AllAllowed c now from bytes h t info found target is_set =
      elim (Option-cases (parse bytes)) [
        | inl short ↦
            h t info (ground (arith, client_packet_ignored v6t c now from bytes (λ p e. cc))) target
              is_set
        | inr (packet, parsed) ↦ elim (Option-cases (lookup c packet.session_id)) [
          | inl unknown ↦
              let nothing : (p : PlgPacket) → parse bytes ≡ some p → lookup c p.session_id ≡ none =
                λ p e. ground arith in
              h t info (ground (arith, client_packet_ignored v6t c now from bytes nothing)) target
                is_set
          | inr (old, known) ↦
              let (last, at, how) =
                client_packet_entry v6t c now from bytes packet old parsed known in
              elim (Bool-cases (packet.session_id == t)) [
                | inl same ↦ let old_ok = h packet.session_id old known target in ground arith
                | inr other ↦
                    h t info
                      (ground (
                        arith,
                        client_packet_others v6t c now from bytes packet old parsed known t,
                      ))
                      target is_set
              ]
        ]
      ]

  -- In each entry a datagram from the game changes counters at most.
  lookup-game_packet :
      (c : SessionCache) (port : ℕ) (payload : Bytes) (t : ℕ)
      → (lookup (game_packet c port payload).0 t ≡ lookup c t)
        ⊎ (lookup (game_packet c port payload).0 t
            ≡ Option.map (count_out (length payload)) (lookup c t))
  unfolding game_packet
  lookup-game_packet c port payload t = elim (Option-cases (token_by_port c port)) [
    | inl gone ↦ inl (rw (gone, game_packet))
    | inr (token, routed) ↦ elim (Option-cases (lookup c token)) [
      | inl absent ↦ inl (rw (routed, game_packet) (rw absent))
      | inr (info, found) ↦ elim (Bool-cases (token == t)) [
        | inl same ↦
            inr (ground (arith, get-modify t token (count_out (length payload)) c.sessions))
        | inr other ↦
            inl (ground (arith, get-modify t token (count_out (length payload)) c.sessions))
      ]
    ]
  ]

  game_packet-AllAllowed :
      (c : SessionCache) (port : ℕ) (payload : Bytes)
      → AllAllowed v6t c
      → AllAllowed v6t (game_packet c port payload).0
  game_packet-AllAllowed c port payload h t info found target is_set =
      elim (Option-cases (lookup c t)) [
        | inl absent ↦ ground (arith, lookup-game_packet c port payload t)
        | inr (old, known) ↦
            let old_ok = h t old known target in ground (arith, lookup-game_packet c port payload t)
      ]

  pub Step-AllAllowed :
      {api_key : Bytes} {start_time : ℕ} {c d : SessionCache}
      → Step v6t api_key start_time c d
      → AllAllowed v6t c
      → AllAllowed v6t d
  unfolding cleanup_stale after_send after_reply
  Step-AllAllowed {c = c} (client_datagram now from bytes) h =
      client_packet-AllAllowed c now from bytes h
  Step-AllAllowed {c = c} (send_result none) h = h
  Step-AllAllowed {c = c} (send_result (some sent)) h = h
  Step-AllAllowed {c = c} (game_datagram port payload) h = game_packet-AllAllowed c port payload h
  Step-AllAllowed {c = c} (reply_sent reply) h = h
  Step-AllAllowed {api_key} {start_time} {c} (api_request header request bound now fresh) h =
      handle_cases (AllAllowed v6t) v6t api_key start_time c header request bound now h
        (λ t addr ips ports. register-AllAllowed c t addr ips ports bound now h)
        (λ t. unregister-AllAllowed c t h)
  Step-AllAllowed {c = c} (cleanup now) h =
      unregister_all-AllAllowed c (stale_tokens now c.session_timeout c.sessions) h

  Reach-AllAllowed :
      {api_key : Bytes} {start_time : ℕ} {c d : SessionCache}
      → AllAllowed v6t c
      → Reach v6t api_key start_time c d
      → AllAllowed v6t d
  Reach-AllAllowed h here = h
  Reach-AllAllowed h (next r s) = Step-AllAllowed s (Reach-AllAllowed h r)

  -- In every state that the server reaches by steps that do not overlap a registration, what it sends to a game goes to a target that the
  -- session named by the packet allows: its default target, or one whose address is written among
  -- the session's server addresses.
  pub forwards_to_allowed :
      (api_key : Bytes) (start_time most timeout : ℕ) (c : SessionCache) (now : ℕ)
      (from : SocketAddr) (bytes : Bytes) (d : ToGame)
      → Reach v6t api_key start_time (new most timeout new_metrics) c
      → (client_packet v6t c now from bytes).1 ≡ some d
      → (packet : PlgPacket) × (info : SessionInfo) × (parse bytes ≡ some packet)
        × (lookup c packet.session_id ≡ some info)
        × IsAllowed v6t info d.target
  unfolding new get
  forwards_to_allowed api_key start_time most timeout c now from bytes d r sent =
      let (packet, info, parsed, found, _, _, target, _, _) =
        client_packet_forwards v6t c now from bytes d sent in
      let start : AllAllowed v6t (new most timeout new_metrics) = λ t i e. ground arith in
      (
        packet,
        info,
        parsed,
        found,
        Reach-AllAllowed start r packet.session_id info found d.target target,
      )
