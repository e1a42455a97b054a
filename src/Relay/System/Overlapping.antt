-- ===== src/Relay/System/Overlapping.antt =====
-- relay/src/main.rs and session.rs: the server with registrations that overlap. `Session.Race` shows
-- what breaks then; this is what does not.
use plgames_booster_up.Base.{
  ℕ, ◌≡◌, subst, Bytes, some, arith, refl, inl, inr, Bool-cases, ◌==◌, if◌then◌else◌,
}
use plgames_booster_up.Base.Maps.{get}
use plgames_booster_up.Net.{Ipv6Text, SocketAddr}
use plgames_booster_up.Relay.Metrics.{new_metrics}
use plgames_booster_up.Relay.Protocol.{PlgPacket, parse, serialize}
use plgames_booster_up.Relay.Session.{
  SessionCache, SessionInfo, lookup, token_by_port, new, register_begin, cleanup_stale,
  stale_tokens,
}
use plgames_booster_up.Relay.Forwarder.{
  ToGame, replies, skips, client_packet, game_packet, reply_packet,
}
use plgames_booster_up.Relay.Forwarder.Client.{client_packet_forwards}
use plgames_booster_up.Relay.Forwarder.Frame.{
  client_packet-SameShape, after_send-SameShape, game_packet-SameShape, after_reply-SameShape,
}
use plgames_booster_up.Relay.Api.Guard.{handle_cases}
use plgames_booster_up.Relay.System.{
  Step, Overlap, whole, begins, finishes, Overlaps, stays, later, client_datagram, send_result,
  game_datagram, reply_sent, api_request, cleanup,
}
use plgames_booster_up.Relay.System.Targets.{
  IsAllowed, AllAllowed, unregister-AllAllowed, Step-AllAllowed,
}
use plgames_booster_up.Relay.System.Keyed.{
  IsKeyed, SameShape-IsKeyed, unregister-IsKeyed, unregister_all-IsKeyed, register_begin_lem,
  register_finish-IsKeyed, register-IsKeyed, register_finish-AllAllowed,
}

module _ (v6t : Ipv6Text) where
  module _ {api_key : Bytes} {start_time : ℕ} where
    Step-IsKeyed : {c d : SessionCache} → Step v6t api_key start_time c d → IsKeyed c → IsKeyed d
    unfolding cleanup_stale
    Step-IsKeyed {c} (client_datagram now from bytes) h =
        SameShape-IsKeyed (client_packet-SameShape v6t c now from bytes) h
    Step-IsKeyed {c} (send_result answer) h = SameShape-IsKeyed (after_send-SameShape c answer) h
    Step-IsKeyed {c} (game_datagram port payload) h =
        SameShape-IsKeyed (game_packet-SameShape c port payload) h
    Step-IsKeyed {c} (reply_sent reply) h = SameShape-IsKeyed (after_reply-SameShape c reply) h
    Step-IsKeyed {c} (api_request header request bound now fresh) h =
        handle_cases IsKeyed v6t api_key start_time c header request bound now h
          (λ t addr ips ports. register-IsKeyed v6t c t addr ips ports bound now h fresh)
          (λ t. unregister-IsKeyed c t h)
    Step-IsKeyed {c} (cleanup now) h =
        unregister_all-IsKeyed c (stale_tokens now c.session_timeout c.sessions) h

    Overlap-IsKeyed :
        {c d : SessionCache} → Overlap v6t api_key start_time c d → IsKeyed c → IsKeyed d
    unfolding register_begin
    Overlap-IsKeyed (whole s) h = Step-IsKeyed s h
    Overlap-IsKeyed {c} {d} (begins token e) h =
        subst IsKeyed (register_begin_lem v6t c d token e) (unregister-IsKeyed c token h)
    Overlap-IsKeyed {c} (finishes token addr ips ports bound now fresh) h =
        register_finish-IsKeyed v6t c token addr ips ports bound now h fresh

    Overlap-AllAllowed :
        {c d : SessionCache}
        → Overlap v6t api_key start_time c d
        → AllAllowed v6t c
        → AllAllowed v6t d
    Overlap-AllAllowed (whole s) h = Step-AllAllowed v6t s h
    Overlap-AllAllowed {c} {d} (begins token e) h =
        subst (AllAllowed v6t) (register_begin_lem v6t c d token e)
          (unregister-AllAllowed v6t c token h)
    Overlap-AllAllowed {c} (finishes token addr ips ports bound now fresh) h =
        register_finish-AllAllowed v6t c token addr ips ports bound now h

    Overlaps-IsKeyed :
        {c d : SessionCache} → Overlaps v6t api_key start_time c d → IsKeyed c → IsKeyed d
    Overlaps-IsKeyed stays h = h
    Overlaps-IsKeyed (later r s) h = Overlap-IsKeyed s (Overlaps-IsKeyed r h)

    Overlaps-AllAllowed :
        {c d : SessionCache}
        → Overlaps v6t api_key start_time c d
        → AllAllowed v6t c
        → AllAllowed v6t d
    Overlaps-AllAllowed stays h = h
    Overlaps-AllAllowed (later r s) h = Overlap-AllAllowed s (Overlaps-AllAllowed r h)

  -- In every state that the server reaches from its start, registrations that overlap one another
  -- and all other steps included: what it sends to a game for a client's datagram goes to a target
  -- that the session named by the packet allows, its default target or one whose address is written
  -- among the session's server addresses.
  pub overlap_forwards_to_allowed :
      (api_key : Bytes) (start_time most timeout : ℕ) (c : SessionCache) (now : ℕ)
      (from : SocketAddr) (bytes : Bytes) (d : ToGame)
      → Overlaps v6t api_key start_time (new most timeout new_metrics) c
      → (client_packet v6t c now from bytes).1 ≡ some d
      → (packet : PlgPacket) × (info : SessionInfo) × (parse bytes ≡ some packet)
        × (lookup c packet.session_id ≡ some info)
        × IsAllowed v6t info d.target
  unfolding new get
  overlap_forwards_to_allowed api_key start_time most timeout c now from bytes d r sent =
      let (packet, info, parsed, found, _, _, target, _, _) =
        client_packet_forwards v6t c now from bytes d sent in
      let start : AllAllowed v6t (new most timeout new_metrics) = λ t i e. ground arith in
      (
        packet,
        info,
        parsed,
        found,
        Overlaps-AllAllowed r start packet.session_id info found d.target target,
      )

  -- In every state that the server reaches from its start, registrations that overlap one another
  -- and all other steps included, the port of a session's socket leads to that session, and a datagram
  -- that arrives on it is answered: a packet with the session's token, number 0 and the datagram goes to
  -- the session's client, or nothing is sent as long as the client's port is 0.
  pub overlap_replies_to_owner :
      (api_key : Bytes) (start_time most timeout : ℕ) (c : SessionCache) (t port : ℕ)
      (info : SessionInfo) (payload : Bytes)
      → Overlaps v6t api_key start_time (new most timeout new_metrics) c
      → lookup c t ≡ some info
      → info.forward_socket.local_port ≡ some port
      → (token_by_port c port ≡ some t)
        × ((game_packet c port payload).1 ≡ (
            if info.client_addr.port == 0
            then skips
            else replies (record {
              target = info.client_addr;
              bytes = serialize (record {
                session_id = t;
                seq_number = 0;
                flags = 0;
                path_id = 0;
                payload = payload;
              });
            })))
  unfolding new get game_packet reply_packet
  overlap_replies_to_owner api_key start_time most timeout c t port info payload r found port_of =
      let start : IsKeyed (new most timeout new_metrics) = λ t i e. ground arith in
      let keyed = Overlaps-IsKeyed r start in
      let (own, p, port_p, back) = keyed t info found in
      let routed : token_by_port c port ≡ some t = ground arith in
      (
        routed,
        elim (Bool-cases (info.client_addr.port == 0)) [
          | inl unknown ↦ rw (routed, game_packet) (rw found (rw unknown refl))
          | inr known ↦ rw (routed, game_packet) (rw found (rw known refl))
        ],
      )
