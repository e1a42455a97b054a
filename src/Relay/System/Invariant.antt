-- ===== src/Relay/System/Invariant.antt =====
-- relay/src/main.rs: what holds in every state of the server.
use plgames_booster_up.Base.{ℕ, refl, ◌≤◌, Bytes, List, [], ◌∷◌, arith}
use plgames_booster_up.Base.Maps.{get}
use plgames_booster_up.Net.{Ipv6Text}
use plgames_booster_up.Relay.Metrics.{new_metrics}
use plgames_booster_up.Relay.Session.{
  SessionCache, new, unregister, unregister_all, stale_tokens, cleanup_stale, active_count,
}
use plgames_booster_up.Relay.Session.Invariant.{
  IsConsistent, register-IsConsistent, unregister-IsConsistent, cleanup_stale-IsConsistent,
}
use plgames_booster_up.Relay.Session.Capacity.{
  register_bounded, length-unregister-le, max-unregister,
}
use plgames_booster_up.Relay.Forwarder.Frame.{
  SameShape, SameShape-IsConsistent, client_packet-SameShape, after_send-SameShape,
  game_packet-SameShape, after_reply-SameShape,
}
use plgames_booster_up.Relay.Api.Guard.{handle_cases}
use plgames_booster_up.Relay.System.{
  Step, Reach, client_datagram, send_result, game_datagram, reply_sent, api_request, cleanup, here,
  next,
}

-- The number of sessions is within the limit.
abbrev IsBounded : SessionCache → Type 0
IsBounded c = active_count c ≤ c.max_sessions

unregister-IsBounded : (c : SessionCache) (t : ℕ) → IsBounded c → IsBounded (unregister c t)
unregister-IsBounded c t h = omega (arith, length-unregister-le c t, max-unregister c t)

unregister_all-IsBounded :
    (c : SessionCache) (ts : List ℕ) → IsBounded c → IsBounded (unregister_all c ts)
unfolding unregister_all
unregister_all-IsBounded c [] h = h
unregister_all-IsBounded c (t ∷ ts) h =
    unregister_all-IsBounded (unregister c t) ts (unregister-IsBounded c t h)

SameShape-IsBounded : {c d : SessionCache} → SameShape c d → IsBounded c → IsBounded d
SameShape-IsBounded s h = omega (arith, s.size, s.limit)

new-IsConsistent : (most timeout : ℕ) → IsConsistent (new most timeout new_metrics)
unfolding new new_metrics get
new-IsConsistent most timeout = record {
  tokens_unique = tt;
  ports_unique = tt;
  keyed = λ t info h. ground arith;
  routed = λ p t h. ground arith;
  counted = refl;
}

module _ {v6t : Ipv6Text} {api_key : Bytes} {start_time : ℕ} where
  pub Step-IsConsistent :
      {c d : SessionCache} → Step v6t api_key start_time c d → IsConsistent c → IsConsistent d
  Step-IsConsistent {c} (client_datagram now from bytes) v =
      SameShape-IsConsistent (client_packet-SameShape v6t c now from bytes) v
  Step-IsConsistent {c} (send_result answer) v =
      SameShape-IsConsistent (after_send-SameShape c answer) v
  Step-IsConsistent {c} (game_datagram port payload) v =
      SameShape-IsConsistent (game_packet-SameShape c port payload) v
  Step-IsConsistent {c} (reply_sent reply) v =
      SameShape-IsConsistent (after_reply-SameShape c reply) v
  Step-IsConsistent {c} (api_request header request bound now fresh) v =
      handle_cases IsConsistent v6t api_key start_time c header request bound now v
        (λ t addr ips ports. register-IsConsistent v6t c t addr ips ports bound now v fresh)
        (λ t. unregister-IsConsistent c t v)
  Step-IsConsistent {c} (cleanup now) v = cleanup_stale-IsConsistent c now v

  Reach-IsConsistent :
      {c d : SessionCache} → IsConsistent c → Reach v6t api_key start_time c d → IsConsistent d
  Reach-IsConsistent v here = v
  Reach-IsConsistent v (next r s) = Step-IsConsistent s (Reach-IsConsistent v r)

  Step-IsBounded :
      {c d : SessionCache} → Step v6t api_key start_time c d → IsBounded c → IsBounded d
  unfolding cleanup_stale
  Step-IsBounded {c} (client_datagram now from bytes) h =
      SameShape-IsBounded (client_packet-SameShape v6t c now from bytes) h
  Step-IsBounded {c} (send_result answer) h = SameShape-IsBounded (after_send-SameShape c answer) h
  Step-IsBounded {c} (game_datagram port payload) h =
      SameShape-IsBounded (game_packet-SameShape c port payload) h
  Step-IsBounded {c} (reply_sent reply) h = SameShape-IsBounded (after_reply-SameShape c reply) h
  Step-IsBounded {c} (api_request header request bound now fresh) h =
      handle_cases IsBounded v6t api_key start_time c header request bound now h
        (λ t addr ips ports. (register_bounded v6t c t addr ips ports bound now h).0)
        (λ t. unregister-IsBounded c t h)
  Step-IsBounded {c} (cleanup now) h =
      unregister_all-IsBounded c (stale_tokens now c.session_timeout c.sessions) h

  Reach-IsBounded :
      {c d : SessionCache} → IsBounded c → Reach v6t api_key start_time c d → IsBounded d
  Reach-IsBounded h here = h
  Reach-IsBounded h (next r s) = Step-IsBounded s (Reach-IsBounded h r)

  -- In every state that the server reaches from its start by steps that do not overlap a
  -- registration, the two maps of the cache are inverse to one another, the gauge counts the
  -- sessions, and there are no more of them than the limit.
  pub Reach-start :
      (most timeout : ℕ) (c : SessionCache)
      → Reach v6t api_key start_time (new most timeout new_metrics) c
      → IsConsistent c × (active_count c ≤ c.max_sessions)
  unfolding new
  Reach-start most timeout c r =
      (Reach-IsConsistent (new-IsConsistent most timeout) r, Reach-IsBounded (omega arith) r)
