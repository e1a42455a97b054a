-- ===== src/Tunnel/Invariant.antt =====
-- client/src-tauri/src/udp_proxy.rs and relay/src/forwarder.rs: what every world that the tunnel
-- reaches satisfies.
pub mod Outward
use plgames_booster_up.Base.{
  ℕ, ◌≡◌, ◌≢◌, ◌<◌, ◌^◌, ◌++◌, ◌⊎◌, refl, sym, subst, ◌∙◌, Bytes, Bool, true, false, Option, none,
  some, List, [], ◌∷◌, ◌==◌, if◌then◌else◌, arith, inl, inr, Option-cases, Bool-cases,
}
use plgames_booster_up.Base.Maps.{get}
use plgames_booster_up.Net.{Ipv6Text, SocketAddr}
use plgames_booster_up.Relay.Protocol
use plgames_booster_up.Relay.Session.{SessionCache, SessionInfo, lookup, token_by_port}
use plgames_booster_up.Relay.Session.Invariant.{IsConsistent}
use plgames_booster_up.Relay.Forwarder.{ToGame, client_packet, game_packet, reply_packet}
use plgames_booster_up.Relay.Forwarder.Frame.{
  SameShape, SameShape-IsConsistent, client_packet-SameShape, game_packet-SameShape,
}
use plgames_booster_up.Relay.System
use plgames_booster_up.Relay.System.Invariant.{Step-IsConsistent}
use plgames_booster_up.Client.Protocol.{data_packet, keepalive, encode}
use plgames_booster_up.Client.Proxy.{from_game, from_relay, tick, stop}
use plgames_booster_up.Tunnel.{
  World, IsOpen, listed, reply_bytes, asks, ticks, relays, answers, hands, Housekeeping,
  send_result, reply_sent, api_request, cleanup, Step, game_asks, timer_ticks, proxy_stops,
  client_heard, other_heard, server_answers, other_answers, relay_heard, relay_works,
}
use plgames_booster_up.Tunnel.Invariant.Outward.{
  IsOurs, in_at_most, relayed-from_game, relayed-tick, step-kept, IsOurs-weaken, IsOurs-data,
  IsOurs-keepalive,
}
use mathlib.Core.List.{Memᴰ}
use mathlib.Core.List.Memᴰ.{head, tail, append_cases}

-- A datagram for the client is the reply with an answer of the session's game server.
abbrev pub IsReply : ℕ → List Bytes → Bytes → Type 0
IsReply token answered bytes =
    (payload : Bytes) × Memᴰ payload answered
    × (bytes ≡ Protocol.serialize (reply_packet token payload))

-- The session is open, its proxy has its token and no backup relay, and what is under way is what
-- the two ends have sent.
pub record IsSound (token port : ℕ) (w : World) : Type 0 where
  pub fits : token < 2 ^ 32
  pub consistent : IsConsistent w.cache
  pub opened : IsOpen token port w.cache
  pub same_token : w.proxy.session_token ≡ token
  pub seq_fits : w.proxy.seq_counter < 2 ^ 32
  pub no_backup : w.proxy.backup ≡ none
  pub ours : (bytes : Bytes) → Memᴰ bytes w.outward → IsOurs token w.asked bytes
  pub replied : (bytes : Bytes) → Memᴰ bytes w.homeward → IsReply token w.answered bytes

-- The start: nothing was sent yet.
pub record IsStart (token port : ℕ) (w : World) : Type 0 where
  pub fits : token < 2 ^ 32
  pub consistent : IsConsistent w.cache
  pub opened : IsOpen token port w.cache
  pub same_token : w.proxy.session_token ≡ token
  pub seq_fits : w.proxy.seq_counter < 2 ^ 32
  pub no_backup : w.proxy.backup ≡ none
  pub asked : w.asked ≡ []
  pub outward : w.outward ≡ []
  pub served : w.served ≡ []
  pub answered : w.answered ≡ []
  pub homeward : w.homeward ≡ []
  pub shown : w.shown ≡ []

pub start-IsSound : (token port : ℕ) (w : World) → IsStart token port w → IsSound token port w
start-IsSound token port w s = record {
  fits = s.fits;
  consistent = s.consistent;
  opened = s.opened;
  same_token = s.same_token;
  seq_fits = s.seq_fits;
  no_backup = s.no_backup;
  ours = λ bytes m. elim (subst (Memᴰ bytes) s.outward m) [ ];
  replied = λ bytes m. elim (subst (Memᴰ bytes) s.homeward m) [ ];
}

-- A session stays open when nothing but the contents of entries changes.
pub SameShape-IsOpen :
    {token port : ℕ} {c d : SessionCache}
    → SameShape c d
    → IsOpen token port c
    → IsOpen token port d
SameShape-IsOpen {token} {port} {c} {d} s o = elim (Option-cases (get token d.sessions)) [
  | inl gone ↦ ground (arith, s.entries token, o.found)
  | inr (info, found) ↦ record {
    info = info;
    found = found;
    port_of = ground (arith, s.entries token, o.found, o.port_of);
  }
]

-- What the relay sends to the client for a datagram on the session's socket.
reply_bytes-game_packet :
    (token port : ℕ) (c : SessionCache) (payload : Bytes)
    → IsConsistent c
    → IsOpen token port c
    → let out = reply_bytes (game_packet c port payload).1 in
      (out ≡ []) ⊎ (out ≡ Protocol.serialize (reply_packet token payload) ∷ [])
unfolding game_packet
reply_bytes-game_packet token port c payload v o =
    let (_, p, port_p, back) = v.keyed token o.info o.found in
    let port_of = o.port_of in
    let routed : token_by_port c port ≡ some token = ground arith in
    elim (Bool-cases (o.info.client_addr.port == 0)) [
      | inl unknown ↦ inl (rw (routed, game_packet) (rw o.found (rw unknown refl)))
      | inr known ↦ inr (rw (routed, game_packet) (rw o.found (rw known refl)))
    ]

pub asks-IsSound :
    (second token port : ℕ) (w : World) (src : SocketAddr) (payload : Bytes)
    → IsSound token port w
    → IsSound token port (asks second w src payload)
asks-IsSound second token port w src payload v =
    let (same, fits, backup) = step-kept second w.proxy (from_game src payload) v.seq_fits in
    let sent = relayed-from_game second w.proxy v.no_backup src payload in
    record {
      fits = v.fits;
      consistent = v.consistent;
      opened = v.opened;
      same_token = same ∙ v.same_token;
      seq_fits = fits;
      no_backup = backup ∙ v.no_backup;
      ours = λ bytes m. elim (append_cases _ m) [
        | inl new ↦ subst (IsOurs token (payload ∷ w.asked)) (sym (in_at_most sent new)) (
            subst
              (λ t.
                IsOurs token (payload ∷ w.asked)
                  (encode (data_packet t w.proxy.seq_counter payload)))
              (sym v.same_token)
              (IsOurs-data token w.proxy.seq_counter payload w.asked v.fits v.seq_fits))
        | inr old ↦ IsOurs-weaken token w.asked payload bytes (v.ours bytes old)
      ];
      replied = v.replied;
    }

pub ticks-IsSound :
    (second token port : ℕ) (w : World) (now : ℕ)
    → IsSound token port w
    → IsSound token port (ticks second w now)
ticks-IsSound second token port w now v =
    let (same, fits, backup) = step-kept second w.proxy (tick now) v.seq_fits in
    let sent = relayed-tick second w.proxy v.no_backup now in
    record {
      fits = v.fits;
      consistent = v.consistent;
      opened = v.opened;
      same_token = same ∙ v.same_token;
      seq_fits = fits;
      no_backup = backup ∙ v.no_backup;
      ours = λ bytes m. elim (append_cases _ m) [
        | inl new ↦ subst (IsOurs token w.asked) (sym (in_at_most sent new)) (
            subst (λ t. IsOurs token w.asked (encode (keepalive t w.proxy.seq_counter)))
              (sym v.same_token)
              (IsOurs-keepalive token w.proxy.seq_counter w.asked v.fits v.seq_fits))
        | inr old ↦ v.ours bytes old
      ];
      replied = v.replied;
    }

hands-IsSound :
    (second token port : ℕ) (w : World) (now : ℕ) (bytes : Bytes)
    → IsSound token port w
    → IsSound token port (hands second w now bytes)
hands-IsSound second token port w now bytes v =
    let (same, fits, backup) = step-kept second w.proxy (from_relay now bytes) v.seq_fits in
    record {
      fits = v.fits;
      consistent = v.consistent;
      opened = v.opened;
      same_token = same ∙ v.same_token;
      seq_fits = fits;
      no_backup = backup ∙ v.no_backup;
      ours = v.ours;
      replied = v.replied;
    }

answers-IsSound :
    (token port : ℕ) (w : World) (payload : Bytes)
    → IsSound token port w
    → IsSound token port (answers port w payload)
answers-IsSound token port w payload v =
    let shape = game_packet-SameShape w.cache port payload in
    let sent = reply_bytes-game_packet token port w.cache payload v.consistent v.opened in
    record {
      fits = v.fits;
      consistent = SameShape-IsConsistent shape v.consistent;
      opened = SameShape-IsOpen shape v.opened;
      same_token = v.same_token;
      seq_fits = v.seq_fits;
      no_backup = v.no_backup;
      ours = v.ours;
      replied = λ bytes m. elim (append_cases _ m) [
        | inl new ↦ (payload, head refl, in_at_most sent new)
        | inr old ↦ let (x, known, same) = v.replied bytes old in (x, tail known, same)
      ];
    }

-- A change of the cache alone keeps all that is said of the rest.
cached-IsSound :
    (token port : ℕ) (w : World) (d : SessionCache) (served : List ToGame)
    → IsSound token port w
    → IsConsistent d
    → IsOpen token port d
    → IsSound token port (record w { cache = d; served = served })
cached-IsSound token port w d served v consistent opened = record {
  fits = v.fits;
  consistent = consistent;
  opened = opened;
  same_token = v.same_token;
  seq_fits = v.seq_fits;
  no_backup = v.no_backup;
  ours = v.ours;
  replied = v.replied;
}

pub relays-IsSound :
    (v6t : Ipv6Text) (token port : ℕ) (w : World) (now : ℕ) (from : SocketAddr) (bytes : Bytes)
    → IsSound token port w
    → IsSound token port (relays v6t w now from bytes)
relays-IsSound v6t token port w now from bytes v =
    let shape = client_packet-SameShape v6t w.cache now from bytes in
    cached-IsSound token port w (client_packet v6t w.cache now from bytes).0
      (listed (client_packet v6t w.cache now from bytes).1 ++ w.served) v
      (SameShape-IsConsistent shape v.consistent) (SameShape-IsOpen shape v.opened)

module _ {v6t : Ipv6Text} {api_key : Bytes} {start_time : ℕ} where
  Housekeeping-Step :
      {c d : SessionCache}
      → Housekeeping v6t api_key start_time c d
      → System.Step v6t api_key start_time c d
  Housekeeping-Step (send_result answer) = System.send_result answer
  Housekeeping-Step (reply_sent reply) = System.reply_sent reply
  Housekeeping-Step (api_request header request bound now fresh) =
      System.api_request header request bound now fresh
  Housekeeping-Step (cleanup now) = System.cleanup now

module _ {v6t : Ipv6Text} {api_key : Bytes} {start_time second token port : ℕ} where
  pub Step-IsSound :
      {w u : World}
      → Step v6t api_key start_time second token port w u
      → IsSound token port w
      → IsSound token port u
  unfolding stop
  Step-IsSound {w} (game_asks src payload) v = asks-IsSound second token port w src payload v
  Step-IsSound {w} (timer_ticks now) v = ticks-IsSound second token port w now v
  Step-IsSound {w} proxy_stops v = record {
    fits = v.fits;
    consistent = v.consistent;
    opened = v.opened;
    same_token = v.same_token;
    seq_fits = v.seq_fits;
    no_backup = v.no_backup;
    ours = v.ours;
    replied = v.replied;
  }
  Step-IsSound {w} (client_heard now from bytes m) v =
      relays-IsSound v6t token port w now from bytes v
  Step-IsSound {w} (other_heard now from bytes other) v =
      relays-IsSound v6t token port w now from bytes v
  Step-IsSound {w} (server_answers payload) v = answers-IsSound token port w payload v
  Step-IsSound {w} (other_answers other payload ne) v =
      let shape = game_packet-SameShape w.cache other payload in
      cached-IsSound token port w (game_packet w.cache other payload).0 w.served v
        (SameShape-IsConsistent shape v.consistent) (SameShape-IsOpen shape v.opened)
  Step-IsSound {w} (relay_heard now bytes m) v = hands-IsSound second token port w now bytes v
  Step-IsSound {w} (relay_works d work opened) v =
      cached-IsSound token port w d w.served v
        (Step-IsConsistent (Housekeeping-Step work) v.consistent) opened
