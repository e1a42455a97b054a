-- ===== src/Tunnel/Invariant/Outward.antt =====
-- client/src-tauri/src/udp_proxy.rs: what the relay reads from the datagrams of a proxy that has no
-- backup relay.
use plgames_booster_up.Base.{
  ℕ, ◌≡◌, ◌<◌, ◌^◌, ◌⊎◌, refl, subst, Bytes, false, none, some, List, [], ◌∷◌, arith, inl, inr,
  Bool-cases,
}
use plgames_booster_up.Net.{SocketAddr}
use plgames_booster_up.Relay.Protocol
use plgames_booster_up.Relay.Protocol.{has_flag}
use plgames_booster_up.Client.Protocol.{data_packet, keepalive, encode}
use plgames_booster_up.Client.Protocol.Interop.{to_relay, relay_parse-encode}
use plgames_booster_up.Client.Proxy.{
  UdpProxy, Input, from_game, from_relay, from_backup, tick, step, game_datagram, relay_datagram,
  backup_datagram, keepalive_tick, keepalive_answer, deliver,
}
use plgames_booster_up.Tunnel.{relayed}
use mathlib.Core.List.{Memᴰ}
use mathlib.Core.List.Memᴰ.{head, tail, eq_of_singleton}

-- What the relay reads from a datagram of the proxy: the session's token, and if it is data a
-- payload of the game.
abbrev pub IsOurs : ℕ → List Bytes → Bytes → Type 0
IsOurs token asked bytes =
    (packet : Protocol.PlgPacket) × (Protocol.parse bytes ≡ some packet)
    × (packet.session_id ≡ token)
    × (has_flag packet.flags Protocol.flag_keepalive ≡ false
        → has_flag packet.flags Protocol.flag_control ≡ false
        → Memᴰ packet.payload asked)

pub in_at_most :
    {A : Type 0} {x y : A} {xs : List A} → (xs ≡ []) ⊎ (xs ≡ y ∷ []) → Memᴰ x xs → x ≡ y
in_at_most {x = x} (inl e) m = elim (subst (Memᴰ x) e m) [ ]
in_at_most {x = x} (inr e) m = eq_of_singleton (subst (Memᴰ x) e m)

-- What the proxy sends to the relay for a datagram of the game, and at a tick.
module _ (second : ℕ) (p : UdpProxy) (no_backup : p.backup ≡ none) where
  pub relayed-from_game :
      (src : SocketAddr) (payload : Bytes)
      → let out = relayed (step second p (from_game src payload)).1 in
        (out ≡ []) ⊎ (out ≡ encode (data_packet p.session_token p.seq_counter payload) ∷ [])
  unfolding step game_datagram
  relayed-from_game src payload = elim (Bool-cases p.running) [
    | inl on ↦ inr (rw on (rw no_backup refl))
    | inr off ↦ inl (rw off refl)
  ]

  pub relayed-tick :
      (now : ℕ)
      → let out = relayed (step second p (tick now)).1 in
        (out ≡ []) ⊎ (out ≡ encode (keepalive p.session_token p.seq_counter) ∷ [])
  unfolding step keepalive_tick
  relayed-tick now = elim (Bool-cases p.running) [
    | inl on ↦ inr (rw on (rw no_backup refl))
    | inr off ↦ inl (rw off refl)
  ]

-- What a round leaves alone.
pub step-kept :
    (second : ℕ) (p : UdpProxy) (i : Input)
    → p.seq_counter < 2 ^ 32
    → let q = (step second p i).0 in
      (q.session_token ≡ p.session_token) × (q.seq_counter < 2 ^ 32) × (q.backup ≡ p.backup)
unfolding step game_datagram relay_datagram backup_datagram keepalive_tick keepalive_answer deliver
step-kept second p (from_game src payload) h = ground arith
step-kept second p (from_relay now bytes) h = ground arith
step-kept second p (from_backup bytes) h = ground arith
step-kept second p (tick now) h = ground arith

pub IsOurs-weaken :
    (token : ℕ) (asked : List Bytes) (x bytes : Bytes)
    → IsOurs token asked bytes
    → IsOurs token (x ∷ asked) bytes
IsOurs-weaken token asked x bytes (packet, parsed, same, carried) =
    (packet, parsed, same, λ alive control. tail (carried alive control))

pub IsOurs-data :
    (token seq : ℕ) (payload : Bytes) (asked : List Bytes)
    → token < 2 ^ 32
    → seq < 2 ^ 32
    → IsOurs token (payload ∷ asked) (encode (data_packet token seq payload))
unfolding data_packet
IsOurs-data token seq payload asked ht hs =
    let packet = data_packet token seq payload in
    (to_relay packet, relay_parse-encode packet ht hs, refl, λ alive control. head refl)

pub IsOurs-keepalive :
    (token seq : ℕ) (asked : List Bytes)
    → token < 2 ^ 32
    → seq < 2 ^ 32
    → IsOurs token asked (encode (keepalive token seq))
unfolding keepalive
IsOurs-keepalive token seq asked ht hs =
    let packet = keepalive token seq in
    (to_relay packet, relay_parse-encode packet ht hs, refl, λ alive control. ground arith)
