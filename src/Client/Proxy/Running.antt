-- ===== src/Client/Proxy/Running.antt =====
-- client/src-tauri/src/udp_proxy.rs: what no round of a task changes.
use plgames_booster_up.Base.{ℕ, ◌≡◌, Bool, Bytes, Option-cases, Bool-cases, inl, inr, arith}
use plgames_booster_up.Base.Maps.{get}
use plgames_booster_up.Net.{SocketAddr}
use plgames_booster_up.Client.Protocol.{PlgPacket, parse}
use plgames_booster_up.Client.Proxy.{
  UdpProxy, Input, from_game, from_relay, from_backup, tick, elem, deliver, keepalive_answer,
  game_datagram, relay_datagram, backup_datagram, keepalive_tick, step,
}

-- Whether the proxy runs, and its session's token.
abbrev pub serving : UdpProxy → Bool × ℕ
serving p = (p.running, p.session_token)

deliver-serving : (p : UdpProxy) (packet : PlgPacket) → serving (deliver p packet).0 ≡ serving p
unfolding deliver
deliver-serving p packet = elim (Bool-cases (elem packet.seq_number p.seen_seqs)) [
  | inl e ↦ ground (arith, e)
  | inr e ↦ elim (Option-cases p.game_addr) [
    | inl g ↦ ground (arith, e, g)
    | inr (a, g) ↦ ground (arith, e, g)
  ]
]

keepalive_answer-serving :
    (p : UdpProxy) (now seq : ℕ) → serving (keepalive_answer p now seq) ≡ serving p
unfolding keepalive_answer
keepalive_answer-serving p now seq = elim (Option-cases (get seq p.keepalive_sent)) [
  | inl e ↦ ground (arith, e)
  | inr (t, e) ↦ ground (arith, e)
]

game_datagram-serving :
    (p : UdpProxy) (src : SocketAddr) (payload : Bytes)
    → serving (game_datagram p src payload).0 ≡ serving p
unfolding game_datagram
game_datagram-serving p src payload = elim (Option-cases p.backup) [
  | inl e ↦ ground (arith, e)
  | inr (a, e) ↦ ground (arith, e)
]

keepalive_tick-serving :
    (second : ℕ) (p : UdpProxy) (now : ℕ) → serving (keepalive_tick second p now).0 ≡ serving p
unfolding keepalive_tick
keepalive_tick-serving second p now = elim (Option-cases p.backup) [
  | inl e ↦ ground (arith, e)
  | inr (a, e) ↦ ground (arith, e)
]

relay_datagram-serving :
    (p : UdpProxy) (now : ℕ) (bytes : Bytes) → serving (relay_datagram p now bytes).0 ≡ serving p
unfolding relay_datagram
relay_datagram-serving p now bytes = elim (Option-cases (parse bytes)) [
  | inl e ↦ ground (arith, e)
  | inr (packet, e) ↦
      ground (arith, e, deliver-serving p packet, keepalive_answer-serving p now packet.seq_number)
]

backup_datagram-serving :
    (p : UdpProxy) (bytes : Bytes) → serving (backup_datagram p bytes).0 ≡ serving p
unfolding backup_datagram
backup_datagram-serving p bytes = elim (Option-cases (parse bytes)) [
  | inl e ↦ ground (arith, e)
  | inr (packet, e) ↦ ground (arith, e, deliver-serving p packet)
]

-- A round leaves a running proxy running, for the same session.
pub step-serving :
    (second : ℕ) (p : UdpProxy) (input : Input) → serving (step second p input).0 ≡ serving p
unfolding step
step-serving second p (from_game src payload) = ground (arith, game_datagram-serving p src payload)
step-serving second p (from_relay now bytes) = ground (arith, relay_datagram-serving p now bytes)
step-serving second p (from_backup bytes) = elim (Option-cases p.backup) [
  | inl e ↦ ground (arith, e)
  | inr (a, e) ↦ ground (arith, e, backup_datagram-serving p bytes)
]
step-serving second p (tick now) = ground (arith, keepalive_tick-serving second p now)
