-- ===== src/Client/Proxy/Typed.antt =====
-- client/src-tauri/src/udp_proxy.rs: every run of the tasks keeps the machine types.
use plgames_booster_up.Base.{ℕ, ◌≡◌, true, List, [], ◌∷◌, All, All-append, Bool-cases, inl, inr}
use plgames_booster_up.Client.Proxy.{
  UdpProxy, Input, from_game, from_relay, from_backup, tick, step, run,
}
use plgames_booster_up.Client.Proxy.Types.{IsProxy, IsSent, IsInput}
use plgames_booster_up.Client.Proxy.Rounds.{
  IsRound, game_datagram-IsRound, relay_datagram-IsRound, keepalive_tick-IsRound, backed-IsRound,
}

step-IsRound :
    (second : ℕ) (p : UdpProxy) (i : Input) → IsProxy p → IsInput i → IsRound (step second p i)
unfolding step
step-IsRound second p i v h = elim (Bool-cases p.running) [
  | inr off ↦ simp (off, step) (v, tt)
  | inl on ↦ round i h on
]
  where
    round : (i : Input) → IsInput i → p.running ≡ true → IsRound (step second p i)
    round (from_game src payload) h on = simp (on, step) (game_datagram-IsRound p src payload v h)
    round (from_relay now bytes) h on = simp (on, step) (relay_datagram-IsRound p now bytes v h)
    round (from_backup bytes) h on = simp (on, step) (backed-IsRound p bytes p.backup v h)
    round (tick now) h on = simp (on, step) (keepalive_tick-IsRound second p now v)

-- Through any sequence of datagrams of bytes and of ticks, the proxy's numbers stay in the range of
-- their machine types and the set of seen numbers within 10000, if they are so at the start, and what
-- it sends consists of bytes, with a whole header where a relay is to read it.
pub run-IsRound :
    (second : ℕ) (p : UdpProxy) (inputs : List Input)
    → IsProxy p
    → All IsInput inputs
    → IsProxy (run second p inputs).0 × All IsSent (run second p inputs).1
unfolding run
run-IsRound second p [] v h = (v, tt)
run-IsRound second p (i ∷ is) v h =
    let (w, sent) = step-IsRound second p i v h.0 in
    let (last, more) = run-IsRound second (step second p i).0 is w h.1 in
    (last, All-append IsSent (step second p i).1 (run second (step second p i).0 is).1 sent more)
