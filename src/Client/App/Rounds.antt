-- ===== src/Client/App/Rounds.antt =====
-- client/src-tauri/src: the tasks of the active boost at work. A round of a task of the local proxy is
-- part of the application's run; the interceptor has other inputs, and takes none of the proxy's.
use plgames_booster_up.Base.{
  ℕ, ◌≡◌, refl, arith, ap, sym, subst, ◌∙◌, none, some, List, [], is_some, ◌++◌, Option-cases, inl,
  inr,
}
use plgames_booster_up.Client.Proxy
use plgames_booster_up.Client.Proxy.{Input}
use plgames_booster_up.Client.Proxy.Running.{step-serving}
use plgames_booster_up.Client.App.Boost.{boost_token}
use plgames_booster_up.Client.App.{ActiveBoost, proxy, wind_divert, App}
use plgames_booster_up.Client.App.Boosting.{IsBoosting, Runs}

-- The boost behind a round, and what the round sends.
unfoldable pub round : ℕ → Input → ActiveBoost → ActiveBoost × List Proxy.Sent
round second input (proxy p) = let (p', sent) = Proxy.step second p input in (proxy p', sent)
round second input (wind_divert w) = (wind_divert w, [])

unfoldable pub round_active : ℕ → Input → App → App
unfolding round
round_active second input s = elim s.active_proxy [
  | none ↦ s
  | some b ↦
      let (b', sent) = round second input b in
      record s { active_proxy = some b'; datagrams = s.datagrams ++ sent }
]

-- Only the active boost and the datagrams differ.
pub round_active-rest :
    (second : ℕ) (input : Input) (s : App)
    → round_active second input s ≡ record s {
      active_proxy = (round_active second input s).active_proxy;
      datagrams = (round_active second input s).datagrams;
    }
unfolding round_active
round_active-rest second input s = elim (Option-cases s.active_proxy) [
  | inl e ↦ simp (round_active, e) (ap (λ o. record s { active_proxy = o }) e)
  | inr (b, e) ↦ simp (round_active, e) refl
]

round-Runs :
    (second : ℕ) (input : Input) (b : ActiveBoost)
    → Runs (some b)
    → Runs (some (round second input b).0)
unfolding round
round-Runs second input (proxy p) r = ap (λ q. q.0) (step-serving second p input) ∙ r
round-Runs second input (wind_divert w) r = r

round-boost_token :
    (second : ℕ) (input : Input) (b : ActiveBoost)
    → boost_token (round second input b).0 ≡ boost_token b
unfolding round
round-boost_token second input (proxy p) = ap (λ q. q.1) (step-serving second p input)
round-boost_token second input (wind_divert w) = refl

-- A round leaves a boost that runs running, with its session.
pub round_active-IsBoosting :
    (second : ℕ) (input : Input) (s : App) → IsBoosting s → IsBoosting (round_active second input s)
unfolding round_active
round_active-IsBoosting second input s h = elim (Option-cases s.active_proxy) [
  | inl e ↦ simp (round_active, e) h
  | inr (b, e) ↦
      simp (round_active, e)
        (record {
          paired = ap is_some (sym e) ∙ h.paired;
          runs = round-Runs second input b (subst Runs e h.runs);
          accounted = ground (arith, h.accounted, e, round-boost_token second input b);
          stopped = h.stopped;
        })
]
