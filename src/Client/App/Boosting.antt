-- ===== src/Client/App/Boosting.antt =====
-- client/src-tauri/src/commands.rs: the boost and its session, and what the steps of the commands do to
-- them.
use plgames_booster_up.Base.{
  ◌≡◌, ap, sym, arith, refl, ◌∙◌, Bytes, true, false, Option, none, some, is_some, All,
  Option-cases, inl, inr, List, [], ◌∷◌, ◌++◌, map,
}
use plgames_booster_up.Client.App.Rest.{stop_active-rest, end_session-rest}
use plgames_booster_up.Client.App.{
  ActiveBoost, proxy, wind_divert, App, Env, store_tokens, forget_tokens,
}
use plgames_booster_up.Client.App.Frame.{IsIndependent}
use plgames_booster_up.Client.App.Boost.{
  boost_token, is_running, stop, stop_active, set_active, end_session,
}
use plgames_booster_up.Client.Proxy
use plgames_booster_up.Client.WinDivert

abbrev pub Runs : Option ActiveBoost → Type 0
Runs none = Unit {0}
Runs (some b) = is_running b ≡ true

abbrev pub in_list : Option ActiveBoost → List ActiveBoost
in_list none = []
in_list (some b) = b ∷ []

-- A boost is active as long as its session is, and it runs. The boosts that ever became active, each with
-- its session's token, are the active one and those that were stopped, and these do not run.
pub record IsBoosting (s : App) : Type 0 where
  pub paired : is_some s.active_proxy ≡ is_some s.active_session_id
  pub runs : Runs s.active_proxy
  pub accounted : s.activated ≡ map boost_token (in_list s.active_proxy ++ s.stopped)
  pub stopped : All (λ b. is_running b ≡ false) s.stopped

stop-stops : (b : ActiveBoost) → is_running (stop b) ≡ false
unfolding stop Proxy.stop WinDivert.stop
stop-stops (proxy p) = refl
stop-stops (wind_divert w) = refl

pub IsBoosting-IsIndependent : (env : Env) → IsIndependent env IsBoosting
unfolding store_tokens forget_tokens
IsBoosting-IsIndependent env = record {
  sending = λ sent s h. record {
    paired = h.paired;
    runs = h.runs;
    accounted = h.accounted;
    stopped = h.stopped;
  };
  storing = λ auth s h. record {
    paired = h.paired;
    runs = h.runs;
    accounted = h.accounted;
    stopped = h.stopped;
  };
  forgetting = λ s h. record {
    paired = h.paired;
    runs = h.runs;
    accounted = h.accounted;
    stopped = h.stopped;
  };
}

boost_token-stop : (b : ActiveBoost) → boost_token (stop b) ≡ boost_token b
unfolding stop Proxy.stop WinDivert.stop
boost_token-stop (proxy p) = refl
boost_token-stop (wind_divert w) = refl

-- Whether it was active or is stopped now, a boost is accounted for.
stop_active-accounted :
    (s : App) → IsBoosting s → s.activated ≡ map boost_token (stop_active s).stopped
unfolding stop_active
stop_active-accounted s h = elim (Option-cases s.active_proxy) [
  | inl e ↦ ground (arith, h.accounted, e)
  | inr (b, e) ↦ ground (arith, h.accounted, e, boost_token-stop b)
]

stop_active-stopped :
    (s : App) → IsBoosting s → All (λ b. is_running b ≡ false) (stop_active s).stopped
unfolding stop_active
stop_active-stopped s h = elim (Option-cases s.active_proxy) [
  | inl e ↦ simp (stop_active, e) (h.stopped)
  | inr (b, e) ↦ simp (stop_active, e) (stop-stops b, h.stopped)
]

-- A new boost that runs.
pub set_active-IsBoosting :
    (b : ActiveBoost) (sid : Bytes) (s : App)
    → is_running b ≡ true
    → IsBoosting s
    → IsBoosting (set_active b sid s)
unfolding set_active
set_active-IsBoosting b sid s r h = record {
  paired = refl;
  runs = r;
  accounted = ap (λ ts. boost_token b ∷ ts) (stop_active-accounted s h);
  stopped = stop_active-stopped s h;
}

-- The boost and the session are taken.
pub taken-IsBoosting :
    (env : Env) (s : App) → IsBoosting s → IsBoosting (end_session env (stop_active s))
taken-IsBoosting env s h =
    let ended = end_session-rest env (stop_active s) in
    let gone = ap (λ t. t.active_proxy) ended ∙ ap (λ t. t.active_proxy) (stop_active-rest s) in
    record {
      paired = rw (gone, ap (λ t. t.active_session_id) ended) refl;
      runs = rw gone tt;
      accounted =
          ap (λ t. t.activated) ended
          ∙ ap (λ t. t.activated) (stop_active-rest s)
          ∙ stop_active-accounted s h
          ∙ sym (
              ap (λ o. map boost_token (in_list o ++ (end_session env (stop_active s)).stopped))
                gone
              ∙ ap (λ t. map boost_token t.stopped) ended);
      stopped = rw (ap (λ t. t.stopped) ended) (stop_active-stopped s h);
    }
