-- ===== src/Client/Runs/Boosting.antt =====
-- client/src-tauri/src: the boost and its session over a run.
use plgames_booster_up.Base.{ℕ, refl, Bytes, Option, List}
use plgames_booster_up.Client.App.{Env}
use plgames_booster_up.Client.App.Rounds.{round_active-IsBoosting}
use plgames_booster_up.Client.App.Boosting.{
  IsBoosting, set_active-IsBoosting, taken-IsBoosting, IsBoosting-IsIndependent,
}
use plgames_booster_up.Client.App.Settings.{start_app}
use plgames_booster_up.Client.Runs.{Action, run, started}
use plgames_booster_up.Client.Runs.Opening.{IsKept}
use plgames_booster_up.Client.Runs.Keeps.{run-keeps}

IsBoosting-IsKept : (env : Env) → IsKept env IsBoosting
IsBoosting-IsKept env = record {
  free = IsBoosting-IsIndependent env;
  starting = λ n sent s h. record {
    paired = h.paired;
    runs = h.runs;
    accounted = h.accounted;
    stopped = h.stopped;
  };
  activating = set_active-IsBoosting;
  rounding = round_active-IsBoosting;
  ending = taken-IsBoosting env;
  configuring = λ cfg s h. record {
    paired = h.paired;
    runs = h.runs;
    accounted = h.accounted;
    stopped = h.stopped;
  };
}

-- After every run of the application, from its start on, a boost is active exactly when a session is
-- noted for it, and it runs. Each boost that ever became active, told by its session's token, is still
-- the active one or was stopped, in that order from the latest back, and none of those that were stopped
-- runs.
pub run-IsBoosting :
    (env : Env) (second now : ℕ) (auth_file config_file : Option Bytes) (actions : List Action)
    → IsBoosting (run env second actions (started env now auth_file config_file)).app
unfolding started start_app
run-IsBoosting env second now auth_file config_file actions =
    run-keeps env IsBoosting (IsBoosting-IsKept env) second actions
      (started env now auth_file config_file)
      (record { paired = refl; runs = tt; accounted = refl; stopped = tt })
