-- ===== src/Client/Runs.antt =====
-- client/src-tauri/src: the running application, as a sequence of commands, of ticks of the monitor and
-- of rounds of the active local proxy.
pub mod Opening
pub mod Keeps
pub mod Boosting
pub mod Tokens
pub mod Configuration
use plgames_booster_up.Base.{ℕ, Bytes, Bool, Option, none, List, [], ◌∷◌}
use plgames_booster_up.Base.Results.{Op}
use plgames_booster_up.Client.Api.Types.{AuthTokens}
use plgames_booster_up.Client.Api.Requests
use plgames_booster_up.Client.App.{App, Env, Command, to_text, request_with}
use plgames_booster_up.Client.Proxy.{Input}
use plgames_booster_up.Client.App.Rounds.{round_active}
use plgames_booster_up.Client.App.Boost.{
  BoostRequest, connect, cmd_start_boost, cmd_stop_boost, cmd_get_boost_status,
}
use plgames_booster_up.Client.App.Commands.{
  cmd_login, cmd_register, cmd_logout, cmd_get_user, cmd_get_user_stats, cmd_activate_trial,
  cmd_get_games, cmd_search_games, cmd_get_nodes, cmd_ping_node, cmd_start_session,
  cmd_stop_session, cmd_get_session_history, cmd_detect_game, expired, refusal,
}
use plgames_booster_up.Client.App.Settings.{cmd_get_settings, cmd_update_settings, start_app}
use plgames_booster_up.Client.Monitor.{Monitor, tick}

pub data Action : Type 0 where
  login : (email password : Bytes) → Action
  register : (email username password : Bytes) → Action
  logout get_user get_user_stats activate_trial : Action
  -- The rest of such a command, which read these tokens before.
  late_user late_user_stats late_trial : AuthTokens → Action
  get_games : Option Bytes → Option Bool → Action
  search_games : Bytes → Action
  get_nodes : Action
  ping_node : Bytes → Action
  start_session : (game_slug node_id : Bytes) → Option Bool → Action
  stop_session : Bytes → Action
  get_session_history : Action
  start_boost : BoostRequest → Action
  -- The rest of a start whose test for an active boost was passed before: other actions may stand between
  -- the two, as the code releases the lock behind the test.
  tested_start : BoostRequest → Action
  stop_boost get_boost_status : Action
  detect_game : (processes : List Bytes) → Action
  get_settings : Action
  update_settings : (key value : Bytes) → Action
  -- A round of a task of the active local proxy.
  proxy_round : Input → Action
  monitor_tick : (now : ℕ) → (processes : List Bytes) → Action

-- The state of the loop behind a command, whose answer goes to the user interface.
abbrev pub command : {A : Type 0} → Command A → Monitor → Monitor
command c m = record m { app = (c m.app).1 }

-- The application as it starts, at the time `now`, over the two files that it finds.
unfoldable pub started : Env → ℕ → Option Bytes → Option Bytes → Monitor
unfolding start_app
started env now auth_file config_file = record {
  app = start_app env auth_file config_file;
  last_detected_slug = none;
  games_cache = [];
  cache_time = now;
  events = [];
}

-- The tasks of the boost change only the application.
abbrev pub working : (App → App) → Monitor → Monitor
working f m = record m { app = f m.app }

module _ (env : Env) (second : ℕ) where
  unfoldable pub perform : Action → Monitor → Monitor
  unfolding round_active tick cmd_login cmd_register cmd_logout cmd_get_user cmd_get_user_stats
      cmd_activate_trial cmd_get_games cmd_search_games cmd_get_nodes cmd_ping_node
      cmd_start_session cmd_stop_session cmd_get_session_history cmd_start_boost cmd_stop_boost
      cmd_get_boost_status cmd_detect_game cmd_get_settings cmd_update_settings
  perform (login email password) = command (cmd_login env email password)
  perform (register email username password) = command (cmd_register env email username password)
  perform logout = command (cmd_logout env)
  perform get_user = command (cmd_get_user env)
  perform get_user_stats = command (cmd_get_user_stats env)
  perform activate_trial = command (cmd_activate_trial env)
  perform (late_user tokens) =
      command (request_with env (expired env) (Requests.get_me env.server env.json) tokens)
  perform (late_user_stats tokens) =
      command (request_with env to_text (Requests.get_me_stats env.server env.json) tokens)
  perform (late_trial tokens) =
      command (request_with env refusal (Requests.activate_trial env.server env.json) tokens)
  perform (get_games category popular) = command (cmd_get_games env category popular)
  perform (search_games query) = command (cmd_search_games env query)
  perform get_nodes = command (cmd_get_nodes env)
  perform (ping_node node_id) = command (cmd_ping_node env node_id)
  perform (start_session game_slug node_id multipath) =
      command (cmd_start_session env game_slug node_id multipath)
  perform (stop_session session_id) = command (cmd_stop_session env session_id)
  perform get_session_history = command (cmd_get_session_history env)
  perform (start_boost args) = command (cmd_start_boost env args)
  perform (tested_start args) = command (connect env args)
  perform stop_boost = command (cmd_stop_boost env)
  perform get_boost_status = command cmd_get_boost_status
  perform (detect_game processes) = command (cmd_detect_game env processes)
  perform get_settings = command cmd_get_settings
  perform (update_settings key value) = command (cmd_update_settings env key value)
  perform (proxy_round input) = working (round_active second input)
  perform (monitor_tick now processes) = tick env second now processes

  unfoldable pub run : List Action → Monitor → Monitor
  unfolding perform
  run [] m = m
  run (a ∷ rest) m = run rest (perform a m)
