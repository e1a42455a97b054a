-- ===== src/Client/Runs/Keeps.antt =====
-- client/src-tauri/src: what a run keeps, for every predicate that its parts keep.
use plgames_booster_up.Base.{
  ℕ, Bytes, Option, none, some, List, [], ◌∷◌, is_some, Option-cases, Bool-cases, inl, inr,
}
use plgames_booster_up.Base.Results.{Result-cases, pure, Keeps, bind-Keeps}
use plgames_booster_up.Base.Floats.{F64}
use plgames_booster_up.Client.Api.Types.{GameProfile, NodeInfo, GameListResponse}
use plgames_booster_up.Client.Api.Http.{History}
use plgames_booster_up.Client.Api.Requests
use plgames_booster_up.Client.GameDetector.{detect_running_game}
use plgames_booster_up.Client.App.{App, Env, Command, to_text, call}
use plgames_booster_up.Client.App.Frame.{
  call-Keeps, authorized-Keeps, request_with-Keeps, sign_in-Keeps, to_text-Keeps, refusal-Keeps,
  expired-Keeps,
}
use plgames_booster_up.Client.App.Boost.{
  BoostRequest, connect, check_free, cmd_start_boost, cmd_stop_boost, cmd_get_boost_status,
  is_running,
}
use plgames_booster_up.Client.App.Commands.{
  cmd_login, cmd_register, cmd_logout, cmd_get_user, cmd_get_user_stats, cmd_activate_trial,
  cmd_get_games, cmd_search_games, cmd_get_nodes, cmd_ping_node, cmd_start_session,
  cmd_stop_session, cmd_get_session_history, cmd_detect_game,
}
use plgames_booster_up.Client.App.Settings.{
  set_field, key_of, cmd_get_settings, cmd_update_settings,
}
use plgames_booster_up.Client.Monitor.{
  Monitor, auto_connect, announce, node_of, connect_if_enabled, game_opened, game_ended,
}
use plgames_booster_up.Client.Monitor.Ticks.{tick-brings}
use plgames_booster_up.Client.Monitor.BestNode.{find_best_node}
use plgames_booster_up.Client.App.Commands.{refusal, expired}
use plgames_booster_up.Client.Runs.Opening.{IsKept, connect-Keeps, auto_connect-Keeps}
use plgames_booster_up.Client.Runs.{
  Action, login, register, logout, get_user, get_user_stats, activate_trial, late_user,
  late_user_stats, late_trial, get_games, search_games, get_nodes, ping_node, start_session,
  stop_session, get_session_history, start_boost, tested_start, stop_boost, get_boost_status,
  detect_game, get_settings, update_settings, proxy_round, monitor_tick, perform, run,
}

module _ (env : Env) (P : App → Type 0) (kept : IsKept env P) where
  cmd_start_boost-Keeps : (args : BoostRequest) → Keeps P (cmd_start_boost env args)
  unfolding cmd_start_boost check_free
  cmd_start_boost-Keeps args =
      bind-Keeps P check_free (λ u. connect env args) checked (λ u. connect-Keeps env P kept args)
    where
      checked : Keeps P check_free
      checked s h = elim (Option-cases s.active_proxy) [
        | inl e ↦ simp (check_free, e) h
        | inr (b, e) ↦ simp (check_free, e) h
      ]

  cmd_get_boost_status-Keeps : Keeps P cmd_get_boost_status
  unfolding cmd_get_boost_status
  cmd_get_boost_status-Keeps s h = elim (Option-cases s.active_proxy) [
    | inl e ↦ simp (cmd_get_boost_status, e) h
    | inr (b, e) ↦ elim (Bool-cases (is_running b)) [
      | inl r ↦ simp (cmd_get_boost_status, e, r) h
      | inr r ↦ simp (cmd_get_boost_status, e, r) h
    ]
  ]

  cmd_update_settings-Keeps : (key value : Bytes) → Keeps P (cmd_update_settings env key value)
  unfolding cmd_update_settings
  cmd_update_settings-Keeps key value s h = elim (Option-cases (key_of key)) [
    | inl e ↦ rw (cmd_update_settings, e) h
    | inr (k, e) ↦ rw (cmd_update_settings, e) (kept.configuring (set_field k value s.config) s h)
  ]

  cmd_detect_game-Keeps : (processes : List Bytes) → Keeps P (cmd_detect_game env processes)
  unfolding cmd_detect_game
  cmd_detect_game-Keeps processes =
      bind-Keeps P games (λ resp. pure (detect_running_game env.to_lowercase processes resp.items))
        (call-Keeps env P kept.free to_text _ (to_text-Keeps env P kept.free)) (λ resp s h. h)
    where
      games : Command GameListResponse
      games = call to_text λ api. Requests.get_games env.server env.json api none none

  connect_if_enabled-keeps :
      (game : GameProfile) (node : Option NodeInfo) (m : Monitor)
      → P m.app
      → P (connect_if_enabled env game node m).app
  unfolding connect_if_enabled
  connect_if_enabled-keeps game none m h = h
  connect_if_enabled-keeps game (some node) m h = elim (Bool-cases m.app.config.auto_connect) [
    | inl e ↦ elim (Result-cases (auto_connect env game node m.app.config.multipath m.app).0) [
      | inl (port, r) ↦
          simp (connect_if_enabled, e, r)
            (auto_connect-Keeps env P kept game node m.app.config.multipath m.app h)
      | inr (x, r) ↦
          simp (connect_if_enabled, e, r)
            (auto_connect-Keeps env P kept game node m.app.config.multipath m.app h)
    ]
    | inr e ↦ simp (connect_if_enabled, e) h
  ]

  announce-keeps :
      (game : GameProfile) (best : Option (NodeInfo × F64)) (m : Monitor)
      → P m.app
      → P (announce game best m).app
  unfolding announce
  announce-keeps game none m h = h
  announce-keeps game (some (node, ping)) m h = h

  game_opened-keeps : (game : GameProfile) (m : Monitor) → P m.app → P (game_opened env game m).app
  unfolding game_opened
  game_opened-keeps game m h = elim (Bool-cases (is_some m.app.active_proxy)) [
    | inl e ↦ rw (game_opened, e) h
    | inr e ↦
        rw (game_opened, e)
          (connect_if_enabled-keeps game (node_of found.0) (announce game found.0 m1)
            (announce-keeps game found.0 m1 (free_sending found.1)))
  ]
    where
      found : Option (NodeInfo × F64) × History
      found = find_best_node env.server env.json m.app.api m.app.requests

      m1 : Monitor
      m1 = record m {
        last_detected_slug = some game.slug;
        app = record (m.app) { requests = found.1 };
      }

      free_sending : (sent : History) → P (record (m.app) { requests = sent })
      free_sending sent = kept.free.sending sent m.app h

  game_ended-keeps : (m : Monitor) → P m.app → P (game_ended env m).app
  unfolding game_ended
  game_ended-keeps m h = elim (Bool-cases (is_some m.app.active_proxy)) [
    | inl e ↦ rw (game_ended, e) (kept.ending m.app h)
    | inr e ↦ rw (game_ended, e) h
  ]

  pub perform-keeps :
      (second : ℕ) (a : Action) (m : Monitor) → P m.app → P (perform env second a m).app
  unfolding perform cmd_login cmd_register cmd_logout cmd_get_user cmd_get_user_stats
      cmd_activate_trial cmd_get_games cmd_search_games cmd_get_nodes cmd_ping_node
      cmd_start_session cmd_stop_session cmd_get_session_history cmd_stop_boost cmd_get_settings
  perform-keeps second (login email password) m h =
      sign_in-Keeps env P kept.free (λ api. Requests.login env.server env.json api email password)
        m.app h
  perform-keeps second (register email username password) m h =
      sign_in-Keeps env P kept.free
        (λ api. Requests.register env.server env.json api email username password) m.app h
  perform-keeps second logout m h = kept.free.forgetting m.app h
  perform-keeps second get_user m h =
      authorized-Keeps env P kept.free (expired env)
        (λ api. Requests.get_me env.server env.json api) (expired-Keeps env P kept.free) m.app h
  perform-keeps second get_user_stats m h =
      authorized-Keeps env P kept.free to_text
        (λ api. Requests.get_me_stats env.server env.json api) (to_text-Keeps env P kept.free) m.app
        h
  perform-keeps second activate_trial m h =
      authorized-Keeps env P kept.free refusal
        (λ api. Requests.activate_trial env.server env.json api) (refusal-Keeps env P kept.free)
        m.app h
  perform-keeps second (late_user tokens) m h =
      request_with-Keeps env P kept.free (expired env) (Requests.get_me env.server env.json) tokens
        (expired-Keeps env P kept.free) m.app h
  perform-keeps second (late_user_stats tokens) m h =
      request_with-Keeps env P kept.free to_text (Requests.get_me_stats env.server env.json) tokens
        (to_text-Keeps env P kept.free) m.app h
  perform-keeps second (late_trial tokens) m h =
      request_with-Keeps env P kept.free refusal (Requests.activate_trial env.server env.json)
        tokens (refusal-Keeps env P kept.free) m.app h
  perform-keeps second (get_games category popular) m h =
      call-Keeps env P kept.free to_text
        (λ api. Requests.get_games env.server env.json api category popular)
        (to_text-Keeps env P kept.free) m.app h
  perform-keeps second (search_games query) m h =
      call-Keeps env P kept.free to_text
        (λ api. Requests.search_games env.server env.json api query) (to_text-Keeps env P kept.free)
        m.app h
  perform-keeps second get_nodes m h =
      call-Keeps env P kept.free to_text (λ api. Requests.get_nodes env.server env.json api)
        (to_text-Keeps env P kept.free) m.app h
  perform-keeps second (ping_node node_id) m h =
      call-Keeps env P kept.free to_text (λ api. Requests.ping_node env.server env.json api node_id)
        (to_text-Keeps env P kept.free) m.app h
  perform-keeps second (start_session game_slug node_id multipath) m h =
      authorized-Keeps env P kept.free to_text
        (λ api.
          Requests.start_session env.server env.json api
            (record { game_slug = game_slug; node_id = node_id; multipath = multipath }))
        (to_text-Keeps env P kept.free) m.app h
  perform-keeps second (stop_session session_id) m h =
      authorized-Keeps env P kept.free to_text
        (λ api. Requests.stop_session env.server env.json api session_id)
        (to_text-Keeps env P kept.free) m.app h
  perform-keeps second get_session_history m h =
      authorized-Keeps env P kept.free to_text
        (λ api. Requests.get_session_history env.server env.json api)
        (to_text-Keeps env P kept.free) m.app h
  perform-keeps second (start_boost args) m h = cmd_start_boost-Keeps args m.app h
  perform-keeps second (tested_start args) m h = connect-Keeps env P kept args m.app h
  perform-keeps second stop_boost m h = kept.ending m.app h
  perform-keeps second get_boost_status m h = cmd_get_boost_status-Keeps m.app h
  perform-keeps second (detect_game processes) m h = cmd_detect_game-Keeps processes m.app h
  perform-keeps second get_settings m h = h
  perform-keeps second (update_settings key value) m h = cmd_update_settings-Keeps key value m.app h
  perform-keeps second (proxy_round input) m h = kept.rounding second input m.app h
  perform-keeps second (monitor_tick now processes) m h =
      tick-brings env P P kept.free.sending (λ s k. k) game_opened-keeps game_ended-keeps second now
        processes m h

  -- A run keeps the predicate.
  pub run-keeps :
      (second : ℕ) (actions : List Action) (m : Monitor)
      → P m.app
      → P (run env second actions m).app
  unfolding run
  run-keeps second [] m h = h
  run-keeps second (a ∷ rest) m h =
      run-keeps second rest (perform env second a m) (perform-keeps second a m h)
