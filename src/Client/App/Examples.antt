-- ===== src/Client/App/Examples.antt =====
-- The theorems about the client's application at concrete values.
mod Codecs
mod Values
use plgames_booster_up.Base.{
  suc, zero, ◌+◌, ◌≡◌, ◌≢◌, ◌≤◌, ◌⊎◌, refl, arith, Bytes, codes, Bool, true, ◌&&◌, Option, none,
  some, List, [], ◌∷◌, ◌++◌, ◌==◌, length, bytes_eq, if◌then◌else◌,
}
use plgames_booster_up.Base.Int.{pos}
use plgames_booster_up.Base.Results.{ok, err, EndsIn}
use plgames_booster_up.Net.{v4, SocketAddr}
use plgames_booster_up.Client.Api.Types.{
  TokenResponse, User, GameProfile, NodeInfo, SessionStartResponse, AuthTokens,
}
use plgames_booster_up.Client.Api.Http.{server_error, Method, HttpRequest, History, Server, Json}
use plgames_booster_up.Client.Api.Requests
use plgames_booster_up.Client.Api.Requests.{ApiClient, with_auto_refresh, stop_request}
use plgames_booster_up.Client.Api.Refresh.{
  exchange-Sends, with_auto_refresh-history, failed_retry_loses_tokens,
}
use plgames_booster_up.Client.Api.Answers.{CameFrom, with_auto_refresh-CameFrom}
use plgames_booster_up.Client.Store.{AppConfig, default_config, Codec, succeeds, fails}
use plgames_booster_up.Client.App.{
  ActiveBoost, proxy, App, Env, unknown_setting, to_text, authorized, request_with, session_expired,
  forget_tokens,
}
use plgames_booster_up.Client.App.Boost.{BoostRequest, connect, cmd_start_boost, cmd_stop_boost}
use plgames_booster_up.Client.App.Commands.{sign_in, cmd_logout, expired}
use plgames_booster_up.Client.App.Late.{late_user_signs_out}
use plgames_booster_up.Client.App.Settings.{Key, name, start_app, cmd_update_settings}
use plgames_booster_up.Client.App.Outcomes.{
  SameBoost, IsConnected, session_request, cmd_start_boost_outcome,
}
use plgames_booster_up.Client.App.Sessions.{
  StopsBoost, no_request_after_opening, cmd_stop_boost-StopsBoost, logout_keeps_session_open,
}
use plgames_booster_up.Client.App.SignIn.{SameTokens, IsSignedIn, sign_in_outcome}
use plgames_booster_up.Client.App.Updates.{setting, meaning, cmd_update_settings_lem}
use plgames_booster_up.Client.App.Boosting.{IsBoosting}
use plgames_booster_up.Client.Monitor.{Monitor, tick}
use plgames_booster_up.Client.Monitor.Ticks.{IsManual, NoStart, tick-IsManual, tick-active}
use plgames_booster_up.Client.GameDetector.{RunsAs, detect_running_game, detect_running_game_lem}
use plgames_booster_up.Client.Runs.{
  Action, login, start_boost, stop_boost, update_settings, monitor_tick, run, started,
}
use plgames_booster_up.Client.Runs.Tokens.{IsCodec, usable, tokens_survive_restart}
use plgames_booster_up.Client.Runs.Configuration.{config_survives_restart}
use plgames_booster_up.Client.Runs.Boosting.{run-IsBoosting}
use mathlib.Core.List.{Memᴰ}
use plgames_booster_up.Client.Proxy
use plgames_booster_up.Client.Proxy.{UdpProxy}
use plgames_booster_up.Client.App.Boost.{new_status, set_active}
use plgames_booster_up.Client.App.Success.{IsReady, Serves, cmd_start_boost_succeeds}
use plgames_booster_up.Client.App.Examples.Codecs.{auth_json-IsCodec, config_json-IsCodec}
use plgames_booster_up.Client.App.Examples.Values.{
  token_resp, user, game, node, session, json, server, failing, env, tokens, api, signed_in, args,
  boosting_app, actions, monitor, manual, boost,
}

abbrev relay : SocketAddr
relay = record { ip = v4 (record { o0 = 1; o1 = 2; o2 = 3; o3 = 4 }); port = 443 }

run-IsBoosting_example : IsBoosting (run env 1 actions (started env 0 none none)).app
run-IsBoosting_example = run-IsBoosting env 1 0 none none actions

tokens_survive_restart_example :
    (let s = (run env 1 actions (started env 0 none none)).app in
      (start_app env s.auth_file s.config_file).tokens ≡ usable s.tokens)
tokens_survive_restart_example =
    tokens_survive_restart env 1 0 none none actions auth_json-IsCodec (λ n. refl)

config_survives_restart_example :
    (let s = (run env 1 actions (started env 0 none none)).app in
      (start_app env s.auth_file s.config_file).config ≡ s.config)
config_survives_restart_example =
    config_survives_restart env 1 0 none none actions config_json-IsCodec (λ n. refl)

cmd_start_boost_outcome_example :
    EndsIn
      (SameBoost signed_in)
      (λ status s'. (signed_in.active_proxy ≡ none) × IsConnected status s')
      (cmd_start_boost env args signed_in)
cmd_start_boost_outcome_example = cmd_start_boost_outcome env args signed_in

opened_app : App
opened_app = (authorized env to_text (session_request env args) signed_in).1

no_request_after_opening_example : (connect env args signed_in).1.requests ≡ opened_app.requests
unfolding opened_app authorized with_auto_refresh Requests.exchange
no_request_after_opening_example =
    no_request_after_opening env args signed_in opened_app session refl

cmd_stop_boost-StopsBoost_example : StopsBoost env boosting_app (cmd_stop_boost env boosting_app).1
cmd_stop_boost-StopsBoost_example = cmd_stop_boost-StopsBoost env boosting_app

sign_in_outcome_example :
    EndsIn
      (SameTokens signed_in)
      (IsSignedIn env signed_in.api)
      (sign_in env (λ a. Requests.login server json a (codes "u@x") (codes "p")) signed_in)
sign_in_outcome_example =
    sign_in_outcome env (λ a. Requests.login server json a (codes "u@x") (codes "p")) signed_in

-- The request of a profile.
abbrev profile_request : Bytes → HttpRequest
profile_request token =
    Requests.with_bearer failing json api Method.get (codes "/api/me") token none

with_auto_refresh-history_example :
    (more : History) × ((with_auto_refresh failing json api tokens
        (Requests.get_me failing json api)
        []).1
      ≡ more ++ profile_request tokens.access_token ∷ [])
    × (length more ≤ 2)
with_auto_refresh-history_example =
    with_auto_refresh-history failing json api tokens (Requests.get_me failing json api)
      profile_request []
      (λ token. exchange-Sends failing json api json.user (profile_request token))

abbrev refresh : HttpRequest
refresh = Requests.refresh_request failing json api tokens.refresh_token

with_auto_refresh-CameFrom_example :
    EndsIn
      (λ h. Unit {0})
      (CameFrom server json api tokens (Requests.get_me server json api))
      (with_auto_refresh server json api tokens (Requests.get_me server json api) [])
with_auto_refresh-CameFrom_example =
    with_auto_refresh-CameFrom server json api tokens (Requests.get_me server json api) []

abbrev two_nodes : List NodeInfo
two_nodes = node (codes "n") ∷ node (codes "m") ∷ []

abbrev asked : History
asked = (Requests.get_nodes server json api []).1

tick-active_example :
    NoStart boost 1 (tick env 1 10 (codes "game.exe" ∷ []) (monitor boosting_app)).app
unfolding cmd_start_boost with_auto_refresh Requests.exchange
    plgames_booster_up.Net.Socket.parse_socket_addr plgames_booster_up.Net.read_octet
    plgames_booster_up.Net.expect plgames_booster_up.Base.Int.print_int
    plgames_booster_up.Base.Decimal.print_number plgames_booster_up.Base.Decimal.digits_value
    plgames_booster_up.Client.Proxy.start
tick-active_example =
    tick-active env boost 1 1 10 (codes "game.exe" ∷ []) (monitor boosting_app) (refl, refl)

detect_running_game_lem_example :
    ((g : GameProfile)
      → detect_running_game (λ s. s) (codes "game.exe" ∷ []) (game ∷ []) ≡ some g
      → Memᴰ g (game ∷ [])
        × (process : Bytes) × Memᴰ process (codes "game.exe" ∷ [])
        × RunsAs (λ s. s) process g)
    × (detect_running_game (λ s. s) (codes "game.exe" ∷ []) (game ∷ []) ≡ none
        → (process : Bytes) (g : GameProfile) → Memᴰ process (codes "game.exe" ∷ [])
        → Memᴰ g (game ∷ [])
        → RunsAs (λ s. s) process g
        → ⊥)
detect_running_game_lem_example =
    detect_running_game_lem (λ s. s) (codes "game.exe" ∷ []) (game ∷ [])

ready : IsReady (env.proxy_answers 0 27015) 27015
ready = record { local_bound = refl; relay_bound = refl; backup_bound = refl; control_sent = refl }

cmd_start_boost_succeeds_example :
    (p : UdpProxy) × (sent : List Proxy.Sent) × (cmd_start_boost env args signed_in ≡ (
      ok (record {
        connected = true;
        session_id = some session.session_id;
        local_port = some 27015;
        stats = none;
        multipath_enabled = session.multipath_enabled;
        mode = codes "proxy";
      }),
      record opened_app {
        active_proxy = some (proxy p);
        active_session_id = some session.session_id;
        starts = opened_app.starts + 1;
        datagrams = opened_app.datagrams ++ sent;
        activated = session.session_token ∷ opened_app.activated;
      },
    ))
    × Serves session.session_token relay 27015 p
unfolding opened_app authorized with_auto_refresh Requests.exchange
    plgames_booster_up.Client.App.Boost.relay_addr plgames_booster_up.Net.Socket.parse_socket_addr
    plgames_booster_up.Net.read_octet plgames_booster_up.Net.expect
    plgames_booster_up.Base.Int.print_int plgames_booster_up.Base.Decimal.print_number
    plgames_booster_up.Base.Decimal.digits_value
cmd_start_boost_succeeds_example =
    cmd_start_boost_succeeds env args signed_in opened_app session relay 27015 refl refl refl refl
      ready

-- A service that refuses every token.
abbrev refusing : Server
refusing sent request = some (record { status = 401; body = some [] })

-- What another command has stored in between.
abbrev refreshed : AuthTokens
refreshed = record { access_token = codes "new"; refresh_token = codes "r1" }

abbrev refreshed_app : App
refreshed_app = record signed_in { tokens = some refreshed; auth_file = some (codes "new") }

-- What the command asks with the tokens that it has read.
abbrev late_requests : History
late_requests =
    (Requests.refresh_token refusing env.json signed_in.api tokens.refresh_token
      (Requests.get_me refusing env.json signed_in.api tokens.access_token []).1).1

late_user_signs_out_example :
    (file : Option Bytes) × (request_with
        (record env { server = refusing })
        (expired (record env { server = refusing }))
        (Requests.get_me refusing env.json)
        tokens
        refreshed_app
      ≡ (
        err session_expired,
        record refreshed_app {
          requests = late_requests;
          tokens = none;
          auth_file = file;
          file_changes = 1;
        },
      ))
    × ((file ≡ none) ⊎ ((left : Option Bytes) × (succeeds ≡ fails left) × (file ≡ left)))
unfolding Requests.exchange Requests.refresh_token
late_user_signs_out_example =
    late_user_signs_out (record env { server = refusing }) refreshed_app tokens
      (Requests.get_me refusing env.json signed_in.api tokens.access_token []).1 late_requests refl
      refl
