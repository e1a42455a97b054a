-- ===== src/Client/App/Commands.antt =====
-- client/src-tauri/src/commands.rs: the commands that sign a user in and out, and those that ask the API.
use plgames_booster_up.Base.{Bytes, Bool, Option, none, List}
use plgames_booster_up.Base.Results.{◌>>=◌, ◌>>◌, pure, modify}
use plgames_booster_up.Client.Api.Types.{
  AuthTokens, User, UserStats, TokenResponse, TrialResponse, GameListResponse, GameProfile,
  NodeInfo, NodePingResponse, SessionStartResponse, SessionStopResponse, SessionHistoryItem,
}
use plgames_booster_up.Client.Api.Http.{unauthorized, forbidden, refresh_failed, Call}
use plgames_booster_up.Client.Api.Requests
use plgames_booster_up.Client.Api.Requests.{ApiClient}
use plgames_booster_up.Client.GameDetector.{detect_running_game}
use plgames_booster_up.Client.App.{
  Env, Command, session_expired, message, api_error, Handler, to_text, call, store_tokens,
  forget_tokens, authorized,
}

-- `cmd_activate_trial` shows the text of a refusal as it is.
unfoldable pub refusal : Handler
refusal (forbidden msg) s = (message msg, s)
refusal e s = (api_error e, s)

module _ (env : Env) where
  -- The profile is read before the tokens are kept.
  unfoldable pub enter : AuthTokens → Command User
  unfolding call store_tokens
  enter auth = do
    user ← call to_text λ api. Requests.get_me env.server env.json api auth.access_token
    modify (store_tokens env auth)
    pure user

  -- What `cmd_login` and `cmd_register` share.
  unfoldable pub sign_in : (ApiClient → Call TokenResponse) → Command User
  unfolding call enter
  sign_in f = do
    token_resp ← call to_text f
    enter (record {
      access_token = token_resp.access_token;
      refresh_token = token_resp.refresh_token;
    })

  unfoldable pub cmd_login : Bytes → Bytes → Command User
  unfolding sign_in
  cmd_login email password = sign_in λ api. Requests.login env.server env.json api email password

  unfoldable pub cmd_register : Bytes → Bytes → Bytes → Command User
  unfolding sign_in
  cmd_register email username password =
      sign_in λ api. Requests.register env.server env.json api email username password

  unfoldable pub cmd_logout : Command (Unit {0})
  unfolding forget_tokens
  cmd_logout = modify (forget_tokens env)

  -- `cmd_get_user` forgets the tokens when the session has expired.
  unfoldable pub expired : Handler
  unfolding forget_tokens
  expired refresh_failed s = (session_expired, forget_tokens env s)
  expired unauthorized s = (session_expired, forget_tokens env s)
  expired e s = (api_error e, s)

  unfoldable pub cmd_get_user : Command User
  unfolding authorized expired
  cmd_get_user = authorized env expired λ api. Requests.get_me env.server env.json api

  unfoldable pub cmd_get_user_stats : Command UserStats
  unfolding authorized
  cmd_get_user_stats = authorized env to_text λ api. Requests.get_me_stats env.server env.json api

  unfoldable pub cmd_activate_trial : Command TrialResponse
  unfolding authorized refusal
  cmd_activate_trial = authorized env refusal λ api. Requests.activate_trial env.server env.json api

  unfoldable pub cmd_get_games : Option Bytes → Option Bool → Command GameListResponse
  unfolding call
  cmd_get_games category popular =
      call to_text λ api. Requests.get_games env.server env.json api category popular

  unfoldable pub cmd_search_games : Bytes → Command GameListResponse
  unfolding call
  cmd_search_games query = call to_text λ api. Requests.search_games env.server env.json api query

  unfoldable pub cmd_get_nodes : Command (List NodeInfo)
  unfolding call
  cmd_get_nodes = call to_text λ api. Requests.get_nodes env.server env.json api

  unfoldable pub cmd_ping_node : Bytes → Command NodePingResponse
  unfolding call
  cmd_ping_node node_id = call to_text λ api. Requests.ping_node env.server env.json api node_id

  unfoldable pub cmd_start_session : Bytes → Bytes → Option Bool → Command SessionStartResponse
  unfolding authorized
  cmd_start_session game_slug node_id multipath = authorized env to_text λ api.
      Requests.start_session env.server env.json api
        (record { game_slug = game_slug; node_id = node_id; multipath = multipath })

  unfoldable pub cmd_stop_session : Bytes → Command SessionStopResponse
  unfolding authorized
  cmd_stop_session session_id =
      authorized env to_text λ api. Requests.stop_session env.server env.json api session_id

  unfoldable pub cmd_get_session_history : Command (List SessionHistoryItem)
  unfolding authorized
  cmd_get_session_history =
      authorized env to_text λ api. Requests.get_session_history env.server env.json api

  -- The names of the running processes are an argument.
  unfoldable pub cmd_detect_game : List Bytes → Command (Option GameProfile)
  unfolding call detect_running_game
  cmd_detect_game processes = do
    games_resp ← call to_text λ api. Requests.get_games env.server env.json api none none
    pure (detect_running_game env.to_lowercase processes games_resp.items)
