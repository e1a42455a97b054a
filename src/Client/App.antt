-- ===== src/Client/App.antt =====
-- client/src-tauri/src/commands.rs: the state of the application. It stands together with what the
-- commands change outside of it: the requests sent, the two files, and the datagrams that a proxy sends
-- when it starts. The environment answers: the API service, the disk, the operating system when a boost
-- starts, and the libraries. A command is a step on this state that ends with a value or an error.
pub mod Boost
pub mod Commands
pub mod Settings
pub mod Frame
pub mod Rest
pub mod Boosting
pub mod Outcomes
pub mod Sessions
pub mod Late
pub mod Shell
pub mod Updates
pub mod SignIn
pub mod Success
pub mod Rounds
mod Examples
use plgames_booster_up.Base.{ℕ, Bytes, Bool, Option, none, some, List, ◌+◌}
use plgames_booster_up.Base.Results.{ok, err, Op, ◌>>=◌, ◌>>◌, pure, modify}
use plgames_booster_up.Net.{SocketAddr}
use plgames_booster_up.Client.Api.Types.{AuthTokens}
use plgames_booster_up.Client.Api.Http.{ApiError, Server, Json, History, Call}
use plgames_booster_up.Client.Api.Requests.{ApiClient, with_auto_refresh}
use plgames_booster_up.Client.Proxy
use plgames_booster_up.Client.Proxy.{UdpProxy, StartAnswers, StartError}
use plgames_booster_up.Client.WinDivert
use plgames_booster_up.Client.WinDivert.{WinDivertProxy}
use plgames_booster_up.Client.Store.{AppConfig, Codec, FileAnswer, save, clear}

pub data ActiveBoost : Type 0 where
  proxy : UdpProxy → ActiveBoost
  wind_divert : WinDivertProxy → ActiveBoost

-- `AppState`, the managed `AppConfig`, and the outside. Two fields record what has happened: `activated`
-- the session tokens of the boosts that became the active one, and `stopped` the boosts that were
-- stopped, the latest first.
pub record App : Type 0 where
  pub api : ApiClient
  pub tokens : Option AuthTokens
  pub active_proxy : Option ActiveBoost
  pub active_session_id : Option Bytes
  pub config : AppConfig
  pub requests : History
  pub auth_file : Option Bytes
  pub config_file : Option Bytes
  pub file_changes : ℕ
  pub starts : ℕ
  pub datagrams : List Proxy.Sent
  pub activated : List ℕ
  pub stopped : List ActiveBoost

-- Whether the sockets of the interceptor are bound.
pub record DivertAnswers : Type 0 where
  pub relay_bound : Bool
  pub backup_bound : Bool

-- `disk` is asked with the number of the file changes before, the two others with the number of the
-- starts before; `proxy_answers` with the port asked for too. `socket_v6` is the standard library's
-- reader for IPv6 socket addresses.
pub record Env : Type 0 where
  pub server : Server
  pub json : Json
  pub auth_json : Codec AuthTokens
  pub config_json : Codec AppConfig
  pub disk : ℕ → FileAnswer
  pub windows : Bool
  pub proxy_answers : ℕ → ℕ → StartAnswers
  pub divert_answers : ℕ → DivertAnswers
  pub socket_v6 : Bytes → Option SocketAddr
  pub to_lowercase : Bytes → Bytes

-- The errors that the commands turn into texts. `message` is the text itself.
pub data CommandError : Type 0 where
  not_authenticated : CommandError
  session_expired : CommandError
  already_connected : CommandError
  invalid_relay_address : CommandError
  no_proxy : StartError → CommandError
  unknown_setting : Bytes → CommandError
  message : Bytes → CommandError
  api_error : ApiError → CommandError

abbrev pub Command : Type 0 → Type 0
Command A = Op App CommandError A

-- What a command does with an error of the API.
abbrev pub Handler : Type 0
Handler = ApiError → App → CommandError × App

abbrev pub to_text : Handler
to_text e s = (api_error e, s)

-- A call of the API from a command.
unfoldable pub call : {A : Type 0} → Handler → (ApiClient → Call A) → Command A
call handler f s =
    let (r, sent) = f s.api s.requests in
    let s' : App = record s { requests = sent } in
    elim r [ ok a ↦ (ok a, s') | err e ↦ let (e', s'') = handler e s' in (err e', s'') ]

module _ (env : Env) where
  -- `auth.save()`, and the tokens that the state keeps from then on.
  unfoldable pub store_tokens : AuthTokens → App → App
  store_tokens auth s = record s {
    tokens = some auth;
    auth_file = save env.auth_json (env.disk s.file_changes) auth s.auth_file;
    file_changes = s.file_changes + 1;
  }

  unfoldable pub forget_tokens : App → App
  forget_tokens s = record s {
    tokens = none;
    auth_file = clear (env.disk s.file_changes) s.auth_file;
    file_changes = s.file_changes + 1;
  }

  -- The new tokens of a refresh, if there was one.
  abbrev pub keep_refreshed : Option AuthTokens → App → App
  keep_refreshed none s = s
  keep_refreshed (some new_auth) s = store_tokens new_auth s

  -- What the commands of a user share from the reading of the tokens on: the request with a refresh,
  -- and the new tokens. Other commands may stand between the reading and this part, as the lock is
  -- released there.
  abbrev pub request_with :
      {A : Type 0} → Handler → (ApiClient → Bytes → Call A) → AuthTokens → Command A
  request_with handler f tokens =
      call handler (λ api. with_auto_refresh env.server env.json api tokens (f api)) >>= λ p.
      modify (keep_refreshed p.1) >> pure p.0

  -- With the tokens of the state.
  unfoldable pub authorized : {A : Type 0} → Handler → (ApiClient → Bytes → Call A) → Command A
  unfolding call store_tokens
  authorized handler f s = elim s.tokens [
    | none ↦ (err not_authenticated, s)
    | some tokens ↦ request_with handler f tokens s
  ]
