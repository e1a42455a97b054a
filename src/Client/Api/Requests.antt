-- ===== src/Client/Api/Requests.antt =====
-- client/src-tauri/src/api_client.rs: `ApiClient` with its requests, and `with_auto_refresh`.
use plgames_booster_up.Base.{
  Bytes, codes, Bool, true, false, Option, none, some, List, [], ◌∷◌, ◌++◌, ◌==◌, if◌then◌else◌,
}
use plgames_booster_up.Base.Results.{Result, ok, err, ◌>>=◌, pure, lift}
use plgames_booster_up.Client.Api.Types.{
  TokenResponse, User, UserStats, GameListResponse, NodeInfo, NodePingResponse, SessionStartRequest,
  SessionStartResponse, SessionStopResponse, SessionHistoryItem, TrialResponse, AuthTokens,
}
use plgames_booster_up.Client.Api.Http.{
  ApiError, unauthorized, refresh_failed, Method, get, post, Body, credentials, registration,
  refresh, session_start, HttpRequest, HttpResponse, History, Server, Json, Call, send,
  handle_response,
}
use mathlib.Core.List.{reverse}

-- `trim_end_matches('/')`.
unfoldable pub trim_slashes : Bytes → Bytes
trim_slashes s = reverse (skip (reverse s))
  where
    skip : Bytes → Bytes
    skip [] = []
    skip (c ∷ cs) = if c == b'/' then skip cs else c ∷ cs

pub record ApiClient : Type 0 where
  pub base_url : Bytes

unfoldable pub new : Bytes → ApiClient
unfolding trim_slashes
new base_url = record { base_url = trim_slashes base_url }

abbrev pub print_bool : Bool → Bytes
print_bool true = codes "true"
print_bool false = codes "false"

-- The query of `get_games`.
unfoldable pub games_query : Option Bytes → Option Bool → Bytes
games_query none none = []
games_query (some cat) none = codes "?category=" ++ cat
games_query none (some pop) = codes "?popular=" ++ print_bool pop
games_query (some cat) (some pop) =
    codes "?category=" ++ (cat ++ (codes "&popular=" ++ print_bool pop))

module _ (server : Server) (json : Json) (api : ApiClient) where
  abbrev url : Bytes → Bytes
  url path = api.base_url ++ path

  -- A request, and its response through `handle_response`.
  unfoldable pub exchange : {A : Type 0} → (Bytes → Option A) → HttpRequest → Call A
  unfolding handle_response
  exchange decode request = do resp ← send server request; lift (handle_response json decode resp)

  abbrev public_get : Bytes → HttpRequest
  public_get path = record { method = get; url = url path; bearer = none; body = none }

  abbrev pub with_bearer : Method → Bytes → Bytes → Option Body → HttpRequest
  with_bearer method path token body = record {
    method = method;
    url = url path;
    bearer = some token;
    body = body;
  }

  abbrev public_post : Bytes → Body → HttpRequest
  public_post path body = record { method = post; url = url path; bearer = none; body = some body }

  abbrev pub login : Bytes → Bytes → Call TokenResponse
  login email password =
      exchange json.token_response
        (public_post (codes "/api/auth/login") (credentials email password))

  abbrev pub register : Bytes → Bytes → Bytes → Call TokenResponse
  register email username password =
      exchange json.token_response
        (public_post (codes "/api/auth/register") (registration email username password))

  abbrev pub refresh_request : Bytes → HttpRequest
  refresh_request token = public_post (codes "/api/auth/refresh") (refresh token)

  -- A 401 is told apart before the common handling.
  unfoldable pub refreshed : HttpResponse → Result ApiError TokenResponse
  unfolding handle_response
  refreshed resp =
      if resp.status == 401
      then err refresh_failed
      else handle_response json json.token_response resp

  unfoldable pub refresh_token : Bytes → Call TokenResponse
  unfolding refreshed
  refresh_token token = do resp ← send server (refresh_request token); lift (refreshed resp)

  abbrev pub get_me : Bytes → Call User
  get_me token = exchange json.user (with_bearer get (codes "/api/me") token none)

  abbrev pub get_me_stats : Bytes → Call UserStats
  get_me_stats token = exchange json.user_stats (with_bearer get (codes "/api/me/stats") token none)

  abbrev pub get_games : Option Bytes → Option Bool → Call GameListResponse
  get_games category popular =
      exchange json.game_list (public_get (codes "/api/games" ++ games_query category popular))

  abbrev pub search_games : Bytes → Call GameListResponse
  search_games query = exchange json.game_list (public_get (codes "/api/games/search?q=" ++ query))

  abbrev pub get_nodes : Call (List NodeInfo)
  get_nodes = exchange json.nodes (public_get (codes "/api/nodes"))

  abbrev pub ping_node : Bytes → Call NodePingResponse
  ping_node node_id =
      exchange json.node_ping (public_get (codes "/api/nodes/" ++ (node_id ++ codes "/ping")))

  abbrev pub start_session : SessionStartRequest → Bytes → Call SessionStartResponse
  start_session request token =
      exchange json.session_start_response
        (with_bearer post (codes "/api/sessions/start") token (some (session_start request)))

  -- The request that ends a session.
  abbrev pub stop_request : Bytes → Bytes → HttpRequest
  stop_request session_id token =
      with_bearer post (codes "/api/sessions/" ++ (session_id ++ codes "/stop")) token none

  abbrev pub stop_session : Bytes → Bytes → Call SessionStopResponse
  stop_session session_id token =
      exchange json.session_stop_response (stop_request session_id token)

  abbrev pub get_session_history : Bytes → Call (List SessionHistoryItem)
  get_session_history token =
      exchange json.history (with_bearer get (codes "/api/sessions/history") token none)

  abbrev pub activate_trial : Bytes → Call TrialResponse
  activate_trial token =
      exchange json.trial (with_bearer post (codes "/api/billing/trial") token none)

  -- The call with the new access token, and the new tokens.
  unfoldable pub second_attempt :
      {A : Type 0} → (Bytes → Call A) → TokenResponse → Call (A × Option AuthTokens)
  second_attempt f new_tokens = do
    let new_auth : AuthTokens = record {
      access_token = new_tokens.access_token;
      refresh_token = new_tokens.refresh_token;
    }
    result ← f new_auth.access_token
    pure (result, some new_auth)

  unfoldable pub retry_refreshed :
      {A : Type 0} → AuthTokens → (Bytes → Call A) → Call (A × Option AuthTokens)
  unfolding refresh_token second_attempt
  retry_refreshed tokens f = do
    new_tokens ← refresh_token tokens.refresh_token
    second_attempt f new_tokens

  -- What follows the first answer: one that is `Unauthorized` leads to a refresh.
  unfoldable pub after_first :
      {A : Type 0}
      → AuthTokens
      → (Bytes → Call A)
      → Result ApiError A
      → History
      → Result ApiError (A × Option AuthTokens) × History
  unfolding retry_refreshed
  after_first tokens f (ok result) sent = (ok (result, none), sent)
  after_first tokens f (err unauthorized) sent = retry_refreshed tokens f sent
  after_first tokens f (err e) sent = (err e, sent)

  -- `f` takes an access token.
  unfoldable pub with_auto_refresh :
      {A : Type 0} → AuthTokens → (Bytes → Call A) → Call (A × Option AuthTokens)
  unfolding after_first
  with_auto_refresh tokens f sent =
      let (r, sent') = f tokens.access_token sent in after_first tokens f r sent'
