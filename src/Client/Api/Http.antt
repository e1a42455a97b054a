-- ===== src/Client/Api/Http.antt =====
-- client/src-tauri/src/api_client.rs: `ApiError`, sending a request, and the handling of a response.
-- The service and the network are a function: from the requests sent before, the latest first, and
-- the new one to a response, or to none when sending fails or times out. A request is what the code
-- gives to the HTTP library, its JSON body as the object that the code builds. The JSON library's
-- readers are a parameter.
use plgames_booster_up.Base.{
  ℕ, Bytes, ◌&&◌, Option, none, some, List, [], ◌∷◌, ltb, leb, ◌==◌, if◌then◌else◌, unwrap_or,
}
use plgames_booster_up.Base.Results.{Result, ok, err, Op}
use plgames_booster_up.Client.Api.Types.{
  TokenResponse, User, UserStats, GameListResponse, NodeInfo, NodePingResponse, SessionStartRequest,
  SessionStartResponse, SessionStopResponse, SessionHistoryItem, TrialResponse,
}

pub data ApiError : Type 0 where
  network : ApiError
  unauthorized : ApiError
  forbidden : Bytes → ApiError
  not_found : ApiError
  server_error : Bytes → ApiError
  refresh_failed : ApiError

pub data Method : Type 0 where
  get post : Method

-- The JSON objects that the requests carry.
pub data Body : Type 0 where
  credentials : (email password : Bytes) → Body
  registration : (email username password : Bytes) → Body
  refresh : (refresh_token : Bytes) → Body
  session_start : SessionStartRequest → Body

pub record HttpRequest : Type 0 where
  pub method : Method
  pub url : Bytes
  pub bearer : Option Bytes
  pub body : Option Body

-- `body` is none when reading it fails.
pub record HttpResponse : Type 0 where
  pub status : ℕ
  pub body : Option Bytes

abbrev pub History : Type 0
History = List HttpRequest

abbrev pub Server : Type 0
Server = History → HttpRequest → Option HttpResponse

-- `serde_json` for each structure that is read. `error_detail` is `ApiErrorDetail`.
pub record Json : Type 0 where
  pub token_response : Bytes → Option TokenResponse
  pub user : Bytes → Option User
  pub user_stats : Bytes → Option UserStats
  pub game_list : Bytes → Option GameListResponse
  pub nodes : Bytes → Option (List NodeInfo)
  pub node_ping : Bytes → Option NodePingResponse
  pub session_start_response : Bytes → Option SessionStartResponse
  pub session_stop_response : Bytes → Option SessionStopResponse
  pub history : Bytes → Option (List SessionHistoryItem)
  pub trial : Bytes → Option TrialResponse
  pub error_detail : Bytes → Option (Option Bytes)

-- A call of the API: it appends what it sends to the history.
abbrev pub Call : Type 0 → Type 0
Call A = Op History ApiError A

abbrev pub send : Server → HttpRequest → Call HttpResponse
send server request sent = elim (server sent request) [
  | none ↦ (err network, request ∷ sent)
  | some response ↦ (ok response, request ∷ sent)
]

-- The `detail` of an error's body, or the text of the body.
abbrev pub detail_of : Json → Bytes → Bytes
detail_of json error_text = elim (json.error_detail error_text) [
  | none ↦ error_text
  | some detail ↦ unwrap_or detail error_text
]

abbrev pub error_of : ℕ → Bytes → ApiError
error_of status detail =
    if status == 401
    then unauthorized
    else if status == 403
    then forbidden detail
    else if status == 404
    then not_found
    else server_error detail

-- A body that cannot be read, or is not of the type asked for, is an error of the HTTP library.
abbrev pub read_body : {A : Type 0} → (Bytes → Option A) → Option Bytes → Result ApiError A
read_body decode none = err network
read_body decode (some body) = elim (decode body) [ none ↦ err network | some a ↦ ok a ]

unfoldable pub handle_response :
    {A : Type 0} → Json → (Bytes → Option A) → HttpResponse → Result ApiError A
handle_response json decode resp =
    if leb 200 resp.status && ltb resp.status 300
    then read_body decode resp.body
    else err (error_of resp.status (detail_of json (unwrap_or resp.body [])))
