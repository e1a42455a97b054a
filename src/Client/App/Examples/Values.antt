-- ===== src/Client/App/Examples/Values.antt =====
-- A service that answers every request, one that refuses a call, and states of the client's application,
-- for the examples.
use plgames_booster_up.Base.{
  Bytes, codes, true, false, none, some, List, [], ◌∷◌, bytes_eq, if◌then◌else◌,
}
use plgames_booster_up.Base.Int.{pos}
use plgames_booster_up.Net.{v4, SocketAddr}
use plgames_booster_up.Client.Proxy.{from_game}
use plgames_booster_up.Client.Api.Types.{
  TokenResponse, User, GameProfile, NodeInfo, SessionStartResponse, AuthTokens,
}
use plgames_booster_up.Client.Api.Http.{Server, Json}
use plgames_booster_up.Client.Api.Requests.{ApiClient}
use plgames_booster_up.Client.Store.{default_config, succeeds}
use plgames_booster_up.Client.App.{ActiveBoost, proxy, App, Env}
use plgames_booster_up.Client.App.Boost.{BoostRequest, cmd_start_boost}
use plgames_booster_up.Client.Monitor.{Monitor}
use plgames_booster_up.Client.Runs.{
  Action, login, start_boost, tested_start, proxy_round, stop_boost, update_settings, monitor_tick,
}
use plgames_booster_up.Client.App.Examples.Codecs.{auth_json, config_json}

abbrev pub token_resp : TokenResponse
token_resp = record {
  access_token = codes "a";
  refresh_token = codes "r";
  token_type = codes "bearer";
}

abbrev pub user : User
user = record {
  id = codes "1";
  email = codes "u@x";
  username = codes "u";
  subscription_tier = codes "free";
  subscription_expires_at = none;
  created_at = [];
}

abbrev pub game : GameProfile
game = record {
  id = codes "7";
  name = codes "Game";
  slug = codes "game";
  exe_names = codes "game.exe" ∷ [];
  server_ips = codes "9.9.9.9" ∷ [];
  ports = codes "7777" ∷ [];
  protocol = codes "UDP";
  category = codes "fps";
  is_popular = true;
  created_at = [];
}

abbrev pub node : Bytes → NodeInfo
node id = record {
  id = id;
  name = id;
  location = [];
  city = [];
  ip_address = codes "1.2.3.4";
  status = codes "online";
  current_load = pos 0;
  max_sessions = pos 10;
  relay_port = pos 443;
  created_at = [];
}

abbrev pub session : SessionStartResponse
session = record {
  session_id = codes "s";
  session_token = 5;
  node_ip = codes "1.2.3.4";
  node_port = pos 443;
  backup_node_ip = none;
  backup_node_port = none;
  multipath_enabled = false;
  status = codes "active";
  game_server_ips = [];
  game_ports = [];
}

-- Every body reads as the same value of its type.
abbrev pub json : Json
json = record {
  token_response = λ b. some token_resp;
  user = λ b. some user;
  user_stats = λ b. none;
  game_list = λ b. some (record { items = game ∷ []; total = pos 1 });
  nodes = λ b. some (node (codes "n") ∷ node (codes "m") ∷ []);
  node_ping = λ b. some (record { node_id = []; ping_ms = some 0x4028000000000000; status = [] });
  session_start_response = λ b. some session;
  session_stop_response = λ b. none;
  history = λ b. some [];
  trial = λ b. none;
  error_detail = λ b. none;
}

-- Every request is answered.
abbrev pub server : Server
server sent request = some (record { status = 200; body = some [] })

-- The tokens of `token_resp` are refused with the status 500, every other access token with 401.
abbrev pub failing : Server
failing sent request = elim request.bearer [
  | none ↦ some (record { status = 200; body = some [] })
  | some t ↦ some (record { status = if bytes_eq t (codes "a") then 500 else 401; body = some [] })
]

abbrev pub env : Env
env = record {
  server = server;
  json = json;
  auth_json = auth_json;
  config_json = config_json;
  disk = λ n. succeeds;
  windows = false;
  proxy_answers = λ n port. record {
    local_bound = some port;
    relay_bound = true;
    backup_bound = true;
    control_sent = true;
  };
  divert_answers = λ n. record { relay_bound = true; backup_bound = true };
  socket_v6 = λ s. none;
  to_lowercase = λ s. s;
}

abbrev pub tokens : AuthTokens
tokens = record { access_token = codes "old"; refresh_token = codes "r0" }

abbrev pub api : ApiClient
api = record { base_url = codes "https://x" }

-- A user who has signed in.
abbrev pub signed_in : App
signed_in = record {
  api = api;
  tokens = some tokens;
  active_proxy = none;
  active_session_id = none;
  config = default_config;
  requests = [];
  auth_file = none;
  config_file = none;
  file_changes = 0;
  starts = 0;
  activated = [];
  datagrams = [];
  stopped = [];
}

abbrev pub args : BoostRequest
args = record {
  game_slug = codes "game";
  node_id = codes "n";
  game_server_target = some (codes "9.9.9.9:7777");
  local_port = none;
  multipath = none;
  use_windivert = none;
}

abbrev pub boosting_app : App
boosting_app = (cmd_start_boost env args signed_in).1

abbrev game_addr : SocketAddr
game_addr = record { ip = v4 (record { o0 = 127; o1 = 0; o2 = 0; o3 = 1 }); port = 5000 }

abbrev pub actions : List Action
actions =
    login (codes "u@x") (codes "p")
    ∷ update_settings (codes "auto_connect") (codes "false")
    ∷ start_boost args
    ∷ proxy_round (from_game game_addr (codes "hi"))
    ∷ tested_start args
    ∷ monitor_tick 10 (codes "game.exe" ∷ [])
    ∷ stop_boost
    ∷ []

abbrev pub monitor : App → Monitor
monitor s = record {
  app = s;
  last_detected_slug = none;
  games_cache = [];
  cache_time = 0;
  events = [];
}

-- The user connects by hand.
abbrev pub manual : App
manual = record signed_in { config = record default_config { auto_connect = false } }

-- The boost of `boosting_app`.
abbrev pub boost : ActiveBoost
boost = proxy (record {
  running = true;
  seq_counter = 1;
  stats = record {
    packets_sent = 0;
    packets_received = 0;
    bytes_sent = 0;
    bytes_received = 0;
    last_rtt = none;
    multipath_enabled = false;
    multipath_active = false;
    duplicates_dropped = 0;
  };
  local_port = 27015;
  session_token = 5;
  relay_addr = record { ip = v4 (record { o0 = 1; o1 = 2; o2 = 3; o3 = 4 }); port = 443 };
  backup = none;
  game_addr = none;
  seen_seqs = [];
  keepalive_sent = [];
  duplicates_dropped = 0;
})
