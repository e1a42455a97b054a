-- ===== src/Client/App/Boost.antt =====
-- client/src-tauri/src/commands.rs: `ActiveBoost`, and the commands that start, stop and show a boost.
use plgames_booster_up.Base.{
  ℕ, ◌+◌, Bytes, codes, Bool, true, false, not, ◌&&◌, Option, none, some, List, [], ◌∷◌, ◌++◌,
  if◌then◌else◌, unwrap_or, is_empty,
}
use plgames_booster_up.Base.Int.{print_int}
use plgames_booster_up.Base.Results.{ok, err, ◌>>=◌, ◌>>◌, pure, lift, ok_or, modify}
use plgames_booster_up.Net.{SocketAddr}
use plgames_booster_up.Net.Socket.{parse_socket_addr}
use plgames_booster_up.Client.Api.Types.{SessionStartResponse}
use plgames_booster_up.Client.Api.Requests
use plgames_booster_up.Client.Api.Requests.{ApiClient, with_auto_refresh, stop_session}
use plgames_booster_up.Client.Proxy
use plgames_booster_up.Client.Proxy.{UdpProxy, ProxyStats}
use plgames_booster_up.Client.WinDivert
use plgames_booster_up.Client.WinDivert.{WinDivertProxy}
use plgames_booster_up.Client.App.{
  ActiveBoost, proxy, wind_divert, App, Env, Command, already_connected, invalid_relay_address,
  no_proxy, to_text, authorized,
}

unfoldable pub stop : ActiveBoost → ActiveBoost
stop (proxy p) = proxy (Proxy.stop p)
stop (wind_divert w) = wind_divert (WinDivert.stop w)

abbrev pub get_stats : ActiveBoost → ProxyStats
get_stats (proxy p) = p.stats
get_stats (wind_divert w) = w.stats

abbrev pub is_running : ActiveBoost → Bool
is_running (proxy p) = p.running
is_running (wind_divert w) = w.running

abbrev pub local_port : ActiveBoost → Option ℕ
local_port (proxy p) = some p.local_port
local_port (wind_divert w) = none

abbrev pub mode : ActiveBoost → Bytes
mode (proxy p) = codes "proxy"
mode (wind_divert w) = codes "windivert"

pub record BoostStatus : Type 0 where
  pub connected : Bool
  pub session_id : Option Bytes
  pub local_port : Option ℕ
  pub stats : Option ProxyStats
  pub multipath_enabled : Bool
  pub mode : Bytes

abbrev pub disconnected : BoostStatus
disconnected = record {
  connected = false;
  session_id = none;
  local_port = none;
  stats = none;
  multipath_enabled = false;
  mode = codes "none";
}

-- The answer of `cmd_start_boost`.
abbrev pub new_status : SessionStartResponse → ActiveBoost → BoostStatus
new_status resp boost = record {
  connected = true;
  session_id = some resp.session_id;
  local_port = local_port boost;
  stats = none;
  multipath_enabled = resp.multipath_enabled;
  mode = mode boost;
}

-- The arguments of `cmd_start_boost`.
pub record BoostRequest : Type 0 where
  pub game_slug : Bytes
  pub node_id : Bytes
  pub game_server_target : Option Bytes
  pub local_port : Option ℕ
  pub multipath : Option Bool
  pub use_windivert : Option Bool

abbrev pub with_port : Bytes → Bytes → Bytes
with_port ip port = ip ++ b':' ∷ port

-- The first address and the first port of two lists, when neither is empty.
abbrev pub first_target : List Bytes → List Bytes → Bytes
first_target [] ports = codes "0.0.0.0:0"
first_target (ip ∷ ips) [] = codes "0.0.0.0:0"
first_target (ip ∷ ips) (port ∷ ports) = with_port ip port

abbrev pub has_targets : SessionStartResponse → Bool
has_targets resp = not (is_empty resp.game_server_ips) && not (is_empty resp.game_ports)

abbrev pub boost_token : ActiveBoost → ℕ
boost_token (proxy p) = p.session_token
boost_token (wind_divert w) = w.session_token

-- The active boost is taken and stopped.
unfoldable pub stop_active : App → App
unfolding stop
stop_active s = elim s.active_proxy [
  | none ↦ s
  | some b ↦ record s { active_proxy = none; stopped = stop b ∷ s.stopped }
]

-- The boost and the session that the state keeps. A boost that they replace is dropped, which stops it.
unfoldable pub set_active : ActiveBoost → Bytes → App → App
unfolding stop_active
set_active boost session_id s = record (stop_active s) {
  active_proxy = some boost;
  active_session_id = some session_id;
  activated = boost_token boost ∷ s.activated;
}

-- The first lock of `cmd_start_boost`: no boost is active.
unfoldable pub check_free : Command (Unit {0})
check_free s = elim s.active_proxy [ none ↦ (ok tt, s) | some b ↦ (err already_connected, s) ]

-- The interceptor when it has started; an error is only logged.
unfoldable pub divert_ok : WinDivert.Start → Option WinDivertProxy
divert_ok (WinDivert.started w) = some w
divert_ok (WinDivert.bad_filter e) = none
divert_ok WinDivert.relay_bind_failed = none
divert_ok WinDivert.backup_bind_failed = none

module _ (env : Env) where
  unfoldable pub relay_addr : SessionStartResponse → Option SocketAddr
  relay_addr resp =
      parse_socket_addr env.socket_v6 (with_port resp.node_ip (print_int resp.node_port))

  unfoldable pub backup_relay_addr : SessionStartResponse → Option SocketAddr
  backup_relay_addr resp = elim resp.backup_node_ip [
    | none ↦ none
    | some ip ↦ elim resp.backup_node_port [
      | none ↦ none
      | some port ↦ parse_socket_addr env.socket_v6 (with_port ip (print_int port))
    ]
  ]

  -- `UdpProxy::start` on a session, for a target and a local port.
  unfoldable pub start_proxy : SessionStartResponse → SocketAddr → Bytes → ℕ → Command ActiveBoost
  unfolding backup_relay_addr
  start_proxy resp relay target port s =
      let s' : App = record s { starts = s.starts + 1 } in
      elim (Proxy.start resp.session_token relay (backup_relay_addr resp) target
        resp.multipath_enabled (env.proxy_answers s.starts port)) [
          | Proxy.started p sent ↦ (ok (proxy p), record s' { datagrams = s.datagrams ++ sent })
          | Proxy.failed e ↦ (err (no_proxy e), s')
        ]

  -- `WinDivertProxy::start` on a session, and another way when it fails.
  unfoldable pub start_wind_divert :
      SessionStartResponse → SocketAddr → Command ActiveBoost → Command ActiveBoost
  unfolding backup_relay_addr divert_ok
  start_wind_divert resp relay otherwise s =
      let s' : App = record s { starts = s.starts + 1 } in
      let os = env.divert_answers s.starts in
      elim (divert_ok (
        WinDivert.start resp.session_token relay (backup_relay_addr resp) resp.game_server_ips
          resp.game_ports resp.multipath_enabled os.relay_bound os.backup_bound)) [
            | some w ↦ (ok (wind_divert w), s')
            | none ↦ otherwise s'
          ]

  -- What `cmd_start_boost` runs behind the opening of the session.
  unfoldable pub start_mode : BoostRequest → SessionStartResponse → SocketAddr → Command ActiveBoost
  unfolding start_proxy start_wind_divert
  start_mode args resp relay =
      if unwrap_or args.use_windivert env.windows && has_targets resp && env.windows
      then start_wind_divert resp relay by_proxy
      else by_proxy
    where
      by_proxy : Command ActiveBoost
      by_proxy =
          start_proxy resp relay
            (unwrap_or args.game_server_target (first_target resp.game_server_ips resp.game_ports))
            (unwrap_or args.local_port 27015)

  -- A boost on an opened session: the relay's address, the start, and the state that keeps both.
  unfoldable pub open_boost :
      {A : Type 0}
      → (SocketAddr → Command ActiveBoost)
      → (ActiveBoost → A)
      → SessionStartResponse
      → Command A
  unfolding relay_addr set_active
  open_boost start result resp = do
    relay ← lift (ok_or (relay_addr resp) invalid_relay_address)
    boost ← start relay
    modify (set_active boost resp.session_id)
    pure (result boost)

  -- What `cmd_start_boost` does behind that lock.
  unfoldable pub connect : BoostRequest → Command BoostStatus
  unfolding authorized start_mode open_boost
  connect args = do
    resp ← authorized env to_text λ api.
        Requests.start_session env.server env.json api (record {
          game_slug = args.game_slug;
          node_id = args.node_id;
          multipath = args.multipath;
        })
    open_boost (start_mode args resp) (new_status resp) resp

  unfoldable pub cmd_start_boost : BoostRequest → Command BoostStatus
  unfolding check_free connect
  cmd_start_boost args = check_free >> connect args

  -- The active session is taken, and the service is asked to end it; the result is not looked at.
  unfoldable pub end_session : App → App
  end_session s = elim s.active_session_id [
    | none ↦ s
    | some sid ↦
        let s' : App = record s { active_session_id = none } in
        elim s.tokens [
          | none ↦ s'
          | some tokens ↦
              let (r, sent) =
                with_auto_refresh env.server env.json s.api tokens
                  (stop_session env.server env.json s.api sid) s.requests in
              record s' { requests = sent }
        ]
  ]

  unfoldable pub cmd_stop_boost : Command BoostStatus
  unfolding stop_active end_session
  cmd_stop_boost s = (ok disconnected, end_session (stop_active s))

unfoldable pub cmd_get_boost_status : Command BoostStatus
cmd_get_boost_status s = elim s.active_proxy [
  | none ↦ (ok disconnected, s)
  | some b ↦
      if is_running b
      then (
        ok (record {
          connected = true;
          session_id = s.active_session_id;
          local_port = local_port b;
          stats = some (get_stats b);
          multipath_enabled = (get_stats b).multipath_enabled;
          mode = mode b;
        }),
        s,
      )
      else (ok disconnected, s)
]
