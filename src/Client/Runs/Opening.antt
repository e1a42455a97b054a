-- ===== src/Client/Runs/Opening.antt =====
-- client/src-tauri/src: the start of a boost, by a command or by the monitor, and what it keeps.
use plgames_booster_up.Base.{
  ℕ, ◌+◌, ◌≡◌, refl, ◌⊎◌, Bytes, Bool, true, ◌&&◌, Option, some, List, unwrap_or, Option-cases,
  Bool-cases, inl, inr, arith,
}
use plgames_booster_up.Base.Results.{
  ◌>>=◌, ◌>>◌, lift, ok_or, pure, modify, Keeps, bind-Keeps, Yields, bind-Yields,
}
use plgames_booster_up.Net.{SocketAddr}
use plgames_booster_up.Client.Api.Types.{SessionStartResponse}
use plgames_booster_up.Client.App.{
  ActiveBoost, App, Env, Command, invalid_relay_address, to_text, authorized,
}
use plgames_booster_up.Client.App.Frame.{IsIndependent}
use plgames_booster_up.Client.App.Boost.{
  BoostRequest, is_running, backup_relay_addr, relay_addr, divert_ok, start_proxy,
  start_wind_divert, start_mode, open_boost, stop_active, end_session, set_active, has_targets,
}
use plgames_booster_up.Client.App.Boost.{connect, new_status, local_port}
use plgames_booster_up.Client.App.Frame.{authorized-Keeps, to_text-Keeps}
use plgames_booster_up.Client.Api.Types.{GameProfile, NodeInfo}
use plgames_booster_up.Client.Api.Http.{Call}
use plgames_booster_up.Client.Api.Requests
use plgames_booster_up.Client.Api.Requests.{ApiClient}
use plgames_booster_up.Client.Monitor.{auto_mode, auto_connect}
use plgames_booster_up.Client.Proxy.{Input}
use plgames_booster_up.Client.App.Rounds.{round_active}
use plgames_booster_up.Client.Store.{AppConfig, save}
use plgames_booster_up.Client.Proxy
use plgames_booster_up.Client.WinDivert

proxy_start-running :
    (token : ℕ) (relay : SocketAddr) (backup : Option SocketAddr) (target : Bytes)
    (multipath : Bool) (os : Proxy.StartAnswers) (p : Proxy.UdpProxy) (sent : List Proxy.Sent)
    → Proxy.start token relay backup target multipath os ≡ Proxy.started p sent
    → p.running ≡ true
unfolding Proxy.start
proxy_start-running token relay backup target multipath os p sent h = ground arith

divert_start-running :
    (token : ℕ) (relay : SocketAddr) (backup : Option SocketAddr) (ips ports : List Bytes)
    (multipath r b : Bool) (w : WinDivert.WinDivertProxy)
    → divert_ok (WinDivert.start token relay backup ips ports multipath r b) ≡ some w
    → w.running ≡ true
unfolding WinDivert.start divert_ok
divert_start-running token relay backup ips ports multipath r b w h = ground arith

abbrev pub IsRunning : ActiveBoost → Type 0
IsRunning b = is_running b ≡ true

pub Started-cases :
    (o : Proxy.Started)
    → ((p : Proxy.UdpProxy) × (sent : List Proxy.Sent) × (o ≡ Proxy.started p sent))
      ⊎ ((e : Proxy.StartError) × (o ≡ Proxy.failed e))
Started-cases (Proxy.started p sent) = inl (p, sent, refl)
Started-cases (Proxy.failed e) = inr (e, refl)

-- The number of starts and the datagrams sent do not matter to the predicate.
abbrev pub IsStarting : (App → Type 0) → Type 0
IsStarting P =
    (starts : ℕ) (datagrams : List Proxy.Sent) (s : App)
    → P s
    → P (record s { starts = starts; datagrams = datagrams })

module _ (env : Env) (P : App → Type 0) (starting : IsStarting P) where
  start_proxy-Yields :
      (resp : SessionStartResponse) (relay : SocketAddr) (target : Bytes) (port : ℕ)
      → Yields P IsRunning (start_proxy env resp relay target port)
  unfolding start_proxy
  start_proxy-Yields resp relay target port s h =
      let answer =
        Proxy.start resp.session_token relay (backup_relay_addr env resp) target
          resp.multipath_enabled (env.proxy_answers s.starts port) in
      elim (Started-cases answer) [
        | inl (p, sent, e) ↦
            rw (start_proxy, e) (starting _ _ s h, proxy_start-running _ _ _ _ _ _ p sent e)
        | inr (x, e) ↦ rw (start_proxy, e) (starting _ s.datagrams s h, tt)
      ]

  start_wind_divert-Yields :
      (resp : SessionStartResponse) (relay : SocketAddr) (otherwise : Command ActiveBoost)
      → Yields P IsRunning otherwise
      → Yields P IsRunning (start_wind_divert env resp relay otherwise)
  unfolding start_wind_divert
  start_wind_divert-Yields resp relay otherwise by s h =
      let os = env.divert_answers s.starts in
      let answer = divert_ok (
        WinDivert.start resp.session_token relay (backup_relay_addr env resp) resp.game_server_ips
          resp.game_ports resp.multipath_enabled os.relay_bound os.backup_bound) in
      let next : P (record s { starts = s.starts + 1 }) = starting _ s.datagrams s h in
      elim (Option-cases answer) [
        | inl e ↦ rw (start_wind_divert, e) (by _ next)
        | inr (w, e) ↦ rw (start_wind_divert, e) (next, divert_start-running _ _ _ _ _ _ _ _ w e)
      ]

  pub start_mode-Yields :
      (args : BoostRequest) (resp : SessionStartResponse) (relay : SocketAddr)
      → Yields P IsRunning (start_mode env args resp relay)
  unfolding start_mode
  start_mode-Yields args resp relay =
      elim (Bool-cases
        (unwrap_or args.use_windivert env.windows && has_targets resp && env.windows)) [
          | inl e ↦
              rw (start_mode, e)
                (start_wind_divert-Yields resp relay _ (start_proxy-Yields resp relay _ _))
          | inr e ↦ rw (start_mode, e) (start_proxy-Yields resp relay _ _)
        ]

  pub auto_mode-Yields :
      (game : GameProfile) (resp : SessionStartResponse) (relay : SocketAddr)
      → Yields P IsRunning (auto_mode env game resp relay)
  unfolding auto_mode
  auto_mode-Yields game resp relay = elim (Bool-cases (env.windows && has_targets resp)) [
    | inl e ↦
        rw (auto_mode, e)
          (start_wind_divert-Yields resp relay _ (start_proxy-Yields resp relay _ _))
    | inr e ↦ rw (auto_mode, e) (start_proxy-Yields resp relay _ _)
  ]

-- The parts that a run is made of keep the predicate: what is asked and which tokens are kept, the start
-- of a boost that runs, the end of a boost and its session, the rounds of the
-- active boost, and the configuration.
pub record IsKept (env : Env) (P : App → Type 0) : Type 0 where
  pub free : IsIndependent env P
  pub starting : IsStarting P
  pub activating :
      (boost : ActiveBoost) (session_id : Bytes) (s : App)
      → IsRunning boost
      → P s
      → P (set_active boost session_id s)
  pub ending : (s : App) → P s → P (end_session env (stop_active s))
  pub rounding : (second : ℕ) (input : Input) (s : App) → P s → P (round_active second input s)
  pub configuring :
      (cfg : AppConfig) (s : App)
      → P s
      → P (record s {
        config = cfg;
        config_file = save env.config_json (env.disk s.file_changes) cfg s.config_file;
        file_changes = s.file_changes + 1;
      })

module _ (env : Env) (P : App → Type 0) (kept : IsKept env P) where
  open_boost-Keeps :
      {A : Type 0} (start : SocketAddr → Command ActiveBoost) (result : ActiveBoost → A)
      (resp : SessionStartResponse)
      → ((relay : SocketAddr) → Yields P IsRunning (start relay))
      → Keeps P (open_boost env start result resp)
  unfolding open_boost
  open_boost-Keeps start result resp by =
      bind-Keeps P (lift (ok_or (relay_addr env resp) invalid_relay_address))
        (λ relay.
          start relay
          >>= (λ boost. modify (set_active boost resp.session_id) >> pure (result boost)))
        (λ s h. h)
        λ relay.
          bind-Yields P IsRunning (start relay)
            (λ boost. modify (set_active boost resp.session_id) >> pure (result boost)) (by relay)
            λ boost r s h. kept.activating boost resp.session_id s r h

  pub connect-Keeps : (args : BoostRequest) → Keeps P (connect env args)
  unfolding connect
  connect-Keeps args =
      bind-Keeps P (authorized env to_text session)
        (λ resp. open_boost env (start_mode env args resp) (new_status resp) resp)
        (authorized-Keeps env P kept.free to_text session (to_text-Keeps env P kept.free))
        λ resp. open_boost-Keeps _ _ resp (start_mode-Yields env P kept.starting args resp)
    where
      session : ApiClient → Bytes → Call SessionStartResponse
      session api = Requests.start_session env.server env.json api (record {
        game_slug = args.game_slug;
        node_id = args.node_id;
        multipath = args.multipath;
      })

  pub auto_connect-Keeps :
      (game : GameProfile) (node : NodeInfo) (multipath : Bool)
      → Keeps P (auto_connect env game node multipath)
  unfolding auto_connect
  auto_connect-Keeps game node multipath =
      bind-Keeps P (authorized env to_text session)
        (λ resp.
          open_boost env (auto_mode env game resp) (λ boost. unwrap_or (local_port boost) 0) resp)
        (authorized-Keeps env P kept.free to_text session (to_text-Keeps env P kept.free))
        λ resp. open_boost-Keeps _ _ resp (auto_mode-Yields env P kept.starting game resp)
    where
      session : ApiClient → Bytes → Call SessionStartResponse
      session api =
          Requests.start_session env.server env.json api
            (record { game_slug = game.slug; node_id = node.id; multipath = some multipath })
