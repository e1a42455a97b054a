-- ===== src/Client/App/Success.antt =====
-- client/src-tauri/src/commands.rs: a start of a boost that succeeds.
use plgames_booster_up.Base.{
  ℕ, ◌+◌, ◌≡◌, refl, ap, sym, codes, ◌∷◌, ◌∙◌, Bytes, Bool, true, false, ◌&&◌, Option, none, some,
  List, ◌++◌, unwrap_or, inl, inr, arith,
}
use plgames_booster_up.Base.Results.{ok, ◌>>=◌, ◌>>◌, lift, ok_or, pure, modify, bind_ok}
use plgames_booster_up.Net.{SocketAddr}
use plgames_booster_up.Client.Api.Types.{SessionStartResponse}
use plgames_booster_up.Client.Proxy
use plgames_booster_up.Client.Proxy.{UdpProxy, StartAnswers}
use plgames_booster_up.Client.App.{
  ActiveBoost, proxy, App, Env, Command, invalid_relay_address, to_text, authorized,
}
use plgames_booster_up.Client.App.Boost.{
  BoostRequest, BoostStatus, first_target, has_targets, backup_relay_addr, relay_addr, start_proxy,
  start_mode, open_boost, stop_active, set_active, new_status, connect, cmd_start_boost,
}
use plgames_booster_up.Client.Runs.Opening.{Started-cases}
use plgames_booster_up.Client.App.Outcomes.{
  session_request, free_connects, SameBoost, SameBoost-IsIndependent,
}
use plgames_booster_up.Client.App.Frame.{IsIndependent, authorized-Keeps, to_text-Keeps}

-- The sockets are bound, the local one to the port, and the first control packet is sent.
pub record IsReady (os : StartAnswers) (port : ℕ) : Type 0 where
  pub local_bound : os.local_bound ≡ some port
  pub relay_bound : os.relay_bound ≡ true
  pub backup_bound : os.backup_bound ≡ true
  pub control_sent : os.control_sent ≡ true

-- The proxy runs on the session's token and relay, behind the local port.
pub record Serves (token : ℕ) (relay : SocketAddr) (port : ℕ) (p : UdpProxy) : Type 0 where
  pub running : p.running ≡ true
  pub session_token : p.session_token ≡ token
  pub relay_addr : p.relay_addr ≡ relay
  pub local_port : p.local_port ≡ port

proxy_start-Serves :
    (token : ℕ) (relay : SocketAddr) (backup : Option SocketAddr) (target : Bytes)
    (multipath : Bool) (os : StartAnswers) (port : ℕ)
    → IsReady os port
    → (p : UdpProxy) × (sent : List Proxy.Sent) × (Proxy.start token relay backup target multipath
          os
        ≡ Proxy.started p sent)
      × Serves token relay port p
unfolding Proxy.start
proxy_start-Serves token relay backup target multipath os port h =
    elim (Started-cases (Proxy.start token relay backup target multipath os)) [
      | inl (p, sent, e) ↦ (
        p,
        sent,
        e,
        record {
          running = ground (arith, e);
          session_token = ground (arith, e);
          relay_addr = ground (arith, e);
          local_port = ground (arith, e, h.local_bound);
        },
      )
      | inr (x, e) ↦ elim (not_failed x e) [ ]
    ]
  where
    not_failed :
        (x : Proxy.StartError)
        → Proxy.start token relay backup target multipath os ≡ Proxy.failed x
        → ⊥
    not_failed x e = ground (arith, e, h.local_bound, h.relay_bound, h.backup_bound, h.control_sent)

-- What the state becomes when a proxy has started.
abbrev with_start : List Proxy.Sent → App → App
with_start sent s = record s { starts = s.starts + 1; datagrams = s.datagrams ++ sent }

start_mode-proxy :
    (env : Env) (args : BoostRequest) (resp : SessionStartResponse) (relay : SocketAddr) (s : App)
    (port : ℕ)
    → (unwrap_or args.use_windivert env.windows && has_targets resp && env.windows) ≡ false
    → IsReady (env.proxy_answers s.starts (unwrap_or args.local_port 27015)) port
    → (p : UdpProxy) × (sent : List Proxy.Sent) × (start_mode env args resp relay s
        ≡ (ok (proxy p), with_start sent s))
      × Serves resp.session_token relay port p
unfolding start_mode start_proxy
start_mode-proxy env args resp relay s port plain ready =
    let (p, sent, e, serves) =
      proxy_start-Serves resp.session_token relay (backup_relay_addr env resp)
        (unwrap_or args.game_server_target (first_target resp.game_server_ips resp.game_ports))
        resp.multipath_enabled (env.proxy_answers s.starts (unwrap_or args.local_port 27015)) port
        ready in
    (p, sent, rw (start_mode, plain, start_proxy, e) refl, serves)

-- What the answer of the service becomes in the state leaves the boost as it was.
opened_free :
    (env : Env) (args : BoostRequest) (s s' : App) (resp : SessionStartResponse)
    → s.active_proxy ≡ none
    → authorized env to_text (session_request env args) s ≡ (ok resp, s')
    → s'.active_proxy ≡ none
opened_free env args s s' resp free opened =
    ap (λ r. r.1.active_proxy) (sym opened) ∙ ap (λ b. b.0) kept ∙ free
  where
    same : IsIndependent env (SameBoost s)
    same = SameBoost-IsIndependent env s

    kept : SameBoost s (authorized env to_text (session_request env args) s).1
    kept =
        authorized-Keeps env (SameBoost s) same to_text (session_request env args)
          (to_text-Keeps env (SameBoost s) same) s refl

-- The state of a boost on a proxy that has just started.
abbrev boosted : UdpProxy → SessionStartResponse → List Proxy.Sent → App → App
boosted p resp sent s = record s {
  active_proxy = some (proxy p);
  active_session_id = some resp.session_id;
  starts = s.starts + 1;
  datagrams = s.datagrams ++ sent;
  activated = resp.session_token ∷ s.activated;
}

-- The answer that names the session and the port.
abbrev boost_status : SessionStartResponse → ℕ → BoostStatus
boost_status resp port = record {
  connected = true;
  session_id = some resp.session_id;
  local_port = some port;
  stats = none;
  multipath_enabled = resp.multipath_enabled;
  mode = codes "proxy";
}

set_active-boosted :
    (p : UdpProxy) (resp : SessionStartResponse) (sent : List Proxy.Sent) (s : App)
    → s.active_proxy ≡ none
    → p.session_token ≡ resp.session_token
    → set_active (proxy p) resp.session_id (with_start sent s) ≡ boosted p resp sent s
unfolding set_active stop_active
set_active-boosted p resp sent s free token = simp (set_active, stop_active, free, token) refl

-- When no boost is active, the service opens a session, names a relay by an address that parses, no
-- interceptor is wanted or possible, and the system binds the sockets and sends the first control
-- packet, `cmd_start_boost` succeeds: the active boost is a local proxy that runs on the session's token
-- and relay and listens on the port that the system has bound, the session is noted, nothing else that
-- the state keeps has changed since the session was opened, and the answer is that of a connection in
-- the mode "proxy" with the session's id and that port.
pub cmd_start_boost_succeeds :
    (env : Env) (args : BoostRequest) (s s' : App) (resp : SessionStartResponse)
    (relay : SocketAddr) (port : ℕ)
    → s.active_proxy ≡ none
    → authorized env to_text (session_request env args) s ≡ (ok resp, s')
    → relay_addr env resp ≡ some relay
    → (unwrap_or args.use_windivert env.windows && has_targets resp && env.windows) ≡ false
    → IsReady (env.proxy_answers s'.starts (unwrap_or args.local_port 27015)) port
    → (p : UdpProxy) × (sent : List Proxy.Sent) × (cmd_start_boost env args s ≡ (
      ok (record {
        connected = true;
        session_id = some resp.session_id;
        local_port = some port;
        stats = none;
        multipath_enabled = resp.multipath_enabled;
        mode = codes "proxy";
      }),
      record s' {
        active_proxy = some (proxy p);
        active_session_id = some resp.session_id;
        starts = s'.starts + 1;
        datagrams = s'.datagrams ++ sent;
        activated = resp.session_token ∷ s'.activated;
      },
    ))
      × Serves resp.session_token relay port p
unfolding connect open_boost
cmd_start_boost_succeeds env args s s' resp relay port free opened found plain ready =
    let (p, sent, e, serves) = start_mode-proxy env args resp relay s' port plain ready in
    (
      p,
      sent,
      free_connects env args s free
          ∙ (bind_ok (authorized env to_text (session_request env args))
                (λ r. open_boost env (start_mode env args r) (new_status r) r) s s' resp opened
              ∙ (bind_ok (lift (ok_or (relay_addr env resp) invalid_relay_address))
                    (λ a. start_mode env args resp a >>= finish) s' s' relay
                    (ap (λ o. (ok_or o invalid_relay_address, s')) found)
                  ∙ bind_ok (start_mode env args resp relay) finish s' (with_start sent s')
                      (proxy p) e))
          ∙ ap (λ t. (ok (new_status resp (proxy p)), t))
              (set_active-boosted p resp sent s' (opened_free env args s s' resp free opened)
                serves.session_token)
          ∙ ap (λ n. (ok (boost_status resp n), boosted p resp sent s')) serves.local_port,
      serves,
    )
  where
    finish : ActiveBoost → Command BoostStatus
    finish boost = modify (set_active boost resp.session_id) >> pure (new_status resp boost)
