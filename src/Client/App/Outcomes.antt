-- ===== src/Client/App/Outcomes.antt =====
-- client/src-tauri/src/commands.rs: how the commands that start and stop a boost end.
use plgames_booster_up.Base.{
  ◌≡◌, refl, sym, Bytes, true, Option, none, some, List, is_some, Option-cases, inl, inr, subst,
}
use plgames_booster_up.Base.Results.{
  ok, err, ◌>>=◌, ◌>>◌, lift, ok_or, pure, modify, EndsIn, bind-EndsIn, kept-EndsIn, EndsIn-weaken,
  bind_ok, bind_err,
}
use plgames_booster_up.Client.Api.Types.{SessionStartResponse}
use plgames_booster_up.Client.Api.Http.{Call}
use plgames_booster_up.Client.Api.Requests
use plgames_booster_up.Client.Api.Requests.{ApiClient}
use plgames_booster_up.Client.App.{
  ActiveBoost, App, Env, Command, already_connected, invalid_relay_address, to_text, store_tokens,
  forget_tokens, authorized,
}
use plgames_booster_up.Client.App.Frame.{IsIndependent, authorized-Keeps, to_text-Keeps}
use plgames_booster_up.Client.App.Boost.{
  BoostRequest, BoostStatus, check_free, connect, cmd_start_boost, start_mode, open_boost,
  set_active, relay_addr, new_status,
}
use plgames_booster_up.Client.Runs.Opening.{start_mode-Yields}

-- What a boost is to the state: the active boost, its session and the boosts stopped so far.
abbrev pub boosting : App → Option ActiveBoost × Option Bytes × List ActiveBoost
boosting s = (s.active_proxy, s.active_session_id, s.stopped)

abbrev pub SameBoost : App → App → Type 0
SameBoost s s' = boosting s' ≡ boosting s

pub SameBoost-IsIndependent : (env : Env) (s : App) → IsIndependent env (SameBoost s)
unfolding store_tokens forget_tokens
SameBoost-IsIndependent env s = record {
  sending = λ sent t h. h;
  storing = λ auth t h. h;
  forgetting = λ t h. h;
}

-- The boost of a status is the active one, and the status is that of a connection.
pub record IsConnected (status : BoostStatus) (s : App) : Type 0 where
  pub active : is_some s.active_proxy ≡ true
  pub session : s.active_session_id ≡ status.session_id
  pub connected : status.connected ≡ true

-- The request that opens a session.
abbrev pub session_request : Env → BoostRequest → ApiClient → Bytes → Call SessionStartResponse
session_request env args api =
    Requests.start_session env.server env.json api
      (record { game_slug = args.game_slug; node_id = args.node_id; multipath = args.multipath })

opened :
    (env : Env) (args : BoostRequest) (s : App) (resp : SessionStartResponse) (t : App)
    → SameBoost s t
    → EndsIn
        (SameBoost s)
        IsConnected
        (open_boost env (start_mode env args resp) (new_status resp) resp t)
unfolding open_boost set_active
opened env args s resp t h =
    bind-EndsIn (SameBoost s) (λ r. SameBoost s) IsConnected
      (lift (ok_or (relay_addr env resp) invalid_relay_address))
      (λ relay. start_mode env args resp relay >>= finish) t
      (kept-EndsIn (SameBoost s) (lift (ok_or (relay_addr env resp) invalid_relay_address) t) h)
      λ relay u k.
        bind-EndsIn (SameBoost s) (λ b. SameBoost s) IsConnected (start_mode env args resp relay)
          finish u
          (kept-EndsIn (SameBoost s) (start_mode env args resp relay u)
            (start_mode-Yields env (SameBoost s) (λ n sent v l. l) args resp relay u k).0)
          λ b v l. record { active = refl; session = refl; connected = refl }
  where
    finish : ActiveBoost → Command BoostStatus
    finish boost = modify (set_active boost resp.session_id) >> pure (new_status resp boost)

connected :
    (env : Env) (args : BoostRequest) (s : App)
    → EndsIn (SameBoost s) IsConnected (connect env args s)
unfolding connect
connected env args s =
    bind-EndsIn (SameBoost s) (λ r. SameBoost s) IsConnected
      (authorized env to_text (session_request env args))
      (λ resp. open_boost env (start_mode env args resp) (new_status resp) resp) s
      (kept-EndsIn (SameBoost s) (authorized env to_text (session_request env args) s) (
        authorized-Keeps env (SameBoost s) free to_text (session_request env args)
          (to_text-Keeps env (SameBoost s) free) s refl))
      (opened env args s)
  where
    free : IsIndependent env (SameBoost s)
    free = SameBoost-IsIndependent env s

pub free_connects :
    (env : Env) (args : BoostRequest) (s : App)
    → s.active_proxy ≡ none
    → cmd_start_boost env args s ≡ connect env args s
unfolding cmd_start_boost check_free
free_connects env args s e = bind_ok check_free (λ u. connect env args) s s tt free
  where
    free : check_free s ≡ (ok tt, s)
    free = simp (check_free, e) refl

active_refused :
    (env : Env) (args : BoostRequest) (s : App) (b : ActiveBoost)
    → s.active_proxy ≡ some b
    → cmd_start_boost env args s ≡ (err already_connected, s)
unfolding cmd_start_boost check_free
active_refused env args s b e =
    bind_err check_free (λ u. connect env args) s s already_connected taken
  where
    taken : check_free s ≡ (err already_connected, s)
    taken = simp (check_free, e) refl

-- `cmd_start_boost` either fails, and the active boost, its session and the stopped boosts are the same
-- as before, or it ends with the status of a connection, whose session is the one now noted for an
-- active boost, where no boost was active before.
pub cmd_start_boost_outcome :
    (env : Env) (args : BoostRequest) (s : App)
    → EndsIn
        (SameBoost s)
        (λ status s'. (s.active_proxy ≡ none) × IsConnected status s')
        (cmd_start_boost env args s)
unfolding cmd_start_boost check_free
cmd_start_boost_outcome env args s = elim (Option-cases s.active_proxy) [
  | inl e ↦
      subst (EndsIn (SameBoost s) (λ status s'. (s.active_proxy ≡ none) × IsConnected status s'))
        (sym (free_connects env args s e))
        (EndsIn-weaken (SameBoost s) IsConnected
          (λ status s'. (s.active_proxy ≡ none) × IsConnected status s') (connect env args s)
          (λ status t h. (e, h)) (connected env args s))
  | inr (b, e) ↦
      subst (EndsIn (SameBoost s) (λ status s'. (s.active_proxy ≡ none) × IsConnected status s'))
        (sym (active_refused env args s b e)) refl
]
