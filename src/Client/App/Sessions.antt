-- ===== src/Client/App/Sessions.antt =====
-- client/src-tauri/src/commands.rs: the sessions that the service has opened, and their end.
use plgames_booster_up.Base.{
  ◌≡◌, ◌≤◌, refl, ap, ◌∙◌, Bytes, Option, none, some, ◌∷◌, ◌++◌, length, Option-cases, inl, inr,
  arith,
}
use plgames_booster_up.Base.Results.{
  ok, ◌>>=◌, ◌>>◌, lift, ok_or, pure, modify, Keeps, bind-Keeps, bind_ok,
}
use plgames_booster_up.Client.Api.Types.{AuthTokens, SessionStartResponse}
use plgames_booster_up.Client.Api.Http.{History}
use plgames_booster_up.Client.Api.Requests.{ApiClient, stop_request, stop_session}
use plgames_booster_up.Client.Api.Refresh.{exchange-Sends, with_auto_refresh-history}
use plgames_booster_up.Client.App.Rest.{stop_active-rest, end_session-rest}
use plgames_booster_up.Client.App.{
  ActiveBoost, App, Env, Command, invalid_relay_address, to_text, forget_tokens, authorized,
}
use plgames_booster_up.Client.App.Boost.{
  BoostRequest, BoostStatus, stop_active, end_session, connect, cmd_stop_boost, start_mode,
  open_boost, set_active, relay_addr, new_status,
}
use plgames_booster_up.Client.App.Commands.{cmd_logout}
use plgames_booster_up.Client.App.Outcomes.{session_request}
use plgames_booster_up.Client.Runs.Opening.{start_mode-Yields}

-- Nothing is asked of the service.
abbrev HasSent : History → App → Type 0
HasSent sent s = s.requests ≡ sent

opened-HasSent :
    (env : Env) (args : BoostRequest) (resp : SessionStartResponse) (sent : History)
    → Keeps (HasSent sent) (open_boost env (start_mode env args resp) (new_status resp) resp)
unfolding open_boost set_active
opened-HasSent env args resp sent =
    bind-Keeps (HasSent sent) (lift (ok_or (relay_addr env resp) invalid_relay_address))
      (λ relay. start_mode env args resp relay >>= finish) (λ s h. h)
      λ relay.
        bind-Keeps (HasSent sent) (start_mode env args resp relay) finish
          (λ s h. (start_mode-Yields env (HasSent sent) (λ n d v l. l) args resp relay s h).0)
          λ boost s h. ap (λ t. t.requests) (stop_active-rest s) ∙ h
  where
    finish : ActiveBoost → Command BoostStatus
    finish boost = modify (set_active boost resp.session_id) >> pure (new_status resp boost)

-- Once the service has opened a session for a boost, starting the boost asks it for nothing more,
-- however it ends, so that a failure behind the opening does not end the session.
pub no_request_after_opening :
    (env : Env) (args : BoostRequest) (s s' : App) (resp : SessionStartResponse)
    → authorized env to_text (session_request env args) s ≡ (ok resp, s')
    → (connect env args s).1.requests ≡ s'.requests
unfolding connect
no_request_after_opening env args s s' resp e =
    ap (λ p. p.1.requests)
      (bind_ok (authorized env to_text (session_request env args))
        (λ r. open_boost env (start_mode env args r) (new_status r) r) s s' resp e)
    ∙ opened-HasSent env args resp s'.requests s' refl

-- What `cmd_stop_boost` does to the state.
pub record StopsBoost (env : Env) (s s' : App) : Type 0 where
  pub active_proxy : s'.active_proxy ≡ none
  pub active_session_id : s'.active_session_id ≡ none
  pub tokens : s'.tokens ≡ s.tokens
  pub unasked : s.tokens ≡ none → s'.requests ≡ s.requests
  pub no_session : s.active_session_id ≡ none → s'.requests ≡ s.requests
  pub asked :
      (sid : Bytes) (t : AuthTokens)
      → s.active_session_id ≡ some sid
      → s.tokens ≡ some t
      → (more : History) × (s'.requests
          ≡ more ++ stop_request env.server env.json s.api sid t.access_token ∷ s.requests)
        × (length more ≤ 2)

-- What an end of a session reads.
abbrev session_of : App → Option AuthTokens × Option Bytes × ApiClient × History
session_of s = (s.tokens, s.active_session_id, s.api, s.requests)

end_session-asked :
    (env : Env) (s : App) (sid : Bytes) (t : AuthTokens)
    → s.active_session_id ≡ some sid
    → s.tokens ≡ some t
    → (more : History) × ((end_session env s).requests
        ≡ more ++ stop_request env.server env.json s.api sid t.access_token ∷ s.requests)
      × (length more ≤ 2)
unfolding end_session
end_session-asked env s sid t hs ht =
    let (more, h, l) =
      with_auto_refresh-history env.server env.json s.api t
        (stop_session env.server env.json s.api sid) (stop_request env.server env.json s.api sid)
        s.requests
        (λ token.
          exchange-Sends env.server env.json s.api env.json.session_stop_response
            (stop_request env.server env.json s.api sid token)) in
    (more, ground (arith, hs, ht, h), l)

end_session-unasked :
    (env : Env) (s : App) → s.tokens ≡ none → (end_session env s).requests ≡ s.requests
unfolding end_session
end_session-unasked env s t = elim (Option-cases s.active_session_id) [
  | inl e ↦ ground (arith, e)
  | inr (sid, e) ↦ ground (arith, e, t)
]

end_session-no_session :
    (env : Env) (s : App) → s.active_session_id ≡ none → (end_session env s).requests ≡ s.requests
unfolding end_session
end_session-no_session env s e = ground (arith, e)

-- `cmd_stop_boost` leaves no boost and no session, and the tokens as they were. Of a session that was
-- noted, a user with tokens asks the service to end it, before at most two requests more; without
-- tokens or without a session nothing is asked.
pub cmd_stop_boost-StopsBoost : (env : Env) (s : App) → StopsBoost env s (cmd_stop_boost env s).1
unfolding cmd_stop_boost
cmd_stop_boost-StopsBoost env s =
    let same = ap session_of (stop_active-rest s) in
    let ended = end_session-rest env (stop_active s) in
    record {
      active_proxy = ap (λ t. t.active_proxy) ended ∙ ap (λ t. t.active_proxy) (stop_active-rest s);
      active_session_id = ap (λ t. t.active_session_id) ended;
      tokens = ap (λ t. t.tokens) ended ∙ ap (λ k. k.0) same;
      unasked = λ e.
          end_session-unasked env (stop_active s) (ap (λ k. k.0) same ∙ e) ∙ ap (λ k. k.3) same;
      no_session = λ e.
          end_session-no_session env (stop_active s) (ap (λ k. k.1) same ∙ e) ∙ ap (λ k. k.3) same;
      asked = λ sid tokens hs ht.
          let (more, h, l) =
            end_session-asked env (stop_active s) sid tokens (ap (λ k. k.1) same ∙ hs)
              (ap (λ k. k.0) same ∙ ht) in
          (
            more,
            h
                ∙ ap
                    (λ k.
                      more ++ stop_request env.server env.json k.2 sid tokens.access_token ∷ k.3)
                    same,
            l,
          );
    }

-- A user who signs out while a boost is active and then stops it leaves the session open: nothing is
-- asked of the service, and the session is noted no longer.
pub logout_keeps_session_open :
    (env : Env) (s : App)
    → (let s' = (cmd_stop_boost env (cmd_logout env s).1).1 in
        (s'.requests ≡ s.requests) × (s'.active_session_id ≡ none))
unfolding cmd_logout forget_tokens
logout_keeps_session_open env s =
    let h = cmd_stop_boost-StopsBoost env (cmd_logout env s).1 in
    (h.unasked refl, h.active_session_id)
