-- ===== src/Client/App/Frame.antt =====
-- client/src-tauri/src/commands.rs: what the commands keep of the state.
use plgames_booster_up.Base.{Bytes, Option, none, some, Option-cases, inl, inr}
use plgames_booster_up.Base.Results.{Result-cases, ◌>>◌, pure, modify, Keeps, bind-Keeps}
use plgames_booster_up.Client.Api.Types.{AuthTokens, User, TokenResponse}
use plgames_booster_up.Client.Api.Http.{
  ApiError, network, unauthorized, forbidden, not_found, server_error, refresh_failed, History,
  Call,
}
use plgames_booster_up.Client.Api.Requests
use plgames_booster_up.Client.Api.Requests.{ApiClient, with_auto_refresh}
use plgames_booster_up.Client.App.{
  App, Env, Command, CommandError, Handler, to_text, call, store_tokens, forget_tokens,
  keep_refreshed, authorized, request_with,
}
use plgames_booster_up.Client.App.Commands.{refusal, expired, enter, sign_in}

-- What is sent and which tokens are kept does not matter to the predicate.
pub record IsIndependent (env : Env) (P : App → Type 0) : Type 0 where
  pub sending : (sent : History) (s : App) → P s → P (record s { requests = sent })
  pub storing : (auth : AuthTokens) (s : App) → P s → P (store_tokens env auth s)
  pub forgetting : (s : App) → P s → P (forget_tokens env s)

module _ (env : Env) (P : App → Type 0) (free : IsIndependent env P) where
  abbrev pub HandlerKeeps : Handler → Type 0
  HandlerKeeps handler = (e : ApiError) (s : App) → P s → P (handler e s).1

  pub to_text-Keeps : HandlerKeeps to_text
  to_text-Keeps e s h = h

  pub refusal-Keeps : HandlerKeeps refusal
  unfolding refusal
  refusal-Keeps network s h = h
  refusal-Keeps unauthorized s h = h
  refusal-Keeps (forbidden msg) s h = h
  refusal-Keeps not_found s h = h
  refusal-Keeps (server_error text) s h = h
  refusal-Keeps refresh_failed s h = h

  pub expired-Keeps : HandlerKeeps (expired env)
  unfolding expired
  expired-Keeps network s h = h
  expired-Keeps unauthorized s h = free.forgetting s h
  expired-Keeps (forbidden msg) s h = h
  expired-Keeps not_found s h = h
  expired-Keeps (server_error text) s h = h
  expired-Keeps refresh_failed s h = free.forgetting s h

  pub call-Keeps :
      {A : Type 0} (handler : Handler) (f : ApiClient → Call A)
      → HandlerKeeps handler
      → Keeps P (call handler f)
  unfolding call
  call-Keeps handler f quiet s h = elim (Result-cases (f s.api s.requests).0) [
    | inl (a, e) ↦ rw (call, e) (free.sending _ s h)
    | inr (x, e) ↦ rw (call, e) (quiet x _ (free.sending _ s h))
  ]

  keep_refreshed-Keeps :
      (new_tokens : Option AuthTokens) (s : App) → P s → P (keep_refreshed env new_tokens s)
  keep_refreshed-Keeps none s h = h
  keep_refreshed-Keeps (some auth) s h = free.storing auth s h

  pub request_with-Keeps :
      {A : Type 0} (handler : Handler) (f : ApiClient → Bytes → Call A) (tokens : AuthTokens)
      → HandlerKeeps handler
      → Keeps P (request_with env handler f tokens)
  request_with-Keeps handler f tokens quiet =
      bind-Keeps P (call handler (λ api. with_auto_refresh env.server env.json api tokens (f api)))
        (λ p. modify (keep_refreshed env p.1) >> pure p.0) (call-Keeps handler _ quiet)
        λ p.
          bind-Keeps {E = CommandError} P (modify (keep_refreshed env p.1)) (λ u. pure p.0)
            (keep_refreshed-Keeps p.1) (λ u t k. k)

  pub authorized-Keeps :
      {A : Type 0} (handler : Handler) (f : ApiClient → Bytes → Call A)
      → HandlerKeeps handler
      → Keeps P (authorized env handler f)
  unfolding authorized
  authorized-Keeps handler f quiet s h = elim (Option-cases s.tokens) [
    | inl e ↦ simp (authorized, e) h
    | inr (tokens, e) ↦ simp (authorized, e) (request_with-Keeps handler f tokens quiet s h)
  ]

  enter-Keeps : (auth : AuthTokens) → Keeps P (enter env auth)
  unfolding enter
  enter-Keeps auth =
      bind-Keeps P profile (λ user. modify (store_tokens env auth) >> pure user)
        (call-Keeps to_text (λ api. Requests.get_me env.server env.json api auth.access_token)
          to_text-Keeps)
        λ user s h. free.storing auth s h
    where
      profile : Command User
      profile = call to_text λ api. Requests.get_me env.server env.json api auth.access_token

  pub sign_in-Keeps : (f : ApiClient → Call TokenResponse) → Keeps P (sign_in env f)
  unfolding sign_in
  sign_in-Keeps f =
      bind-Keeps P (call to_text f)
        (λ resp.
          enter env
            (record { access_token = resp.access_token; refresh_token = resp.refresh_token }))
        (call-Keeps to_text f to_text-Keeps) λ resp. enter-Keeps _
