-- ===== src/Client/App/Late.antt =====
-- client/src-tauri/src/commands.rs: a command whose tokens another command has replaced meanwhile.
use plgames_booster_up.Base.{◌≡◌, ◌⊎◌, ◌+◌, refl, ap, ◌∙◌, inl, inr, Bytes, Option, none, some}
use plgames_booster_up.Base.Results.{err, ◌>>◌, pure, modify, bind_err}
use plgames_booster_up.Client.Api.Types.{AuthTokens}
use plgames_booster_up.Client.Api.Http.{ApiError, Call, unauthorized, refresh_failed, History}
use plgames_booster_up.Client.Api.Requests.{
  ApiClient, get_me, refresh_token, with_auto_refresh, after_first, retry_refreshed, second_attempt,
}
use plgames_booster_up.Client.App.{
  App, Env, Handler, keep_refreshed, session_expired, call, forget_tokens, request_with,
}
use plgames_booster_up.Client.Store.{FileAnswer, succeeds, fails, clear}
use plgames_booster_up.Client.App.Commands.{expired}

refused_twice :
    (env : Env) (s : App) (read : AuthTokens) (sent sent' : History)
    → get_me env.server env.json s.api read.access_token s.requests ≡ (err unauthorized, sent)
    → refresh_token env.server env.json s.api read.refresh_token sent ≡ (err refresh_failed, sent')
    → with_auto_refresh env.server env.json s.api read (get_me env.server env.json s.api) s.requests
      ≡ (err refresh_failed, sent')
unfolding with_auto_refresh after_first retry_refreshed
refused_twice env s read sent sent' refused revoked =
    ap (λ p. after_first env.server env.json s.api read (get_me env.server env.json s.api) p.0 p.1)
      refused
    ∙ bind_err (refresh_token env.server env.json s.api read.refresh_token)
        (second_attempt env.server env.json s.api (get_me env.server env.json s.api)) sent sent'
        refresh_failed revoked

call-err :
    {A : Type 0} (handler : Handler) (f : ApiClient → Call A) (s : App) (e : ApiError)
    (sent : History)
    → f s.api s.requests ≡ (err e, sent)
    → call handler f s ≡ (
      err (handler e (record s { requests = sent })).0,
      (handler e (record s { requests = sent })).1,
    )
unfolding call
call-err handler f s e sent h = simp (call, h) refl

-- The file is gone, or the disk has failed and left a file.
clear-gone :
    (answer : FileAnswer) (file : Option Bytes)
    → (clear answer file ≡ none)
      ⊎ ((left : Option Bytes) × (answer ≡ fails left) × (clear answer file ≡ left))
unfolding clear
clear-gone answer none = inl refl
clear-gone succeeds (some text) = inl refl
clear-gone (fails left) (some text) = inr (left, refl, refl)

-- When the service refuses both the access token and the refresh token that the command has read,
-- `cmd_get_user` says that the session has expired, and leaves a state without tokens, whatever tokens
-- it has by then: those that another command has got from a refresh in between are lost too. Their
-- file is gone as well, unless the disk fails to remove it, and nothing else changes but the requests
-- sent.
pub late_user_signs_out :
    (env : Env) (s : App) (read : AuthTokens) (sent sent' : History)
    → get_me env.server env.json s.api read.access_token s.requests ≡ (err unauthorized, sent)
    → refresh_token env.server env.json s.api read.refresh_token sent ≡ (err refresh_failed, sent')
    → (file : Option Bytes) × (request_with env (expired env) (get_me env.server env.json) read s
        ≡ (
          err session_expired,
          record s {
            requests = sent';
            tokens = none;
            auth_file = file;
            file_changes = s.file_changes + 1;
          },
        ))
      × ((file ≡ none)
          ⊎ ((left : Option Bytes) × (env.disk s.file_changes ≡ fails left) × (file ≡ left)))
unfolding expired forget_tokens
late_user_signs_out env s read sent sent' refused revoked = (
  clear (env.disk s.file_changes) s.auth_file,
  bind_err
      (call (expired env)
        (λ api. with_auto_refresh env.server env.json api read (get_me env.server env.json api)))
      (λ p. modify (keep_refreshed env p.1) >> pure p.0) s
      (forget_tokens env (record s { requests = sent' })) session_expired
      (call-err (expired env)
        (λ api. with_auto_refresh env.server env.json api read (get_me env.server env.json api)) s
        refresh_failed sent' (refused_twice env s read sent sent' refused revoked)),
  clear-gone (env.disk s.file_changes) s.auth_file,
)
