-- ===== src/Client/Api/Refresh.antt =====
-- client/src-tauri/src/api_client.rs: what the service is asked, and what comes of its answers.
use plgames_booster_up.Base.{
  ◌≤◌, ◌≡◌, refl, sym, ap, ◌∙◌, Bytes, Option, some, [], ◌∷◌, ◌++◌, length-append, length,
  Option-cases, inl, inr, arith,
}
use mathlib.Core.List.{append_assoc}
use plgames_booster_up.Base.Results.{
  Result, ok, err, Result-cases, ◌>>=◌, lift, pure, bind_ok, bind_err, bind_state,
}
use plgames_booster_up.Client.Api.Types.{TokenResponse, AuthTokens}
use plgames_booster_up.Client.Api.Http.{
  ApiError, network, unauthorized, forbidden, not_found, server_error, refresh_failed, HttpRequest,
  History, Server, Json, Call, send, handle_response,
}
use plgames_booster_up.Client.Api.Requests.{
  ApiClient, exchange, refresh_request, refreshed, refresh_token, second_attempt, retry_refreshed,
  after_first, with_auto_refresh,
}

-- A call that sends the one request.
abbrev pub Sends : {A : Type 0} → HttpRequest → Call A → Type 0
Sends request call = (sent : History) → (call sent).1 ≡ request ∷ sent

module _ (server : Server) (json : Json) (api : ApiClient) where
  send-history :
      (request : HttpRequest) (sent : History) → (send server request sent).1 ≡ request ∷ sent
  send-history request sent = elim (Option-cases (server sent request)) [
    | inl e ↦ simp (send, e) refl
    | inr (resp, e) ↦ simp (send, e) refl
  ]

  pub exchange-Sends :
      {A : Type 0} (decode : Bytes → Option A) (request : HttpRequest)
      → Sends request (exchange server json api decode request)
  unfolding exchange
  exchange-Sends decode request sent =
      bind_state (send server request) (λ resp. lift (handle_response json decode resp)) sent
        (λ r t. refl)
      ∙ send-history request sent

  refresh_token-Sends :
      (token : Bytes)
      → Sends (refresh_request server json api token) (refresh_token server json api token)
  unfolding refresh_token
  refresh_token-Sends token sent =
      bind_state (send server (refresh_request server json api token))
        (λ resp. lift (refreshed server json api resp)) sent (λ r t. refl)
      ∙ send-history (refresh_request server json api token) sent

  second_attempt-Sends :
      {A : Type 0} (f : Bytes → Call A) (request : HttpRequest) (new : TokenResponse)
      → Sends request (f new.access_token)
      → Sends request (second_attempt server json api f new)
  unfolding second_attempt
  second_attempt-Sends f request new sends sent =
      bind_state (f new.access_token) (λ result. pure (result, some new_auth)) sent (λ r t. refl)
      ∙ sends sent
    where
      new_auth : AuthTokens
      new_auth = record { access_token = new.access_token; refresh_token = new.refresh_token }

  -- What a retry sends: the refresh, and the call once more if that succeeds.
  retry-history :
      {A : Type 0} (tokens : AuthTokens) (f : Bytes → Call A) (request : Bytes → HttpRequest)
      (sent : History)
      → ((token : Bytes) → Sends (request token) (f token))
      → (more : History) × ((retry_refreshed server json api tokens f sent).1
          ≡ more ++ refresh_request server json api tokens.refresh_token ∷ sent)
        × (length more ≤ 1)
  unfolding retry_refreshed
  retry-history tokens f request sent sends = elim (Result-cases (refreshing sent).0) [
    | inl (new, e) ↦
        let again =
          second_attempt-Sends f (request new.access_token) new (sends new.access_token)
            (refreshing sent).1 in
        (
          request new.access_token ∷ [],
          rw (retry_refreshed, ◌>>=◌, e) (again ∙ ap (λ h. request new.access_token ∷ h) asked),
          omega arith,
        )
    | inr (x, e) ↦ ([], rw (retry_refreshed, ◌>>=◌, e) asked, omega arith)
  ]
    where
      refreshing : Call TokenResponse
      refreshing = refresh_token server json api tokens.refresh_token

      asked : (refreshing sent).1 ≡ refresh_request server json api tokens.refresh_token ∷ sent
      asked = refresh_token-Sends tokens.refresh_token sent

  after_first-history :
      {A : Type 0} (tokens : AuthTokens) (f : Bytes → Call A) (request : Bytes → HttpRequest)
      (r : Result ApiError A) (sent : History)
      → ((token : Bytes) → Sends (request token) (f token))
      → (more : History) × ((after_first server json api tokens f r sent).1 ≡ more ++ sent)
        × (length more ≤ 2)
  unfolding after_first
  after_first-history tokens f request (ok a) sent sends = ([], refl, omega arith)
  after_first-history tokens f request (err unauthorized) sent sends =
      let (more, h, l) = retry-history tokens f request sent sends in
      let asked = refresh_request server json api tokens.refresh_token in
      (
        more ++ asked ∷ [],
        h ∙ sym (append_assoc more (asked ∷ []) sent),
        omega (arith, length-append more (asked ∷ [])),
      )
  after_first-history tokens f request (err network) sent sends = ([], refl, omega arith)
  after_first-history tokens f request (err (forbidden m)) sent sends = ([], refl, omega arith)
  after_first-history tokens f request (err not_found) sent sends = ([], refl, omega arith)
  after_first-history tokens f request (err (server_error m)) sent sends = ([], refl, omega arith)
  after_first-history tokens f request (err refresh_failed) sent sends = ([], refl, omega arith)

  -- Whatever the service answers, a call with a refresh sends its request with the access token first
  -- and at most two requests more, when the call sends one request.
  pub with_auto_refresh-history :
      {A : Type 0} (tokens : AuthTokens) (f : Bytes → Call A) (request : Bytes → HttpRequest)
      (sent : History)
      → ((token : Bytes) → Sends (request token) (f token))
      → (more : History) × ((with_auto_refresh server json api tokens f sent).1
          ≡ more ++ request tokens.access_token ∷ sent)
        × (length more ≤ 2)
  unfolding with_auto_refresh
  with_auto_refresh-history tokens f request sent sends =
      let (r, sent') = f tokens.access_token sent in
      let (more, h, l) = after_first-history tokens f request r sent' sends in
      (more, h ∙ ap (λ t. more ++ t) (sends tokens.access_token sent), l)

  -- When the service refuses the access token, hands out new tokens and then fails the call with the
  -- new access token, the call with a refresh fails too: the error is all that is left of the refresh.
  pub failed_retry_loses_tokens :
      {A : Type 0} (tokens : AuthTokens) (f : Bytes → Call A) (new : TokenResponse) (e : ApiError)
      (sent sent1 sent2 sent3 : History)
      → f tokens.access_token sent ≡ (err unauthorized, sent1)
      → refresh_token server json api tokens.refresh_token sent1 ≡ (ok new, sent2)
      → f new.access_token sent2 ≡ (err e, sent3)
      → with_auto_refresh server json api tokens f sent ≡ (err e, sent3)
  unfolding with_auto_refresh after_first retry_refreshed second_attempt
  failed_retry_loses_tokens tokens f new e sent sent1 sent2 sent3 refused renewed failed =
      ap (λ p. after_first server json api tokens f p.0 p.1) refused
      ∙ (bind_ok (refresh_token server json api tokens.refresh_token)
            (second_attempt server json api f) sent1 sent2 new renewed
          ∙ bind_err (f new.access_token)
              (λ result. pure (
                result,
                some
                    (record { access_token = new.access_token; refresh_token = new.refresh_token }),
              ))
              sent2 sent3 e failed)
