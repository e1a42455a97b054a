-- ===== src/Client/Api/Answers.antt =====
-- client/src-tauri/src/api_client.rs: what the answers of the service come to.
use plgames_booster_up.Base.{
  ◌≤◌, ◌<◌, ◌≡◌, ◌↔◌, refl, Bytes, ◌&&◌, Option, some, ltb, leb, unwrap_or, Option-cases,
  Bool-cases, inl, inr, arith,
}
use plgames_booster_up.Base.Results.{
  Result, ok, err, pure, EndsIn, bind-EndsIn, kept-EndsIn, self-EndsIn,
}
use plgames_booster_up.Client.Api.Types.{AuthTokens}
use plgames_booster_up.Client.Api.Http.{
  ApiError, network, unauthorized, forbidden, not_found, server_error, refresh_failed, HttpResponse,
  History, Server, Json, Call, handle_response,
}
use plgames_booster_up.Client.Api.Requests.{
  ApiClient, refresh_token, second_attempt, retry_refreshed, after_first, with_auto_refresh,
}

-- The response has a status of success and a body that reads as the value.
abbrev pub Reads : {A : Type 0} → (Bytes → Option A) → HttpResponse → A → Type 0
Reads decode resp a =
    (200 ≤ resp.status)
    × (resp.status < 300)
    × (body : Bytes) × (resp.body ≡ some body)
    × (decode body ≡ some a)

-- A response comes to a value exactly when its status is one of success and its body reads as that
-- value, and it comes to `Unauthorized`, which leads to a refresh, exactly when its status is 401.
pub handle_response_lem :
    {A : Type 0} (json : Json) (decode : Bytes → Option A) (resp : HttpResponse)
    → ((a : A) → (handle_response json decode resp ≡ ok a) ↔ Reads decode resp a)
      × ((handle_response json decode resp ≡ err unauthorized) ↔ (resp.status ≡ 401))
unfolding handle_response
handle_response_lem json decode resp = (
  λ a. (reads a, λ (lo, hi, body, e, d). ground (arith, e, d)),
  (refused, λ e. ground (arith, e)),
)
  where
    reads : (a : _) → handle_response json decode resp ≡ ok a → Reads decode resp a
    reads a h = elim (Option-cases resp.body) [
      | inl e ↦ elim (Bool-cases (leb 200 resp.status && ltb resp.status 300)) [
        | inl c ↦ ground (arith, e, c)
        | inr c ↦ ground (arith, e, c)
      ]
      | inr (body, e) ↦ elim (Option-cases (decode body)) [
        | inl d ↦ ground (arith, e, d)
        | inr (x, d) ↦ (ground (arith, e, d), ground (arith, e, d), body, e, ground (arith, e, d))
      ]
    ]

    refused : handle_response json decode resp ≡ err unauthorized → resp.status ≡ 401
    refused h = elim (Option-cases resp.body) [
      | inl e ↦ ground (arith, e)
      | inr (body, e) ↦ elim (Option-cases (decode body)) [
        | inl d ↦ ground (arith, e, d)
        | inr (x, d) ↦ ground (arith, e, d)
      ]
    ]

module _ (server : Server) (json : Json) (api : ApiClient) where
  -- The value comes from the call with the access token of the tokens returned, or with that of the
  -- old ones when none are.
  abbrev pub CameFrom :
      {A : Type 0} → AuthTokens → (Bytes → Call A) → A × Option AuthTokens → History → Type 0
  CameFrom tokens f p sent' =
      (before : History) × (f (unwrap_or p.1 tokens).access_token before ≡ (ok p.0, sent'))

  retry-CameFrom :
      {A : Type 0} (tokens : AuthTokens) (f : Bytes → Call A) (sent : History)
      → EndsIn (λ h. Unit {0}) (CameFrom tokens f) (retry_refreshed server json api tokens f sent)
  unfolding retry_refreshed second_attempt
  retry-CameFrom tokens f sent =
      bind-EndsIn (λ h. Unit {0}) (λ new t. Unit {0}) (CameFrom tokens f)
        (refresh_token server json api tokens.refresh_token) (second_attempt server json api f) sent
        (kept-EndsIn (λ t. Unit {0}) (refresh_token server json api tokens.refresh_token sent) tt)
        λ new t u.
          bind-EndsIn (λ h. Unit {0}) (λ a v. f new.access_token t ≡ (ok a, v)) (CameFrom tokens f)
            (f new.access_token)
            (λ result. pure (
              result,
              some (record { access_token = new.access_token; refresh_token = new.refresh_token }),
            ))
            t (self-EndsIn (f new.access_token) t) λ a v e. (t, e)

  after_first-CameFrom :
      {A : Type 0} (tokens : AuthTokens) (f : Bytes → Call A) (sent : History)
      (r : Result ApiError A) (t : History)
      → f tokens.access_token sent ≡ (r, t)
      → EndsIn (λ h. Unit {0}) (CameFrom tokens f) (after_first server json api tokens f r t)
  unfolding after_first
  after_first-CameFrom tokens f sent (ok a) t e = (sent, e)
  after_first-CameFrom tokens f sent (err unauthorized) t e = retry-CameFrom tokens f t
  after_first-CameFrom tokens f sent (err network) t e = tt
  after_first-CameFrom tokens f sent (err (forbidden m)) t e = tt
  after_first-CameFrom tokens f sent (err not_found) t e = tt
  after_first-CameFrom tokens f sent (err (server_error m)) t e = tt
  after_first-CameFrom tokens f sent (err refresh_failed) t e = tt

  -- When a call with a refresh ends with a value, that is what the call answers last, with the access
  -- token of the new tokens that it hands out, or with that of the old ones if it hands out none.
  pub with_auto_refresh-CameFrom :
      {A : Type 0} (tokens : AuthTokens) (f : Bytes → Call A) (sent : History)
      → EndsIn (λ h. Unit {0}) (CameFrom tokens f) (with_auto_refresh server json api tokens f sent)
  unfolding with_auto_refresh
  with_auto_refresh-CameFrom tokens f sent =
      after_first-CameFrom tokens f sent (f tokens.access_token sent).0
        (f tokens.access_token sent).1 refl
