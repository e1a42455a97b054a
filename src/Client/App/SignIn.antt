-- ===== src/Client/App/SignIn.antt =====
-- client/src-tauri/src/commands.rs: how a sign-in ends, and the relay's address of a session.
use plgames_booster_up.Base.{ℕ, ◌≤◌, ◌≡◌, refl, ap, sym, subst, Bytes, Option, some}
use plgames_booster_up.Base.Int.{pos, print_int}
use plgames_booster_up.Base.Results.{Result, ok, err, ◌>>◌, pure, modify, EndsIn, bind-EndsIn}
use plgames_booster_up.Net.{Ipv4Addr, IsIpv4, v4, print_ipv4}
use plgames_booster_up.Net.Socket.{parse_socket_addr-print}
use plgames_booster_up.Client.Api.Types.{AuthTokens, User, TokenResponse, SessionStartResponse}
use plgames_booster_up.Client.Api.Http.{ApiError, History, Call}
use plgames_booster_up.Client.Api.Requests
use plgames_booster_up.Client.Api.Requests.{ApiClient}
use plgames_booster_up.Client.App.{App, Env, CommandError, api_error, to_text, call, store_tokens}
use plgames_booster_up.Client.App.Commands.{enter, sign_in}
use plgames_booster_up.Client.App.Boost.{relay_addr}

-- The tokens in the memory and on the disk, and the client.
abbrev pub signed : App → Option AuthTokens × Option Bytes × ApiClient
signed s = (s.tokens, s.auth_file, s.api)

abbrev pub SameTokens : App → App → Type 0
SameTokens s s' = signed s' ≡ signed s

-- The user is the one whose profile the service has given for the access token that is kept.
abbrev pub IsSignedIn : Env → ApiClient → User → App → Type 0
IsSignedIn env api user s =
    (t : AuthTokens) × (before : History) × (s.tokens ≡ some t)
    × (Requests.get_me env.server env.json api t.access_token before ≡ (ok user, s.requests))

-- A call keeps the tokens, and its value is what the service gave.
call-answer :
    {A : Type 0} (f : ApiClient → Call A) (s t : App)
    → SameTokens s t
    → EndsIn
        (SameTokens s)
        (λ a u. SameTokens s u × (f t.api t.requests ≡ (ok a, u.requests)))
        (call to_text f t)
unfolding call
call-answer {A = A} f s t h = of (f t.api t.requests).0 refl
  where
    Answers : Result CommandError A × App → Type 0
    Answers =
        EndsIn (SameTokens s) (λ a u. SameTokens s u × (f t.api t.requests ≡ (ok a, u.requests)))

    answered : App
    answered = record t { requests = (f t.api t.requests).1 }

    of : (r : Result ApiError A) → (f t.api t.requests).0 ≡ r → Answers (call to_text f t)
    of (ok a) e =
        let step : call to_text f t ≡ (ok a, answered) = rw (call, e) refl in
        subst Answers (sym step) (h, ap (λ r. (r, (f t.api t.requests).1)) e)
    of (err x) e =
        let step : call to_text f t ≡ (err (api_error x), answered) = rw (call, e) refl in
        subst Answers (sym step) h

-- A sign-in either fails, with the tokens as they were in the memory and on the disk, or ends with a
-- user whose profile the service has given for the access token that is now kept.
pub sign_in_outcome :
    (env : Env) (f : ApiClient → Call TokenResponse) (s : App)
    → EndsIn (SameTokens s) (IsSignedIn env s.api) (sign_in env f s)
unfolding sign_in enter store_tokens
sign_in_outcome env f s =
    bind-EndsIn (SameTokens s) (λ r t. SameTokens s t × (f s.api s.requests ≡ (ok r, t.requests)))
      (IsSignedIn env s.api) (call to_text f) (λ resp. enter env (tokens_of resp)) s
      (call-answer f s s refl)
      λ resp t h.
        bind-EndsIn (SameTokens s)
          (λ user u.
            SameTokens s u
            × (Requests.get_me env.server env.json t.api resp.access_token t.requests
                ≡ (ok user, u.requests)))
          (IsSignedIn env s.api) (call to_text (profile resp))
          (λ user. modify (store_tokens env (tokens_of resp)) >> pure user) t
          (call-answer (profile resp) s t h.0)
          λ user u k. (
            tokens_of resp,
            t.requests,
            refl,
            subst
                (λ api.
                  Requests.get_me env.server env.json api resp.access_token t.requests
                  ≡ (ok user, u.requests))
                (ap (λ g. g.2) h.0) k.1,
          )
  where
    tokens_of : TokenResponse → AuthTokens
    tokens_of resp = record { access_token = resp.access_token; refresh_token = resp.refresh_token }

    profile : TokenResponse → ApiClient → Call User
    profile resp api = Requests.get_me env.server env.json api resp.access_token

-- When the service names a relay by an IPv4 address in its usual text form and a port below 65536, the
-- client finds that address and port.
pub relay_addr-print :
    (env : Env) (resp : SessionStartResponse) (a : Ipv4Addr) (port : ℕ)
    → IsIpv4 a
    → port ≤ 65535
    → resp.node_ip ≡ print_ipv4 a
    → resp.node_port ≡ pos port
    → relay_addr env resp ≡ some (record { ip = v4 a; port = port })
unfolding relay_addr print_int
relay_addr-print env resp a port h fits hi hp =
    rw (relay_addr, hi, hp) (parse_socket_addr-print env.socket_v6 a port h fits)
