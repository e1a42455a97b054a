-- ===== src/Relay/Server.antt =====
-- relay/src/main.rs: how the server starts, and what it then keeps to.
use plgames_booster_up.Base.{
  ℕ, ◌≡◌, ◌≤◌, refl, subst, ◌∙◌, Bytes, Bool, Option, none, some, List, [], ◌∷◌, if◌then◌else◌,
  arith, Option-cases, inl, inr,
}
use plgames_booster_up.Net.{Ipv6Text, SocketAddr}
use plgames_booster_up.Relay.Config.{Config, from_env}
use plgames_booster_up.Relay.Metrics.{new_metrics}
use plgames_booster_up.Relay.Session.{
  SessionCache, UdpSocket, new, register, register_begin, register_finish, unregister,
  unregister_all, cleanup_stale, stale_tokens, active_count,
}
use plgames_booster_up.Relay.Session.Invariant.{IsConsistent}
use plgames_booster_up.Relay.Session.Capacity.{max-unregister}
use plgames_booster_up.Relay.Forwarder.Frame.{
  client_packet-SameShape, after_send-SameShape, game_packet-SameShape, after_reply-SameShape,
}
use plgames_booster_up.Relay.Api.Guard.{handle_cases}
use plgames_booster_up.Relay.System.{
  Step, Reach, client_datagram, send_result, game_datagram, reply_sent, api_request, cleanup, here,
  next,
}
use plgames_booster_up.Relay.System.Invariant.{Reach-start}

-- What the operating system answers while the server starts.
pub record StartAnswers : Type 0 where
  pub socket_created : Bool
  pub recv_buffer_set : Bool
  pub send_buffer_set : Bool
  pub address_reused : Bool
  pub nonblocking_set : Bool
  pub socket_bound : Bool
  pub socket_converted : Bool
  pub metrics_bound : Bool
  pub api_bound : Bool

-- Why the program ends before it serves.
pub data StartFailure : Type 0 where
  no_api_key no_socket not_nonblocking not_bound not_converted api_not_bound : StartFailure

-- `bind_udp_socket`, up to the failure that ends the program. The sizes of the buffers and the reuse
-- of the address may fail.
unfoldable pub bind_udp_socket : StartAnswers → Option StartFailure
bind_udp_socket os =
    if os.socket_created
    then if os.nonblocking_set
      then if os.socket_bound
        then if os.socket_converted then none else some not_converted
        else some not_bound
      else some not_nonblocking
    else some no_socket

-- The tasks' shared state; the task for the metrics ends alone when its port is taken.
pub record Server : Type 0 where
  pub config : Config
  pub cache : SessionCache
  pub serves_metrics : Bool

pub data Started : Type 0 where
  running : Server → Started
  ended : StartFailure → Started

unfoldable pub start_server : (Bytes → Option Bytes) → StartAnswers → Started
unfolding bind_udp_socket
start_server env os = elim (from_env env) [
  | none ↦ ended no_api_key
  | some config ↦
      let server : Server = record {
        config = config;
        cache = new config.max_sessions config.session_timeout new_metrics;
        serves_metrics = os.metrics_bound;
      } in
      elim (bind_udp_socket os) [
        | some failure ↦ ended failure
        | none ↦ if os.api_bound then running server else ended api_not_bound
      ]
]

-- The server that runs is set up from the environment.
started_from :
    (env : Bytes → Option Bytes) (os : StartAnswers) (s : Server)
    → start_server env os ≡ running s
    → (from_env env ≡ some s.config)
      × (s.cache ≡ new s.config.max_sessions s.config.session_timeout new_metrics)
unfolding start_server
started_from env os s h = elim (Option-cases (from_env env)) [
  | inl unset ↦ ground arith
  | inr (config, set) ↦ elim (Option-cases (bind_udp_socket os)) [
    | inr (failure, failed) ↦ ground arith
    | inl bound ↦ ground arith
  ]
]

-- The limit never changes.
HasLimit : ℕ → SessionCache → Type 0
HasLimit most c = c.max_sessions ≡ most

unregister-HasLimit :
    (most token : ℕ) (c : SessionCache) → HasLimit most c → HasLimit most (unregister c token)
unfolding HasLimit
unregister-HasLimit most token c h = max-unregister c token ∙ h

unregister_all-HasLimit :
    (most : ℕ) (c : SessionCache) (ts : List ℕ)
    → HasLimit most c
    → HasLimit most (unregister_all c ts)
unfolding unregister_all
unregister_all-HasLimit most c [] h = h
unregister_all-HasLimit most c (t ∷ ts) h =
    unregister_all-HasLimit most (unregister c t) ts (unregister-HasLimit most t c h)

module _ (v6t : Ipv6Text) (most : ℕ) where
  register-HasLimit :
      (c : SessionCache) (token : ℕ) (addr : SocketAddr) (ips : List Bytes) (ports : List ℕ)
      (bound : Option UdpSocket) (now : ℕ)
      → HasLimit most c
      → HasLimit most (register v6t c token addr ips ports bound now).0
  unfolding register register_begin register_finish HasLimit
  register-HasLimit c token addr ips ports none now h = ground (arith, max-unregister c token)
  register-HasLimit c token addr ips ports (some socket) now h =
      ground (arith, max-unregister c token)

  Step-HasLimit :
      {api_key : Bytes} {start_time : ℕ} {c d : SessionCache}
      → Step v6t api_key start_time c d
      → HasLimit most c
      → HasLimit most d
  unfolding cleanup_stale HasLimit
  Step-HasLimit {c = c} (client_datagram now from bytes) h =
      (client_packet-SameShape v6t c now from bytes).limit ∙ h
  Step-HasLimit {c = c} (send_result answer) h = (after_send-SameShape c answer).limit ∙ h
  Step-HasLimit {c = c} (game_datagram port payload) h =
      (game_packet-SameShape c port payload).limit ∙ h
  Step-HasLimit {c = c} (reply_sent reply) h = (after_reply-SameShape c reply).limit ∙ h
  Step-HasLimit {api_key} {start_time} {c} (api_request header request bound now fresh) h =
      handle_cases (HasLimit most) v6t api_key start_time c header request bound now h
        (λ t addr ips ports. register-HasLimit c t addr ips ports bound now h)
        (λ t. unregister-HasLimit most t c h)
  Step-HasLimit {c = c} (cleanup now) h =
      unregister_all-HasLimit most c (stale_tokens now c.session_timeout c.sessions) h

  Reach-HasLimit :
      {api_key : Bytes} {start_time : ℕ} {c d : SessionCache}
      → HasLimit most c
      → Reach v6t api_key start_time c d
      → HasLimit most d
  Reach-HasLimit h here = h
  Reach-HasLimit h (next r s) = Step-HasLimit s (Reach-HasLimit h r)

-- A server that has started from its environment is, in every state that it reaches by steps that do
-- not overlap a registration, consistent: the two maps of its cache are inverse to one another and
-- the gauge counts the sessions. It never has more sessions than the environment says.
pub server_is_bounded :
    (v6t : Ipv6Text) (env : Bytes → Option Bytes) (os : StartAnswers) (s : Server) (start_time : ℕ)
    (c : SessionCache) (config : Config)
    → start_server env os ≡ running s
    → from_env env ≡ some config
    → Reach v6t s.config.api_key start_time s.cache c
    → IsConsistent c × (active_count c ≤ config.max_sessions)
unfolding new HasLimit
server_is_bounded v6t env os s start_time c config started configured r =
    let (set, fresh) = started_from env os s started in
    let from_new = subst (λ d. Reach v6t s.config.api_key start_time d c) fresh r in
    let (consistent, bounded) =
      Reach-start s.config.max_sessions s.config.session_timeout c from_new in
    let limit : c.max_sessions ≡ s.config.max_sessions =
      Reach-HasLimit v6t s.config.max_sessions refl from_new in
    (consistent, ground arith)
