-- ===== src/Relay/Api/Guard.antt =====
-- relay/src/api.rs: the key guards every route but `/health`, and what an admitted request does.
use plgames_booster_up.Base.{
  ℕ, ◌≡◌, ◌≢◌, ◌<◌, refl, ◌⊎◌, inl, inr, Option, none, some, List, [], arith, Bytes, unwrap_or,
  Bool-cases,
}
use plgames_booster_up.Net.{Ipv6Text, SocketAddr}
use plgames_booster_up.Relay.Session.{
  SessionCache, SessionInfo, UdpSocket, active_count, lookup, token_by_port, register, unregister,
  new_session,
}
use plgames_booster_up.Relay.Session.Capacity.{register_success}
use plgames_booster_up.Relay.Api.{
  Request, health, register_session, unregister_session, RegisterRequest, registered, unauthorized,
  handle, respond, authorized, parse_ports, placeholder,
}
use plgames_booster_up.Relay.Api.Key.{constant_time_eq_iff}

-- With a header other than the key, a missing one counting as the empty text, no request changes
-- the cache or starts a listener, and every request but a health check is answered with
-- `unauthorized`.
pub handle_requires_key :
    (v6t : Ipv6Text) (api_key : Bytes) (start_time : ℕ) (c : SessionCache) (header : Option Bytes)
    (request : Request) (bound : Option UdpSocket) (now : ℕ)
    → unwrap_or header [] ≢ api_key
    → let r = handle v6t api_key start_time c header request bound now in
      (r.cache ≡ c) × (r.spawned ≡ none) × ((r.response ≡ unauthorized) ⊎ (request ≡ health))
unfolding handle authorized
handle_requires_key v6t key start c header health bound now wrong = (refl, refl, inr refl)
handle_requires_key v6t key start c header (register_session req) bound now wrong =
    ground (arith, (constant_time_eq_iff (unwrap_or header []) key).0)
handle_requires_key v6t key start c header (unregister_session t) bound now wrong =
    ground (arith, (constant_time_eq_iff (unwrap_or header []) key).0)

respond_lem :
    (v6t : Ipv6Text) (token port : ℕ) (info : SessionInfo) (r : SessionCache × Option ℕ)
    → r.1 ≡ some port
    → lookup r.0 token ≡ some info
    → ((respond v6t token r).response ≡ registered token port)
      × ((respond v6t token r).spawned ≡ some info.forward_socket)
      × ((respond v6t token r).cache ≡ r.0)
respond_lem v6t token port info (c, none) h e = ground arith
respond_lem v6t token port info (c, some q) h e = ground arith

pub respond-cache :
    (v6t : Ipv6Text) (token : ℕ) (r : SessionCache × Option ℕ) → (respond v6t token r).cache ≡ r.0
respond-cache v6t token (c, none) = refl
respond-cache v6t token (c, some q) = refl

-- With the key, room and a bound socket, a registration answers with the socket's port, the port
-- leads to the token, and the listener is spawned on that socket.
pub handle_register_success :
    (v6t : Ipv6Text) (api_key : Bytes) (start_time : ℕ) (c : SessionCache) (req : RegisterRequest)
    (socket : UdpSocket) (port now : ℕ)
    → active_count c < c.max_sessions
    → socket.local_port ≡ some port
    → let r =
        handle v6t api_key start_time c (some api_key) (register_session req) (some socket) now in
      (r.response ≡ registered req.session_token port)
      × (r.spawned ≡ some socket)
      × (token_by_port r.cache port ≡ some req.session_token)
unfolding handle authorized new_session
handle_register_success v6t key start c req socket port now room port_of =
    let (result, routed, entry) =
      register_success v6t c req.session_token placeholder req.game_server_ips
        (parse_ports req.game_ports) socket port now req.session_token room port_of in
    rw ((constant_time_eq_iff key key).1 refl) (
      ground (
        arith,
        respond_lem v6t req.session_token port
            (new_session v6t req.session_token placeholder req.game_server_ips
              (parse_ports req.game_ports) socket now)
            (register v6t c req.session_token placeholder req.game_server_ips
              (parse_ports req.game_ports) (some socket) now),
      ))

-- What holds behind a refused request, a registration and a removal holds behind every request.
pub handle_cases {ℓ} :
    (P : SessionCache → Type ℓ) (v6t : Ipv6Text) (api_key : Bytes) (start_time : ℕ)
    (c : SessionCache) (header : Option Bytes) (request : Request) (bound : Option UdpSocket)
    (now : ℕ)
    → P c
    → ((token : ℕ) (addr : SocketAddr) (ips : List Bytes) (ports : List ℕ)
        → P (register v6t c token addr ips ports bound now).0)
    → ((token : ℕ) → P (unregister c token))
    → P (handle v6t api_key start_time c header request bound now).cache
unfolding handle
handle_cases P v6t key start c header health bound now same added removed = same
handle_cases P v6t key start c header (register_session req) bound now same added removed =
    let token = req.session_token in
    let ports = parse_ports req.game_ports in
    elim (Bool-cases (authorized v6t key header)) [
      | inr refused ↦ rw refused same
      | inl admitted ↦ rw admitted (
          rw
            (respond-cache v6t token
              (register v6t c token placeholder req.game_server_ips ports bound now))
            (added token placeholder req.game_server_ips ports))
    ]
handle_cases P v6t key start c header (unregister_session token) bound now same added removed =
    elim (Bool-cases (authorized v6t key header)) [
      | inr refused ↦ rw refused same
      | inl admitted ↦ rw admitted (removed token)
    ]
