-- ===== src/Relay/Api.antt =====
-- relay/src/api.rs: the management interface. The HTTP framework decodes requests and encodes
-- responses; here they are data. The registration's answer of the operating system and the times
-- are arguments.
pub mod Key
pub mod Guard
use plgames_booster_up.Base.{
  ℕ, ◌-◌, ◌/◌, Bytes, Bool, true, false, not, Option, none, some, List, [], ◌∷◌, ◌==◌,
  if◌then◌else◌, length, bit_or, bit_xor, unwrap_or,
}
use plgames_booster_up.Base.Decimal.{parse_number}
use plgames_booster_up.Net.{Ipv6Text, IpAddr, Ipv4Addr, v4, SocketAddr}
use plgames_booster_up.Relay.Session.{
  SessionCache, SessionInfo, UdpSocket, lookup, active_count, register, unregister,
}

pub record RegisterRequest : Type 0 where
  pub session_token : ℕ
  pub game_server_ips : List Bytes
  pub game_ports : List Bytes

-- The routes.
pub data Request : Type 0 where
  health : Request
  register_session : RegisterRequest → Request
  unregister_session : ℕ → Request

-- The responses, with their fields; `unauthorized` and `unavailable` carry fixed error texts.
pub data ApiResponse : Type 0 where
  registered : ℕ → ℕ → ApiResponse
  unavailable : ApiResponse
  unregistered : ℕ → ApiResponse
  healthy : ℕ → ℕ → ApiResponse
  unauthorized : ApiResponse

-- The loop over the zipped bytes, with the accumulator.
unfoldable pub diff_bytes : ℕ → Bytes → Bytes → ℕ
diff_bytes diff [] ys = diff
diff_bytes diff (x ∷ xs) [] = diff
diff_bytes diff (x ∷ xs) (y ∷ ys) = diff_bytes (bit_or diff (bit_xor x y)) xs ys

unfoldable pub constant_time_eq : Bytes → Bytes → Bool
unfolding diff_bytes
constant_time_eq a b = if length a == length b then diff_bytes 0 a b == 0 else false

-- `filter_map(|p| p.parse().ok())` at `u16`.
unfoldable pub parse_ports : List Bytes → List ℕ
parse_ports [] = []
parse_ports (p ∷ ps) =
    let rest = parse_ports ps in
    elim (parse_number 65535 p) [ none ↦ rest | some port ↦ port ∷ rest ]

abbrev pub placeholder : SocketAddr
placeholder = record { ip = v4 (record { o0 = 0; o1 = 0; o2 = 0; o3 = 0 }); port = 0 }

-- What a request leaves: the cache, the response, and the socket for which a response listener is
-- spawned.
pub record Handled : Type 0 where
  pub cache : SessionCache
  pub response : ApiResponse
  pub spawned : Option UdpSocket

module _ (v6t : Ipv6Text) where
  abbrev pub respond : ℕ → SessionCache × Option ℕ → Handled
  respond token (c, none) = record { cache = c; response = unavailable; spawned = none }
  respond token (c, some port) = record {
    cache = c;
    response = registered token port;
    spawned = elim (lookup c token) [ none ↦ none | some info ↦ some info.forward_socket ];
  }

  unfoldable pub handle_register : SessionCache → RegisterRequest → Option UdpSocket → ℕ → Handled
  unfolding parse_ports
  handle_register c req bound now = respond req.session_token (
      register v6t c req.session_token placeholder req.game_server_ips (parse_ports req.game_ports)
        bound now)

  unfoldable pub handle_unregister : SessionCache → ℕ → Handled
  handle_unregister c token = record {
    cache = unregister c token;
    response = unregistered token;
    spawned = none;
  }

  -- Milliseconds since the start are shown as seconds.
  unfoldable pub handle_health : SessionCache → ℕ → ℕ → Handled
  handle_health c start_time now = record {
    cache = c;
    response = healthy (active_count c) ((now - start_time) / 1000);
    spawned = none;
  }

  -- The middleware in front of the session routes; a missing or unreadable header counts as empty.
  unfoldable pub authorized : Bytes → Option Bytes → Bool
  unfolding constant_time_eq
  authorized api_key header = constant_time_eq (unwrap_or header []) api_key

  -- The router: every route but `/health` stands behind the middleware.
  unfoldable pub handle :
      Bytes → ℕ → SessionCache → Option Bytes → Request → Option UdpSocket → ℕ → Handled
  unfolding handle_register handle_unregister handle_health
  handle api_key start_time c header health bound now = handle_health c start_time now
  handle api_key start_time c header (register_session req) bound now =
      if authorized api_key header
      then handle_register c req bound now
      else record { cache = c; response = unauthorized; spawned = none }
  handle api_key start_time c header (unregister_session token) bound now =
      if authorized api_key header
      then handle_unregister c token
      else record { cache = c; response = unauthorized; spawned = none }
