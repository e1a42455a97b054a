-- ===== src/Client/Api/Types.antt =====
-- client/src-tauri/src/api_client.rs: the structures that the client and the API service exchange.
use plgames_booster_up.Base.{ℕ, Bool, Bytes, Option, List}
use plgames_booster_up.Base.Int.{ℤ}
use plgames_booster_up.Base.Floats.{F64}

pub record TokenResponse : Type 0 where
  pub access_token : Bytes
  pub refresh_token : Bytes
  pub token_type : Bytes

pub record User : Type 0 where
  pub id : Bytes
  pub email : Bytes
  pub username : Bytes
  pub subscription_tier : Bytes
  pub subscription_expires_at : Option Bytes
  pub created_at : Bytes

pub record UserStats : Type 0 where
  pub total_sessions : ℤ
  pub total_bytes_sent : ℤ
  pub total_bytes_received : ℤ
  pub avg_ping : Option F64
  pub favorite_game : Option Bytes

pub record GameProfile : Type 0 where
  pub id : Bytes
  pub name : Bytes
  pub slug : Bytes
  pub exe_names : List Bytes
  pub server_ips : List Bytes
  pub ports : List Bytes
  pub protocol : Bytes
  pub category : Bytes
  pub is_popular : Bool
  pub created_at : Bytes

pub record GameListResponse : Type 0 where
  pub items : List GameProfile
  pub total : ℤ

pub record NodeInfo : Type 0 where
  pub id : Bytes
  pub name : Bytes
  pub location : Bytes
  pub city : Bytes
  pub ip_address : Bytes
  pub status : Bytes
  pub current_load : ℤ
  pub max_sessions : ℤ
  pub relay_port : ℤ
  pub created_at : Bytes

pub record NodePingResponse : Type 0 where
  pub node_id : Bytes
  pub ping_ms : Option F64
  pub status : Bytes

pub record SessionStartRequest : Type 0 where
  pub game_slug : Bytes
  pub node_id : Bytes
  pub multipath : Option Bool

pub record SessionStartResponse : Type 0 where
  pub session_id : Bytes
  -- A `u32`.
  pub session_token : ℕ
  pub node_ip : Bytes
  pub node_port : ℤ
  pub backup_node_ip : Option Bytes
  pub backup_node_port : Option ℤ
  pub multipath_enabled : Bool
  pub status : Bytes
  pub game_server_ips : List Bytes
  pub game_ports : List Bytes

pub record SessionStopResponse : Type 0 where
  pub session_id : Bytes
  pub status : Bytes
  pub duration_seconds : Option ℤ
  pub bytes_sent : ℤ
  pub bytes_received : ℤ

pub record SessionHistoryItem : Type 0 where
  pub id : Bytes
  pub game_name : Bytes
  pub node_location : Bytes
  pub status : Bytes
  pub started_at : Option Bytes
  pub ended_at : Option Bytes
  pub avg_ping : Option F64
  pub bytes_sent : ℤ
  pub bytes_received : ℤ
  pub multipath_enabled : Bool

pub record TrialResponse : Type 0 where
  pub tier : Bytes
  pub plan : Bytes
  pub started_at : Option Bytes
  pub expires_at : Option Bytes
  pub is_active : Bool
  pub days_remaining : ℤ

-- The tokens that the client keeps: `AuthTokens` of client/src-tauri/src/auth.rs.
pub record AuthTokens : Type 0 where
  pub access_token : Bytes
  pub refresh_token : Bytes
