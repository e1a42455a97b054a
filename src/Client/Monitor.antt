-- ===== src/Client/Monitor.antt =====
-- client/src-tauri/src/smart_monitor.rs: one tick of the loop that looks for a running game and boosts
-- it. A tick is a step of its own: no command runs between its parts. Times are in the units of the
-- clock, of which `second` make a second.
pub mod BestNode
pub mod Nearest
pub mod Ticks
use plgames_booster_up.Base.{
  ℕ, ◌+◌, ◌-◌, ◌*◌, Bytes, Bool, false, not, ◌&&◌, ◌||◌, Option, none, some, List, [], ◌∷◌, ◌++◌,
  ltb, if◌then◌else◌, unwrap_or, is_empty, is_some, first, bytes_eq,
}
use plgames_booster_up.Base.Decimal.{parse_number}
use plgames_booster_up.Base.Floats.{F64}
use plgames_booster_up.Base.Results.{ok, err, Op, ◌>>=◌}
use plgames_booster_up.Net.{SocketAddr}
use plgames_booster_up.Client.Api.Types.{GameProfile, NodeInfo, SessionStartResponse}
use plgames_booster_up.Client.Api.Requests
use plgames_booster_up.Client.GameDetector.{detect_running_game}
use plgames_booster_up.Client.Monitor.BestNode.{find_best_node}
use plgames_booster_up.Client.App.{ActiveBoost, App, Env, Command, to_text, authorized}
use plgames_booster_up.Client.App.Boost.{
  first_target, has_targets, open_boost, start_proxy, start_wind_divert, local_port, stop_active,
  end_session,
}

-- What the loop tells the user interface.
pub data Event : Type 0 where
  best_node : NodeInfo → F64 → Event
  game_detected : GameProfile → Option NodeInfo → (auto_connecting : Bool) → Event
  auto_connected : (game_name node_name : Bytes) → (local_port : ℕ) → Event
  game_closed : Event
  auto_disconnected : Event

-- The application with what the loop keeps.
pub record Monitor : Type 0 where
  pub app : App
  pub last_detected_slug : Option Bytes
  pub games_cache : List GameProfile
  pub cache_time : ℕ
  pub events : List Event

abbrev emit : Event → Monitor → Monitor
emit e m = record m { events = m.events ++ e ∷ [] }

-- A game's first port, when it has one and that is a number.
abbrev pub first_port : List Bytes → ℕ
first_port [] = 27015
first_port (p ∷ ps) = unwrap_or (parse_number 65535 p) 27015

-- `last_detected_slug.as_deref() == Some(&slug)`.
abbrev pub is_last : Option Bytes → Bytes → Bool
is_last none slug = false
is_last (some last) slug = bytes_eq last slug

abbrev pub node_of : Option (NodeInfo × F64) → Option NodeInfo
node_of none = none
node_of (some (node, ping)) = some node

-- The events of a game that was opened, with the best node if there is one.
unfoldable pub announce : GameProfile → Option (NodeInfo × F64) → Monitor → Monitor
announce game none m = emit (game_detected game none m.app.config.auto_connect) m
announce game (some (node, ping)) m =
    emit (game_detected game (some node) m.app.config.auto_connect) (emit (best_node node ping) m)

module _ (env : Env) where
  -- The boost of `auto_connect` on a session.
  unfoldable pub auto_mode : GameProfile → SessionStartResponse → SocketAddr → Command ActiveBoost
  unfolding start_proxy start_wind_divert
  auto_mode game resp relay =
      if env.windows && has_targets resp
      then start_wind_divert env resp relay by_proxy
      else by_proxy
    where
      by_proxy : Command ActiveBoost
      by_proxy =
          start_proxy env resp relay (first_target game.server_ips game.ports)
            (first_port game.ports)

  -- The port of the boost, 0 for the interceptor.
  unfoldable pub auto_connect : GameProfile → NodeInfo → Bool → Command ℕ
  unfolding authorized auto_mode open_boost
  auto_connect game node multipath = do
    resp ← authorized env to_text λ api.
        Requests.start_session env.server env.json api
          (record { game_slug = game.slug; node_id = node.id; multipath = some multipath })
    open_boost env (auto_mode game resp) (λ boost. unwrap_or (local_port boost) 0) resp

  unfoldable pub connect_if_enabled : GameProfile → Option NodeInfo → Monitor → Monitor
  unfolding auto_connect
  connect_if_enabled game none m = m
  connect_if_enabled game (some node) m =
      if m.app.config.auto_connect
      then (let (r, app) = auto_connect game node m.app.config.multipath m.app in
          let m' : Monitor = record m { app = app } in
          elim r [ ok port ↦ emit (auto_connected game.name node.name port) m' | err e ↦ m' ])
      else m

  -- A game that was not running at the tick before.
  unfoldable pub game_opened : GameProfile → Monitor → Monitor
  unfolding find_best_node announce connect_if_enabled
  game_opened game m =
      if is_some m.app.active_proxy
      then record m { last_detected_slug = some game.slug }
      else (let (best, sent) = find_best_node env.server env.json m.app.api m.app.requests in
          let m1 : Monitor = record m {
            last_detected_slug = some game.slug;
            app = record (m.app) { requests = sent };
          } in
          connect_if_enabled game (node_of best) (announce game best m1))

  -- No game is running, and one was at the tick before.
  unfoldable pub game_ended : Monitor → Monitor
  unfolding stop_active end_session
  game_ended m =
      let m1 = emit game_closed (record m { last_detected_slug = none }) in
      if is_some m.app.active_proxy
      then emit auto_disconnected (record m1 { app = end_session env (stop_active m.app) })
      else m1

  unfoldable pub look : List Bytes → Monitor → Monitor
  unfolding detect_running_game game_opened game_ended
  look processes m = elim (detect_running_game env.to_lowercase processes m.games_cache) [
    | none ↦ if is_some m.last_detected_slug then game_ended m else m
    | some game ↦ if is_last m.last_detected_slug game.slug then m else game_opened game m
  ]

  -- The games are asked for when there are none or they are older than 300 seconds.
  unfoldable pub refresh_and_look : ℕ → ℕ → List Bytes → Monitor → Monitor
  unfolding look
  refresh_and_look second now processes m =
      if is_empty m.games_cache || ltb (300 * second) (now - m.cache_time)
      then (let (r, sent) =
            Requests.get_games env.server env.json m.app.api none none m.app.requests in
          let m' : Monitor = record m { app = record (m.app) { requests = sent } } in
          elim r [
            | ok resp ↦ look processes (record m' { games_cache = resp.items; cache_time = now })
            | err e ↦ m'
          ])
      else look processes m

  unfoldable pub tick : ℕ → ℕ → List Bytes → Monitor → Monitor
  unfolding refresh_and_look
  tick second now processes m = elim m.app.tokens [
    | none ↦ record m { last_detected_slug = none }
    | some tokens ↦ refresh_and_look second now processes m
  ]
