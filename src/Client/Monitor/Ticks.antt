-- ===== src/Client/Monitor/Ticks.antt =====
-- client/src-tauri/src/smart_monitor.rs: what a tick does to the boost.
use plgames_booster_up.Base.{
  ℕ, ◌-◌, ◌*◌, ltb, ◌≡◌, ◌⊎◌, refl, sym, ap, ◌∙◌, subst, Bytes, false, ◌||◌, Option, none, some,
  List, is_some, is_empty, Option-cases, Bool-cases, inl, inr, arith,
}
use plgames_booster_up.Base.Results.{Result, Result-cases}
use plgames_booster_up.Base.Floats.{F64}
use plgames_booster_up.Client.Api.Types.{GameProfile, NodeInfo, GameListResponse}
use plgames_booster_up.Client.Api.Http.{ApiError, History}
use plgames_booster_up.Client.Api.Requests
use plgames_booster_up.Client.GameDetector.{detect_running_game}
use plgames_booster_up.Client.App.Rest.{stop_active-rest, end_session-rest}
use plgames_booster_up.Client.App.{ActiveBoost, App, Env}
use plgames_booster_up.Client.App.Boost.{stop_active}
use plgames_booster_up.Client.Monitor.{
  Monitor, announce, node_of, is_last, connect_if_enabled, game_opened, game_ended, look,
  refresh_and_look, tick,
}
use plgames_booster_up.Client.Monitor.BestNode.{find_best_node}

-- What a tick brings about: what asking the service keeps, and what follows from it, behind a game that
-- was opened and behind one that has ended too.
module _ (env : Env) (P R : App → Type 0)
    (sending : (sent : History) (s : App) → P s → P (record s { requests = sent }))
    (weaken : (s : App) → P s → R s)
    (opened : (game : GameProfile) (m : Monitor) → P m.app → R (game_opened env game m).app)
    (ended : (m : Monitor) → P m.app → R (game_ended env m).app) where
  look-brings : (processes : List Bytes) (m : Monitor) → P m.app → R (look env processes m).app
  unfolding look
  look-brings processes m h =
      elim (Option-cases (detect_running_game env.to_lowercase processes m.games_cache)) [
        | inl e ↦ elim (Bool-cases (is_some m.last_detected_slug)) [
          | inl l ↦ rw (look, e, l) (ended m h)
          | inr l ↦ rw (look, e, l) (weaken m.app h)
        ]
        | inr (game, e) ↦ elim (Bool-cases (is_last m.last_detected_slug game.slug)) [
          | inl l ↦ rw (look, e, l) (weaken m.app h)
          | inr l ↦ rw (look, e, l) (opened game m h)
        ]
      ]

  refresh_and_look-brings :
      (second now : ℕ) (processes : List Bytes) (m : Monitor)
      → P m.app
      → R (refresh_and_look env second now processes m).app
  unfolding refresh_and_look
  refresh_and_look-brings second now processes m h =
      elim (Bool-cases (is_empty m.games_cache || ltb (300 * second) (now - m.cache_time))) [
        | inl c ↦ elim (Result-cases games.0) [
          | inl (resp, r) ↦
              rw (refresh_and_look, c, r)
                (look-brings processes (found resp) (sending games.1 m.app h))
          | inr (x, r) ↦ rw (refresh_and_look, c, r) (weaken _ (sending games.1 m.app h))
        ]
        | inr c ↦ rw (refresh_and_look, c) (look-brings processes m h)
      ]
    where
      games : Result ApiError GameListResponse × History
      games = Requests.get_games env.server env.json m.app.api none none m.app.requests

      found : GameListResponse → Monitor
      found resp = record m {
        app = record (m.app) { requests = games.1 };
        games_cache = resp.items;
        cache_time = now;
      }

  pub tick-brings :
      (second now : ℕ) (processes : List Bytes) (m : Monitor)
      → P m.app
      → R (tick env second now processes m).app
  unfolding tick
  tick-brings second now processes m h = elim (Option-cases m.app.tokens) [
    | inl e ↦ simp (tick, e) (weaken m.app h)
    | inr (tokens, e) ↦ simp (tick, e) (refresh_and_look-brings second now processes m h)
  ]

-- The user has not asked for automatic connections, and no boost is active.
abbrev pub IsManual : App → Type 0
IsManual s = (s.config.auto_connect ≡ false) × (s.active_proxy ≡ none)

module _ (env : Env) where
  connect_if_enabled-manual :
      (game : GameProfile) (node : Option NodeInfo) (m : Monitor)
      → IsManual m.app
      → connect_if_enabled env game node m ≡ m
  unfolding connect_if_enabled
  connect_if_enabled-manual game none m h = refl
  connect_if_enabled-manual game (some node) m h = ground (arith, h.0)

  announce-app :
      (game : GameProfile) (best : Option (NodeInfo × F64)) (m : Monitor)
      → (announce game best m).app ≡ m.app
  unfolding announce
  announce-app game none m = refl
  announce-app game (some (node, ping)) m = refl

  game_opened-IsManual :
      (game : GameProfile) (m : Monitor) → IsManual m.app → IsManual (game_opened env game m).app
  unfolding game_opened
  game_opened-IsManual game m h =
      rw (game_opened, ap is_some h.1)
        (subst IsManual
          (sym (
            ap (λ x. x.app)
              (connect_if_enabled-manual game (node_of found.0) (announce game found.0 m1)
                announced)
            ∙ announce-app game found.0 m1))
          h)
    where
      found : Option (NodeInfo × F64) × History
      found = find_best_node env.server env.json m.app.api m.app.requests

      m1 : Monitor
      m1 = record m {
        last_detected_slug = some game.slug;
        app = record (m.app) { requests = found.1 };
      }

      announced : IsManual (announce game found.0 m1).app
      announced = subst IsManual (sym (announce-app game found.0 m1)) h

  game_ended-IsManual : (m : Monitor) → IsManual m.app → IsManual (game_ended env m).app
  unfolding game_ended
  game_ended-IsManual m h = rw (game_ended, ap is_some h.1) h

  -- With automatic connections off and no boost active, a tick leaves both so, whatever games it sees
  -- and whatever the service answers.
  pub tick-IsManual :
      (second now : ℕ) (processes : List Bytes) (m : Monitor)
      → IsManual m.app
      → IsManual (tick env second now processes m).app
  tick-IsManual =
      tick-brings env IsManual IsManual (λ sent s h. h) (λ s h. h) game_opened-IsManual
        game_ended-IsManual

-- The boost is the active one, and the number of starts tried.
abbrev pub IsActive : ActiveBoost → ℕ → App → Type 0
IsActive b starts s = (s.active_proxy ≡ some b) × (s.starts ≡ starts)

-- The boost is the active one or none is, and the number of starts tried.
abbrev pub NoStart : ActiveBoost → ℕ → App → Type 0
NoStart b starts s = ((s.active_proxy ≡ some b) ⊎ (s.active_proxy ≡ none)) × (s.starts ≡ starts)

game_opened-active :
    (env : Env) (b : ActiveBoost) (starts : ℕ) (game : GameProfile) (m : Monitor)
    → IsActive b starts m.app
    → NoStart b starts (game_opened env game m).app
unfolding game_opened
game_opened-active env b starts game m h = rw (game_opened, ap is_some h.0) (inl h.0, h.1)

game_ended-active :
    (env : Env) (b : ActiveBoost) (starts : ℕ) (m : Monitor)
    → IsActive b starts m.app
    → NoStart b starts (game_ended env m).app
unfolding game_ended
game_ended-active env b starts m h =
    let ended = end_session-rest env (stop_active m.app) in
    let taken = stop_active-rest m.app in
    rw (game_ended, ap is_some h.0)
      (
        inr (ap (λ t. t.active_proxy) ended ∙ ap (λ t. t.active_proxy) taken),
        ap (λ t. t.starts) ended ∙ ap (λ t. t.starts) taken ∙ h.1,
      )

-- While a boost is active, a tick tries no start: behind it that boost is the active one, or none is.
pub tick-active :
    (env : Env) (b : ActiveBoost) (starts second now : ℕ) (processes : List Bytes) (m : Monitor)
    → IsActive b starts m.app
    → NoStart b starts (tick env second now processes m).app
tick-active env b starts =
    tick-brings env (IsActive b starts) (NoStart b starts) (λ sent s h. h) (λ s h. (inl h.0, h.1))
      (game_opened-active env b starts) (game_ended-active env b starts)
