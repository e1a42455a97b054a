-- ===== src/Client/App/Rest.antt =====
-- client/src-tauri/src/commands.rs: what the end of a boost and of its session leave as it was.
use plgames_booster_up.Base.{◌≡◌, refl, ap, none, Option-cases, inl, inr}
use plgames_booster_up.Client.App.{App, Env}
use plgames_booster_up.Client.App.Boost.{stop_active, end_session}

-- Only the active boost and the boosts stopped differ, and no boost is active.
pub stop_active-rest :
    (s : App) → stop_active s ≡ record s { active_proxy = none; stopped = (stop_active s).stopped }
unfolding stop_active
stop_active-rest s = elim (Option-cases s.active_proxy) [
  | inl e ↦ simp (stop_active, e) (ap (λ o. record s { active_proxy = o }) e)
  | inr (b, e) ↦ simp (stop_active, e) refl
]

-- Only the session and the requests differ, and no session is noted.
pub end_session-rest :
    (env : Env) (s : App)
    → end_session env s
      ≡ record s { active_session_id = none; requests = (end_session env s).requests }
unfolding end_session
end_session-rest env s = elim (Option-cases s.active_session_id) [
  | inl e ↦ simp (end_session, e) (ap (λ o. record s { active_session_id = o }) e)
  | inr (sid, e) ↦ elim (Option-cases s.tokens) [
    | inl t ↦ simp (end_session, e, t) refl
    | inr (tokens, t) ↦ simp (end_session, e, t) refl
  ]
]
