-- ===== src/Tunnel/Answers.antt =====
-- client/src-tauri/src/udp_proxy.rs and relay/src/forwarder.rs: how many answers come back.
use plgames_booster_up.Base.{ℕ, ◌≡◌, ◌≤◌, ◌⊎◌, Bytes, true, List, [], length}
use plgames_booster_up.Relay.Protocol
use plgames_booster_up.Client.Proxy.{elem}

-- Nothing was handed to the game and no number was seen, or 0 was seen and at most one payload was
-- handed.
abbrev AtMostOne : List ℕ → List Bytes → Type 0
AtMostOne seen shown = ((seen ≡ []) × (shown ≡ [])) ⊎ ((elem 0 seen ≡ true) × (length shown ≤ 1))
