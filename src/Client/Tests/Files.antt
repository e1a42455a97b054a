-- ===== src/Client/Tests/Files.antt =====
-- The unit tests of client/src-tauri/src/config.rs and game_detector.rs on the model.
use plgames_booster_up.Base.{◌≡◌, refl, codes, Bool, true, not, ◌&&◌, bytes_eq}
use plgames_booster_up.Client.Store.{default_config}

abbrev test_default_config : Bool
test_default_config =
    let config = default_config in
    bytes_eq config.api_url (codes "https://plgames-boost.duckdns.org")
    && not config.auto_start
    && config.auto_connect
    && not config.multipath
    && bytes_eq config.preferred_node (codes "auto")
    && config.minimize_to_tray

test_default_config_holds : test_default_config ≡ true
test_default_config_holds = refl
