-- ===== src/Client/App/Updates.antt =====
-- client/src-tauri/src/commands.rs: what a change of a setting does, and how a sign-in ends.
use plgames_booster_up.Base.{
  ◌≡◌, ◌≢◌, refl, Bytes, false, none, some, bytes_eq, bytes_eq_sound, Bool-cases, inl, inr, arith,
}
use plgames_booster_up.Base.Results.{ok, err}
use plgames_booster_up.Client.Store.{AppConfig}
use plgames_booster_up.Client.Api.Requests.{print_bool}
use plgames_booster_up.Client.App.{App, Env, unknown_setting}
use plgames_booster_up.Client.App.Settings.{
  Key, auto_start, auto_connect, multipath, minimize_to_tray, preferred_node, name, key_of, is_true,
  set_field, cmd_update_settings,
}

-- A setting as a text.
abbrev pub setting : Key → AppConfig → Bytes
setting auto_start cfg = print_bool cfg.auto_start
setting auto_connect cfg = print_bool cfg.auto_connect
setting multipath cfg = print_bool cfg.multipath
setting minimize_to_tray cfg = print_bool cfg.minimize_to_tray
setting preferred_node cfg = cfg.preferred_node

-- What a text means to a setting: every text but `true` is false to one that is no text itself.
abbrev pub meaning : Key → Bytes → Bytes
meaning auto_start value = print_bool (is_true value)
meaning auto_connect value = print_bool (is_true value)
meaning multipath value = print_bool (is_true value)
meaning minimize_to_tray value = print_bool (is_true value)
meaning preferred_node value = value

set_field-setting :
    (k : Key) (value : Bytes) (cfg : AppConfig)
    → setting k (set_field k value cfg) ≡ meaning k value
set_field-setting auto_start value cfg = refl
set_field-setting auto_connect value cfg = refl
set_field-setting multipath value cfg = refl
set_field-setting minimize_to_tray value cfg = refl
set_field-setting preferred_node value cfg = refl

set_field-api_url :
    (k : Key) (value : Bytes) (cfg : AppConfig) → (set_field k value cfg).api_url ≡ cfg.api_url
set_field-api_url auto_start value cfg = refl
set_field-api_url auto_connect value cfg = refl
set_field-api_url multipath value cfg = refl
set_field-api_url minimize_to_tray value cfg = refl
set_field-api_url preferred_node value cfg = refl

set_field-other :
    (other k : Key) (value : Bytes) (cfg : AppConfig)
    → other ≢ k
    → setting other (set_field k value cfg) ≡ setting other cfg
set_field-other auto_start auto_start value cfg d = elim (d refl) [ ]
set_field-other auto_start auto_connect value cfg d = refl
set_field-other auto_start multipath value cfg d = refl
set_field-other auto_start minimize_to_tray value cfg d = refl
set_field-other auto_start preferred_node value cfg d = refl
set_field-other auto_connect auto_start value cfg d = refl
set_field-other auto_connect auto_connect value cfg d = elim (d refl) [ ]
set_field-other auto_connect multipath value cfg d = refl
set_field-other auto_connect minimize_to_tray value cfg d = refl
set_field-other auto_connect preferred_node value cfg d = refl
set_field-other multipath auto_start value cfg d = refl
set_field-other multipath auto_connect value cfg d = refl
set_field-other multipath multipath value cfg d = elim (d refl) [ ]
set_field-other multipath minimize_to_tray value cfg d = refl
set_field-other multipath preferred_node value cfg d = refl
set_field-other minimize_to_tray auto_start value cfg d = refl
set_field-other minimize_to_tray auto_connect value cfg d = refl
set_field-other minimize_to_tray multipath value cfg d = refl
set_field-other minimize_to_tray minimize_to_tray value cfg d = elim (d refl) [ ]
set_field-other minimize_to_tray preferred_node value cfg d = refl
set_field-other preferred_node auto_start value cfg d = refl
set_field-other preferred_node auto_connect value cfg d = refl
set_field-other preferred_node multipath value cfg d = refl
set_field-other preferred_node minimize_to_tray value cfg d = refl
set_field-other preferred_node preferred_node value cfg d = elim (d refl) [ ]

key_of-name : (k : Key) → key_of (name k) ≡ some k
unfolding key_of
key_of-name auto_start = refl
key_of-name auto_connect = refl
key_of-name multipath = refl
key_of-name minimize_to_tray = refl
key_of-name preferred_node = refl

key_of_sound : (key : Bytes) → ((k : Key) → key ≢ name k) → key_of key ≡ none
unfolding key_of
key_of_sound key d = ground (
  arith,
  differs auto_start,
  differs auto_connect,
  differs multipath,
  differs minimize_to_tray,
  differs preferred_node,
)
  where
    differs : (k : Key) → bytes_eq key (name k) ≡ false
    differs k = elim (Bool-cases (bytes_eq key (name k))) [
      | inl e ↦ elim (d k (bytes_eq_sound key (name k) e)) [ ]
      | inr e ↦ e
    ]

-- A change of a setting that there is sets it to what the text means, leaves the other settings and the
-- address of the service alone, and returns the configuration that the state now has; for a key that
-- names no setting it fails and the state is the same.
pub cmd_update_settings_lem :
    (env : Env) (key value : Bytes) (s : App)
    → (((k : Key) → key ≢ name k)
        → cmd_update_settings env key value s ≡ (err (unknown_setting key), s))
      × ((k : Key)
          → key ≡ name k
          → (let s' = (cmd_update_settings env key value s).1 in
              ((cmd_update_settings env key value s).0 ≡ ok s'.config)
              × (setting k s'.config ≡ meaning k value)
              × ((other : Key) → other ≢ k → setting other s'.config ≡ setting other s.config)
              × (s'.config.api_url ≡ s.config.api_url)))
unfolding cmd_update_settings
cmd_update_settings_lem env key value s = (
  λ d. rw (cmd_update_settings, key_of_sound key d) refl,
  λ k e.
      rw (cmd_update_settings, e, key_of-name k)
        (
          refl,
          set_field-setting k value s.config,
          (λ other d. set_field-other other k value s.config d),
          set_field-api_url k value s.config,
        ),
)
