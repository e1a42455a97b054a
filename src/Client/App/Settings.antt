-- ===== src/Client/App/Settings.antt =====
-- client/src-tauri/src/commands.rs and lib.rs: the commands on the settings, and the start of the
-- application. The entry of the Windows registry that `auto_start` changes is not modelled.
use plgames_booster_up.Base.{
  ◌+◌, Bytes, codes, Bool, Option, none, some, [], if◌then◌else◌, bytes_eq,
}
use plgames_booster_up.Base.Results.{ok, err}
use plgames_booster_up.Client.Store.{AppConfig, load_tokens, load_config, save}
use plgames_booster_up.Client.Api.Requests
use plgames_booster_up.Client.App.{App, Env, Command, unknown_setting}

unfoldable pub cmd_get_settings : Command AppConfig
cmd_get_settings s = (ok s.config, s)

-- The settings that can be changed.
pub data Key : Type 0 where
  auto_start auto_connect multipath minimize_to_tray preferred_node : Key

abbrev pub name : Key → Bytes
name auto_start = codes "auto_start"
name auto_connect = codes "auto_connect"
name multipath = codes "multipath"
name minimize_to_tray = codes "minimize_to_tray"
name preferred_node = codes "preferred_node"

-- The match on the text of the key.
unfoldable pub key_of : Bytes → Option Key
key_of key =
    if bytes_eq key (name auto_start)
    then some auto_start
    else if bytes_eq key (name auto_connect)
    then some auto_connect
    else if bytes_eq key (name multipath)
    then some multipath
    else if bytes_eq key (name minimize_to_tray)
    then some minimize_to_tray
    else if bytes_eq key (name preferred_node)
    then some preferred_node
    else none

abbrev pub is_true : Bytes → Bool
is_true value = bytes_eq value (codes "true")

abbrev pub set_field : Key → Bytes → AppConfig → AppConfig
set_field auto_start value cfg = record cfg { auto_start = is_true value }
set_field auto_connect value cfg = record cfg { auto_connect = is_true value }
set_field multipath value cfg = record cfg { multipath = is_true value }
set_field minimize_to_tray value cfg = record cfg { minimize_to_tray = is_true value }
set_field preferred_node value cfg = record cfg { preferred_node = value }

module _ (env : Env) where
  -- The configuration, in the memory and on the disk.
  abbrev pub store_config : AppConfig → App → App
  store_config cfg s = record s {
    config = cfg;
    config_file = save env.config_json (env.disk s.file_changes) cfg s.config_file;
    file_changes = s.file_changes + 1;
  }

  unfoldable pub cmd_update_settings : Bytes → Bytes → Command AppConfig
  unfolding key_of
  cmd_update_settings key value s = elim (key_of key) [
    | none ↦ (err (unknown_setting key), s)
    | some k ↦ let cfg = set_field k value s.config in (ok cfg, store_config cfg s)
  ]

  -- The state that `run` sets up over the two files that it finds. The disk's first answer is for the
  -- default configuration, whether it is saved or not.
  unfoldable pub start_app : Option Bytes → Option Bytes → App
  start_app auth_file config_file =
      let (config, config_file') = load_config env.config_json (env.disk 0) config_file in
      record {
        api = Requests.new config.api_url;
        tokens = load_tokens env.auth_json auth_file;
        active_proxy = none;
        active_session_id = none;
        config = config;
        requests = [];
        auth_file = auth_file;
        config_file = config_file';
        file_changes = 1;
        starts = 0;
        datagrams = [];
        activated = [];
        stopped = [];
      }
