-- ===== src/Client/Store.antt =====
-- client/src-tauri/src/auth.rs and config.rs: the two files that the client keeps. A file is its
-- contents, or none when it is missing or cannot be read. What the disk does with the n-th change of a
-- file is given by the environment; a failure is only logged. The directory of the files is there, since
-- the code ends when it cannot make it.
use plgames_booster_up.Base.{
  Bytes, codes, Bool, true, false, ◌||◌, Option, none, some, if◌then◌else◌, is_empty,
}
use plgames_booster_up.Client.Api.Types.{AuthTokens}

pub record AppConfig : Type 0 where
  pub api_url : Bytes
  pub auto_start : Bool
  pub auto_connect : Bool
  pub multipath : Bool
  pub preferred_node : Bytes
  pub minimize_to_tray : Bool

abbrev pub default_config : AppConfig
default_config = record {
  api_url = codes "https://plgames-boost.duckdns.org";
  auto_start = false;
  auto_connect = true;
  multipath = false;
  preferred_node = codes "auto";
  minimize_to_tray = true;
}

-- `serde_json` for one type: `to_string_pretty` and `from_str`.
pub record Codec (A : Type 0) : Type 0 where
  pub to_string : A → Option Bytes
  pub from_str : Bytes → Option A

-- A change of a file succeeds, or fails and leaves a file.
pub data FileAnswer : Type 0 where
  succeeds : FileAnswer
  fails : Option Bytes → FileAnswer

abbrev pub write_file : FileAnswer → Option Bytes → Option Bytes
write_file succeeds contents = contents
write_file (fails left) contents = left

-- `AuthTokens::load`.
unfoldable pub load_tokens : Codec AuthTokens → Option Bytes → Option AuthTokens
load_tokens codec none = none
load_tokens codec (some text) = elim (codec.from_str text) [
  | none ↦ none
  | some tokens ↦
      if is_empty tokens.access_token || is_empty tokens.refresh_token then none else some tokens
]

-- The file behind `save`, where the file was `old`.
unfoldable pub save : {A : Type 0} → Codec A → FileAnswer → A → Option Bytes → Option Bytes
save codec answer value old = elim (codec.to_string value) [
  | none ↦ old
  | some text ↦ write_file answer (some text)
]

-- The file behind `AuthTokens::clear`.
unfoldable pub clear : FileAnswer → Option Bytes → Option Bytes
clear answer none = none
clear answer (some text) = write_file answer none

-- `AppConfig::load`: the configuration, and the file. The defaults are saved when they are used.
unfoldable pub load_config : Codec AppConfig → FileAnswer → Option Bytes → AppConfig × Option Bytes
unfolding save
load_config codec answer file = elim (read file) [
  | none ↦ (default_config, save codec answer default_config file)
  | some config ↦ (config, file)
]
  where
    read : Option Bytes → Option AppConfig
    read none = none
    read (some text) = codec.from_str text
