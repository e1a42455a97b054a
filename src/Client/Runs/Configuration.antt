-- ===== src/Client/Runs/Configuration.antt =====
-- client/src-tauri/src: the configuration in the memory and on the disk, over a run.
use plgames_booster_up.Base.{
  ℕ, ◌≡◌, ap, sym, subst, ◌∙◌, Bytes, Option, none, some, List, Option-cases, inl, inr, arith,
}
use plgames_booster_up.Client.Store.{AppConfig, default_config, load_config, succeeds, save}
use plgames_booster_up.Client.App.Rounds.{round_active-rest}
use plgames_booster_up.Client.App.Rest.{stop_active-rest, end_session-rest}
use plgames_booster_up.Client.App.{App, Env, store_tokens, forget_tokens}
use plgames_booster_up.Client.App.Boost.{stop_active, set_active}
use plgames_booster_up.Client.App.Settings.{start_app}
use plgames_booster_up.Client.Runs.{Action, run, started}
use plgames_booster_up.Client.Runs.Opening.{IsKept}
use plgames_booster_up.Client.Runs.Tokens.{IsCodec}
use plgames_booster_up.Client.Runs.Keeps.{run-keeps}

-- The configuration in the memory and on the disk.
abbrev configured : App → AppConfig × Option Bytes
configured s = (s.config, s.config_file)

abbrev IsConfiguredAs : Env → AppConfig × Option Bytes → Type 0
IsConfiguredAs env k = (load_config env.config_json (env.disk 0) k.1).0 ≡ k.0

-- What is loaded at the next start is the configuration in the memory.
abbrev IsConfigured : Env → App → Type 0
IsConfigured env s = IsConfiguredAs env (configured s)

module _ (env : Env) (codec : IsCodec env.config_json)
    (disk : (n : ℕ) → env.disk n ≡ succeeds) where
  load-save :
      (cfg : AppConfig) (n : ℕ) (old : Option Bytes)
      → (load_config env.config_json (env.disk 0) (save env.config_json (env.disk n) cfg old)).0
        ≡ cfg
  unfolding load_config save
  load-save cfg n old = elim (Option-cases (env.config_json.to_string cfg)) [
    | inl e ↦ elim (codec.printed cfg e) [ ]
    | inr (text, e) ↦ ground (arith, e, disk n, codec.read_back cfg text e)
  ]

  load-load :
      (file : Option Bytes)
      → (load_config env.config_json
          (env.disk 0)
          (load_config env.config_json (env.disk 0) file).1).0
        ≡ (load_config env.config_json (env.disk 0) file).0
  unfolding load_config
  load-load none = load-save default_config 0 none
  load-load (some text) = elim (Option-cases (env.config_json.from_str text)) [
    | inl e ↦
        let defaults : load_config env.config_json (env.disk 0) (some text)
            ≡ (default_config, save env.config_json (env.disk 0) default_config (some text)) =
          ground (arith, e) in
        rw defaults (load-save default_config 0 (some text))
    | inr (cfg, e) ↦ ground (arith, e)
  ]

  IsConfigured-IsKept : IsKept env (IsConfigured env)
  unfolding set_active store_tokens forget_tokens
  IsConfigured-IsKept = record {
    free = record { sending = λ sent s h. h; storing = λ auth s h. h; forgetting = λ s h. h };
    starting = λ n sent s h. h;
    activating =
        λ b sid s r h. subst (IsConfiguredAs env) (sym (ap configured (stop_active-rest s))) h;
    ending = λ s h.
        subst (IsConfiguredAs env)
          (sym (
            ap configured (end_session-rest env (stop_active s))
            ∙ ap configured (stop_active-rest s)))
          h;
    rounding = λ second input s h.
        subst (IsConfiguredAs env) (sym (ap configured (round_active-rest second input s))) h;
    configuring = λ cfg s h. load-save cfg s.file_changes s.config_file;
  }

-- With a disk on which every change succeeds and a JSON library that prints configurations and reads
-- them back, a restart after any run loads the configuration that the run ended with.
pub config_survives_restart :
    (env : Env) (second now : ℕ) (auth_file config_file : Option Bytes) (actions : List Action)
    → IsCodec env.config_json
    → ((n : ℕ) → env.disk n ≡ succeeds)
    → (let s = (run env second actions (started env now auth_file config_file)).app in
        (start_app env s.auth_file s.config_file).config ≡ s.config)
unfolding started start_app
config_survives_restart env second now auth_file config_file actions codec disk =
    run-keeps env (IsConfigured env) (IsConfigured-IsKept env codec disk) second actions
      (started env now auth_file config_file) (load-load env codec disk config_file)
