-- ===== src/Client/Runs/Tokens.antt =====
-- client/src-tauri/src: the tokens in the memory and on the disk over a run.
use plgames_booster_up.Base.{
  ℕ, ◌≡◌, ap, ◌≢◌, refl, sym, subst, ◌∙◌, Bytes, ◌||◌, Option, none, some, List, is_empty,
  Option-cases, inl, inr, if◌then◌else◌, arith,
}
use plgames_booster_up.Client.Api.Types.{AuthTokens}
use plgames_booster_up.Client.Store.{Codec, succeeds, load_tokens, save, clear}
use plgames_booster_up.Client.App.Rounds.{round_active-rest}
use plgames_booster_up.Client.App.Rest.{stop_active-rest, end_session-rest}
use plgames_booster_up.Client.App.{App, Env, store_tokens, forget_tokens}
use plgames_booster_up.Client.App.Frame.{IsIndependent}
use plgames_booster_up.Client.App.Boost.{stop_active, set_active}
use plgames_booster_up.Client.App.Settings.{start_app}
use plgames_booster_up.Client.Runs.{Action, run, started}
use plgames_booster_up.Client.Runs.Opening.{IsKept}
use plgames_booster_up.Client.Runs.Keeps.{run-keeps}

-- The JSON library for a type: every value can be printed, and what is printed is read back.
pub record IsCodec {A : Type 0} (codec : Codec A) : Type 0 where
  pub printed : (a : A) → codec.to_string a ≢ none
  pub read_back :
      (a : A) (text : Bytes) → codec.to_string a ≡ some text → codec.from_str text ≡ some a

-- The tokens that `load` takes: neither is empty.
abbrev pub usable : Option AuthTokens → Option AuthTokens
usable none = none
usable (some tokens) =
    if is_empty tokens.access_token || is_empty tokens.refresh_token then none else some tokens

-- The tokens in the memory and on the disk.
abbrev kept_tokens : App → Option AuthTokens × Option Bytes
kept_tokens s = (s.tokens, s.auth_file)

abbrev IsSavedAs : Env → Option AuthTokens × Option Bytes → Type 0
IsSavedAs env k = load_tokens env.auth_json k.1 ≡ usable k.0

-- What is loaded at the next start are the tokens in the memory.
abbrev pub IsSaved : Env → App → Type 0
IsSaved env s = IsSavedAs env (kept_tokens s)

module _ (env : Env) (codec : IsCodec env.auth_json) (disk : (n : ℕ) → env.disk n ≡ succeeds) where
  IsSaved-storing : (auth : AuthTokens) (s : App) → IsSaved env (store_tokens env auth s)
  unfolding store_tokens save load_tokens
  IsSaved-storing auth s = elim (Option-cases (env.auth_json.to_string auth)) [
    | inl e ↦ elim (codec.printed auth e) [ ]
    | inr (text, e) ↦ ground (arith, e, disk s.file_changes, codec.read_back auth text e)
  ]

  IsSaved-forgetting : (s : App) → IsSaved env (forget_tokens env s)
  unfolding forget_tokens clear load_tokens
  IsSaved-forgetting s = elim (Option-cases s.auth_file) [
    | inl e ↦ ground (arith, e)
    | inr (t, e) ↦ ground (arith, e, disk s.file_changes)
  ]

  IsSaved-IsIndependent : IsIndependent env (IsSaved env)
  IsSaved-IsIndependent = record {
    sending = λ sent s h. h;
    storing = λ auth s h. IsSaved-storing auth s;
    forgetting = λ s h. IsSaved-forgetting s;
  }

  IsSaved-IsKept : IsKept env (IsSaved env)
  unfolding set_active
  IsSaved-IsKept = record {
    free = IsSaved-IsIndependent;
    starting = λ n sent s h. h;
    activating = λ b sid s r h. subst (IsSavedAs env) (sym (ap kept_tokens (stop_active-rest s))) h;
    ending = λ s h.
        subst (IsSavedAs env)
          (sym (
            ap kept_tokens (end_session-rest env (stop_active s))
            ∙ ap kept_tokens (stop_active-rest s)))
          h;
    rounding = λ second input s h.
        subst (IsSavedAs env) (sym (ap kept_tokens (round_active-rest second input s))) h;
    configuring = λ cfg s h. h;
  }

loaded-usable :
    (codec : Codec AuthTokens) (file : Option Bytes)
    → usable (load_tokens codec file) ≡ load_tokens codec file
unfolding load_tokens
loaded-usable codec none = refl
loaded-usable codec (some text) = elim (Option-cases (codec.from_str text)) [
  | inl e ↦ ground (arith, e)
  | inr (tokens, e) ↦ ground (arith, e)
]

-- With a disk on which every change succeeds and a JSON library that prints tokens and reads them
-- back, a restart after any run loads the tokens that the run ended with, or none when one of the two
-- texts is empty or there are none.
pub tokens_survive_restart :
    (env : Env) (second now : ℕ) (auth_file config_file : Option Bytes) (actions : List Action)
    → IsCodec env.auth_json
    → ((n : ℕ) → env.disk n ≡ succeeds)
    → (let s = (run env second actions (started env now auth_file config_file)).app in
        (start_app env s.auth_file s.config_file).tokens ≡ usable s.tokens)
unfolding started start_app
tokens_survive_restart env second now auth_file config_file actions codec disk =
    run-keeps env (IsSaved env) (IsSaved-IsKept env codec disk) second actions
      (started env now auth_file config_file) (sym (loaded-usable env.auth_json auth_file))
