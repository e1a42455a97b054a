-- ===== src/Client/App/Shell.antt =====
-- client/src-tauri/src/commands.rs: the commands around the program itself. What the updater plug-in
-- and the operating system's programs answer is an argument, and an error of theirs is its text.
use plgames_booster_up.Base.{
  ◌≡◌, ◌↔◌, refl, Bytes, codes, Bool, true, false, ◌&&◌, Option, none, some, List, [], ◌∷◌, ◌++◌,
  if◌then◌else◌, unwrap_or, Option-cases, inl, inr, arith,
}
use plgames_booster_up.Base.Results.{Result, ok, err, Result-cases}

-- An update that the plug-in has found.
pub record Update : Type 0 where
  pub version : Bytes
  pub body : Option Bytes

pub record Updater : Type 0 where
  pub init : Result Bytes (Unit {0})
  pub check : Result Bytes (Option Update)
  pub download_and_install : Result Bytes (Unit {0})

pub record UpdateInfo : Type 0 where
  pub available : Bool
  pub version : Option Bytes
  pub body : Option Bytes

-- `map_err` with a prefix, then `?`.
abbrev or_text : {A B : Type 0} → Result Bytes A → Bytes → (A → Result Bytes B) → Result Bytes B
or_text (ok a) prefix k = k a
or_text (err e) prefix k = err (prefix ++ e)

unfoldable pub cmd_check_update : Updater → Result Bytes UpdateInfo
cmd_check_update updater = or_text updater.init (codes "Updater init failed: ") λ u.
    or_text updater.check (codes "Update check failed: ") λ found. elim found [
      | some update ↦
          ok (record { available = true; version = some update.version; body = update.body })
      | none ↦ ok (record { available = false; version = none; body = none })
    ]

-- The program starts again.
pub data Restart : Type 0 where
  restarts : Restart

unfoldable pub cmd_install_update : Updater → Result Bytes Restart
cmd_install_update updater = or_text updater.init (codes "Updater init failed: ") λ u.
    or_text updater.check (codes "Check failed: ") λ found. elim found [
      | none ↦ err (codes "No update available")
      | some update ↦
          or_text updater.download_and_install (codes "Install failed: ") λ v. ok restarts
    ]

-- The exit status of `net session`, when the program runs.
unfoldable pub cmd_check_admin : Bool → Option Bool → Bool
cmd_check_admin windows output = windows && unwrap_or output false

abbrev run_key : Bytes
run_key = codes "HKCU\\Software\\Microsoft\\Windows\\CurrentVersion\\Run"

-- What a run of `reg` leaves: its success and what it writes to its error output.
pub record Output : Type 0 where
  pub success : Bool
  pub stderr : Bytes

-- The runs of `reg` with their arguments, and the result. `exe` is the path of the program.
unfoldable pub set_auto_start :
    Bool
    → Result Bytes Bytes
    → (List Bytes → Result Bytes Output)
    → Bool
    → List (List Bytes) × Result Bytes (Unit {0})
set_auto_start windows exe reg enabled =
    if windows
    then elim exe [
      | err e ↦ ([], err (codes "Cannot get exe path: " ++ e))
      | ok path ↦ if enabled then added path else (removal ∷ [], ok tt)
    ]
    else ([], ok tt)
  where
    addition : Bytes → List Bytes
    addition path =
        codes "add"
        ∷ run_key
        ∷ codes "/v"
        ∷ codes "PLGamesBooster"
        ∷ codes "/t"
        ∷ codes "REG_SZ"
        ∷ codes "/d"
        ∷ (codes "\"" ++ (path ++ codes "\""))
        ∷ codes "/f"
        ∷ []

    removal : List Bytes
    removal = codes "delete" ∷ run_key ∷ codes "/v" ∷ codes "PLGamesBooster" ∷ codes "/f" ∷ []

    added : Bytes → List (List Bytes) × Result Bytes (Unit {0})
    added path = (
      addition path ∷ [],
      or_text (reg (addition path)) (codes "reg add failed: ")
          λ output. if output.success then ok tt else err output.stderr,
    )

-- An update is offered exactly when an installation that the plug-in carries out restarts the program.
pub offered_iff_installable :
    (updater : Updater)
    → updater.download_and_install ≡ ok tt
    → ((info : UpdateInfo) × (cmd_check_update updater ≡ ok info) × (info.available ≡ true))
      ↔ (cmd_install_update updater ≡ ok restarts)
unfolding cmd_check_update cmd_install_update
offered_iff_installable updater carried = elim (Result-cases updater.init) [
  | inr (e, failed) ↦ (λ h. ground arith, λ h. ground arith)
  | inl (u, ready) ↦ elim (Result-cases updater.check) [
    | inr (e, failed) ↦ (λ h. ground arith, λ h. ground arith)
    | inl (found, checked) ↦ elim (Option-cases found) [
      | inl nothing ↦ (λ h. ground arith, λ h. ground arith)
      | inr (update, something) ↦ (
        λ h. ground arith,
        λ h. (
          record { available = true; version = some update.version; body = update.body },
          ground arith,
          refl,
        ),
      )
    ]
  ]
]
