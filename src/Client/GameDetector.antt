-- ===== src/Client/GameDetector.antt =====
-- client/src-tauri/src/game_detector.rs: the game that is running. The names of the running processes,
-- in the order in which the system lists them, and Unicode lower case are parameters.
use plgames_booster_up.Base.{
  ◌≡◌, ◌≢◌, refl, Bytes, Bool, true, false, ◌||◌, Option, none, some, List, [], ◌∷◌, if◌then◌else◌,
  bytes_eq, bytes_eq_self, bytes_eq_sound, subst, sym, Option-cases, Bool-cases, inl, inr, arith,
}
use mathlib.Core.List.{Memᴰ}
use mathlib.Core.List.Memᴰ.{head, tail, cases_cons}
use plgames_booster_up.Client.Api.Types.{GameProfile}

module _ (to_lowercase : Bytes → Bytes) where
  -- A name of the game's program is that of the process, whose name is in lower case already.
  unfoldable pub runs_as : Bytes → List Bytes → Bool
  runs_as proc_name [] = false
  runs_as proc_name (exe ∷ exes) = bytes_eq proc_name (to_lowercase exe) || runs_as proc_name exes

  unfoldable pub game_of : Bytes → List GameProfile → Option GameProfile
  unfolding runs_as
  game_of proc_name [] = none
  game_of proc_name (game ∷ games) =
      if runs_as proc_name game.exe_names then some game else game_of proc_name games

  unfoldable pub detect_running_game : List Bytes → List GameProfile → Option GameProfile
  unfolding game_of
  detect_running_game [] games = none
  detect_running_game (process ∷ processes) games = elim (game_of (to_lowercase process) games) [
    | some game ↦ some game
    | none ↦ detect_running_game processes games
  ]

-- The game has a program of that name.
abbrev pub RunsAs : (Bytes → Bytes) → Bytes → GameProfile → Type 0
RunsAs to_lowercase process game =
    (exe : Bytes) × Memᴰ exe game.exe_names × (to_lowercase process ≡ to_lowercase exe)

module _ (to_lowercase : Bytes → Bytes) where
  runs_as_sound :
      (proc_name : Bytes) (exes : List Bytes)
      → runs_as to_lowercase proc_name exes ≡ true
      → (exe : Bytes) × Memᴰ exe exes × (proc_name ≡ to_lowercase exe)
  unfolding runs_as
  runs_as_sound proc_name [] h = elim (false-true h) [ ]
    where
      false-true : false ≡ true → ⊥
      false-true e = cc
  runs_as_sound proc_name (exe ∷ exes) h =
      elim (Bool-cases (bytes_eq proc_name (to_lowercase exe))) [
        | inl e ↦ (exe, head refl, bytes_eq_sound proc_name (to_lowercase exe) e)
        | inr e ↦ let (x, m, p) = runs_as_sound proc_name exes (ground (arith, e)) in (x, tail m, p)
      ]

  runs_as_complete :
      (proc_name exe : Bytes) (exes : List Bytes)
      → Memᴰ exe exes
      → proc_name ≡ to_lowercase exe
      → runs_as to_lowercase proc_name exes ≡ true
  unfolding runs_as
  runs_as_complete proc_name exe [] m p = elim m [ ]
  runs_as_complete proc_name exe (x ∷ exes) (head e) p = ground (
    arith,
    subst (λ y. bytes_eq proc_name (to_lowercase y) ≡ true) e
        (subst (λ n. bytes_eq proc_name n ≡ true) p (bytes_eq_self proc_name)),
  )
  runs_as_complete proc_name exe (x ∷ exes) (tail m) p =
      ground (arith, runs_as_complete proc_name exe exes m p)

  game_of_sound :
      (process : Bytes) (games : List GameProfile) (game : GameProfile)
      → game_of to_lowercase (to_lowercase process) games ≡ some game
      → Memᴰ game games × RunsAs to_lowercase process game
  unfolding game_of
  game_of_sound process [] game h = elim (none_some h) [ ]
    where
      none_some : none ≡ some game → ⊥
      none_some e = cc
  game_of_sound process (g ∷ games) game h =
      elim (Bool-cases (runs_as to_lowercase (to_lowercase process) g.exe_names)) [
        | inl e ↦
            let same : g ≡ game = ground (arith, e) in
            (
              head (sym same),
              subst (RunsAs to_lowercase process) same
                  (runs_as_sound (to_lowercase process) g.exe_names e),
            )
        | inr e ↦ let (m, r) = game_of_sound process games game (ground (arith, e)) in (tail m, r)
      ]

  game_of_complete :
      (process : Bytes) (games : List GameProfile) (game : GameProfile)
      → Memᴰ game games
      → RunsAs to_lowercase process game
      → game_of to_lowercase (to_lowercase process) games ≢ none
  unfolding game_of
  game_of_complete process [] game m r n = elim m [ ]
  game_of_complete process (g ∷ games) game (head e) (exe, m, p) n = ground (
    arith,
    subst (λ k. runs_as to_lowercase (to_lowercase process) k.exe_names ≡ true) e
        (runs_as_complete (to_lowercase process) exe game.exe_names m p),
  )
  game_of_complete process (g ∷ games) game (tail k) r n =
      elim (Bool-cases (runs_as to_lowercase (to_lowercase process) g.exe_names)) [
        | inl e ↦ ground (arith, e)
        | inr e ↦ game_of_complete process games game k r (ground (arith, e))
      ]

  detect_running_game_sound :
      (processes : List Bytes) (games : List GameProfile) (game : GameProfile)
      → detect_running_game to_lowercase processes games ≡ some game
      → Memᴰ game games
        × (process : Bytes) × Memᴰ process processes
        × RunsAs to_lowercase process game
  unfolding detect_running_game
  detect_running_game_sound [] games game h = elim (none_some h) [ ]
    where
      none_some : none ≡ some game → ⊥
      none_some e = cc
  detect_running_game_sound (p ∷ processes) games game h =
      elim (Option-cases (game_of to_lowercase (to_lowercase p) games)) [
        | inl e ↦
            let (m, q, k, r) = detect_running_game_sound processes games game (ground (arith, e)) in
            (m, q, tail k, r)
        | inr (g, e) ↦
            let same : g ≡ game = ground (arith, e) in
            let (m, r) = game_of_sound p games g e in
            (subst (λ x. Memᴰ x games) same m, p, head refl, subst (RunsAs to_lowercase p) same r)
      ]

  detect_running_game_complete :
      (processes : List Bytes) (games : List GameProfile)
      → detect_running_game to_lowercase processes games ≡ none
      → (process : Bytes) (game : GameProfile) → Memᴰ process processes
      → Memᴰ game games
      → RunsAs to_lowercase process game
      → ⊥
  unfolding detect_running_game
  detect_running_game_complete [] games h process game m k r = elim m [ ]
  detect_running_game_complete (p ∷ processes) games h process game m k r =
      elim (Option-cases (game_of to_lowercase (to_lowercase p) games)) [
        | inl e ↦ elim (cases_cons m) [
          | inl same ↦
              game_of_complete p games game k (subst (λ x. RunsAs to_lowercase x game) same r) e
          | inr n ↦
              detect_running_game_complete processes games (ground (arith, e)) process game n k r
        ]
        | inr (g, e) ↦ ground (arith, e)
      ]

  -- A game that is found is one of the list, and a process has the name of one of its programs when
  -- both are in lower case; and when no game is found, no process has such a name of any game of the
  -- list.
  pub detect_running_game_lem :
      (processes : List Bytes) (games : List GameProfile)
      → ((game : GameProfile)
          → detect_running_game to_lowercase processes games ≡ some game
          → Memᴰ game games
            × (process : Bytes) × Memᴰ process processes
            × RunsAs to_lowercase process game)
        × (detect_running_game to_lowercase processes games ≡ none
            → (process : Bytes) (game : GameProfile) → Memᴰ process processes
            → Memᴰ game games
            → RunsAs to_lowercase process game
            → ⊥)
  detect_running_game_lem processes games =
      (detect_running_game_sound processes games, detect_running_game_complete processes games)
