-- ===== src/Base/Maps.antt =====
-- Maps from numbers, as association lists: the `DashMap` and `HashMap` of the program, whose
-- iteration order is left open there and is that of the list here.
use Prim.Native.Nat.{ℕ, ◌+◌, ◌≤◌}
use mathlib.Core.Path.{◌≡◌, refl}
use mathlib.Core.Option.{Option, none, some}
use mathlib.Core.Option
use mathlib.Core.List.{List, [], ◌∷◌}
use native.Mathlib.Omega.{arith}
use plgames_booster_up.Base.Tests.{◌==◌, if◌then◌else◌}
use plgames_booster_up.Base.Lists.{length}

module _ {ℓ} {V : Type ℓ} where
  unfoldable pub get : ℕ → List (ℕ × V) → Option V
  get j [] = none
  get j ((k, v) ∷ m) = if k == j then some v else get j m

  unfoldable pub remove : ℕ → List (ℕ × V) → List (ℕ × V)
  remove j [] = []
  remove j ((k, v) ∷ m) = if k == j then remove j m else (k, v) ∷ remove j m

  unfoldable pub insert : ℕ → V → List (ℕ × V) → List (ℕ × V)
  insert k v m = (k, v) ∷ remove k m

  -- Write through the reference that `get_mut` returns, when there is one.
  unfoldable pub modify : ℕ → (V → V) → List (ℕ × V) → List (ℕ × V)
  modify j f [] = []
  modify j f ((k, v) ∷ m) = if k == j then (k, f v) ∷ m else (k, v) ∷ modify j f m

  -- No key is bound twice.
  abbrev pub Unique : List (ℕ × V) → Type ℓ
  Unique [] = Unit
  Unique ((k, v) ∷ m) = (get k m ≡ none) × Unique m

  pub get-remove :
      (j k : ℕ) (m : List (ℕ × V)) → get j (remove k m) ≡ (if k == j then none else get j m)
  unfolding get remove
  get-remove j k [] = ground arith
  get-remove j k ((i, v) ∷ m) = ground (arith, get-remove j k m)

  pub get-insert :
      (j k : ℕ) (v : V) (m : List (ℕ × V))
      → get j (insert k v m) ≡ (if k == j then some v else get j m)
  unfolding insert get
  get-insert j k v m = ground (arith, get-remove j k m)

  pub get-modify :
      (j k : ℕ) (f : V → V) (m : List (ℕ × V))
      → get j (modify k f m) ≡ (if k == j then Option.map f (get j m) else get j m)
  unfolding get modify
  get-modify j k f [] = ground arith
  get-modify j k f ((i, v) ∷ m) = ground (arith, get-modify j k f m)

  pub Unique-remove : (k : ℕ) (m : List (ℕ × V)) → Unique m → Unique (remove k m)
  unfolding remove
  Unique-remove k [] u = u
  Unique-remove k ((i, v) ∷ m) u = ground (arith, Unique-remove k m u.1, get-remove i k m)

  pub Unique-insert : (k : ℕ) (v : V) (m : List (ℕ × V)) → Unique m → Unique (insert k v m)
  unfolding insert
  Unique-insert k v m u = ground (arith, Unique-remove k m u, get-remove k k m)

  pub Unique-modify : (k : ℕ) (f : V → V) (m : List (ℕ × V)) → Unique m → Unique (modify k f m)
  unfolding modify
  Unique-modify k f [] u = u
  Unique-modify k f ((i, v) ∷ m) u = ground (arith, Unique-modify k f m u.1, get-modify i k f m)

  pub length-modify : (k : ℕ) (f : V → V) (m : List (ℕ × V)) → length (modify k f m) ≡ length m
  unfolding modify
  length-modify k f [] = refl
  length-modify k f ((i, v) ∷ m) = ground (arith, length-modify k f m)

  pub remove_miss : (k : ℕ) (m : List (ℕ × V)) → get k m ≡ none → remove k m ≡ m
  unfolding remove get
  remove_miss k [] h = refl
  remove_miss k ((i, v) ∷ m) h = ground (arith, remove_miss k m)

  pub length-remove-le : (k : ℕ) (m : List (ℕ × V)) → length (remove k m) ≤ length m
  unfolding remove
  length-remove-le k [] = omega arith
  length-remove-le k ((i, v) ∷ m) = ground (arith, length-remove-le k m)

  -- A bound key is bound once, so its removal shortens the map by one.
  pub length-remove_hit :
      (k : ℕ) (v : V) (m : List (ℕ × V))
      → Unique m
      → get k m ≡ some v
      → length (remove k m) + 1 ≡ length m
  unfolding remove get
  length-remove_hit k v [] u h = ground arith
  length-remove_hit k v ((i, w) ∷ m) u h =
      ground (arith, length-remove_hit k v m u.1, remove_miss i m u.0)

  pub length-insert_miss :
      (k : ℕ) (v : V) (m : List (ℕ × V)) → get k m ≡ none → length (insert k v m) ≡ length m + 1
  unfolding insert
  length-insert_miss k v m h = ground (arith, remove_miss k m h)

  pub length-insert-le : (k : ℕ) (v : V) (m : List (ℕ × V)) → length (insert k v m) ≤ length m + 1
  unfolding insert
  length-insert-le k v m = omega (arith, length-remove-le k m)
