-- ===== src/Base/Results.antt =====
-- Fallible results, and state passing in which a failure keeps the state.
use mathlib.Core.Path.{◌≡◌, refl, sym, ap, subst}
use mathlib.Core.Logic.{◌⊎◌, inl, inr}
use mathlib.Core.Option.{Option, none, some}

pub data Result (E A : Type 0) : Type 0 where
  ok : A → Result E A
  err : E → Result E A

pub Result-cases :
    {E A : Type 0} (r : Result E A) → ((a : A) × (r ≡ ok a)) ⊎ ((e : E) × (r ≡ err e))
Result-cases (ok a) = inl (a, refl)
Result-cases (err e) = inr (e, refl)

abbrev pub map_err : {D E A : Type 0} → (D → E) → Result D A → Result E A
map_err f (ok a) = ok a
map_err f (err e) = err (f e)

abbrev pub ok_or : {E A : Type 0} → Option A → E → Result E A
ok_or none e = err e
ok_or (some a) e = ok a

-- A computation on a state `S`, which ends with a value or an error.
abbrev pub Op : Type 0 → Type 0 → Type 0 → Type 0
Op S E A = S → Result E A × S

infixl 5 ◌>>=◌ ◌>>◌
abbrev pub ◌>>=◌ : {S E A B : Type 0} → Op S E A → (A → Op S E B) → Op S E B
◌>>=◌ m f s = let (r, s') = m s in elim r [ ok a ↦ f a s' | err e ↦ (err e, s') ]

abbrev pub ◌>>◌ : {S E B : Type 0} → Op S E (Unit {0}) → Op S E B → Op S E B
m >> k = m >>= λ _. k

abbrev pub pure : {S E A : Type 0} → A → Op S E A
pure a s = (ok a, s)

abbrev pub lift : {S E A : Type 0} → Result E A → Op S E A
lift r s = (r, s)

abbrev pub gets : {S E A : Type 0} → (S → A) → Op S E A
gets f s = (ok (f s), s)

abbrev pub modify : {S E : Type 0} → (S → S) → Op S E (Unit {0})
modify f s = (ok tt, f s)

-- A predicate on the states that a computation keeps, whether it ends with a value or an error.
abbrev pub Keeps : {S E A : Type 0} → (S → Type 0) → Op S E A → Type 0
Keeps P m = (s : _) → P s → P (m s).1

pub bind-Keeps :
    {S E A B : Type 0} (P : S → Type 0) (m : Op S E A) (k : A → Op S E B)
    → Keeps P m
    → ((a : A) → Keeps P (k a))
    → Keeps P (m >>= k)
bind-Keeps P m k before after s h = elim (Result-cases (m s).0) [
  | inl (a, e) ↦ rw (◌>>=◌, e) (after a (m s).1 (before s h))
  | inr (x, e) ↦ rw (◌>>=◌, e) (before s h)
]

-- What the value is, when there is one.
abbrev pub OnOk : {E A : Type 0} → (A → Type 0) → Result E A → Type 0
OnOk Q (ok a) = Q a
OnOk Q (err e) = Unit {0}

-- A computation that keeps a predicate, and whose value meets another.
abbrev pub Yields : {S E A : Type 0} → (S → Type 0) → (A → Type 0) → Op S E A → Type 0
Yields P Q m = (s : _) → P s → P (m s).1 × OnOk Q (m s).0

pub bind-Yields :
    {S E A B : Type 0} (P : S → Type 0) (Q : A → Type 0) (m : Op S E A) (k : A → Op S E B)
    → Yields P Q m
    → ((a : A) → Q a → Keeps P (k a))
    → Keeps P (m >>= k)
bind-Yields P Q m k before after s h = elim (Result-cases (m s).0) [
  | inl (a, e) ↦ rw (◌>>=◌, e) (after a (subst (OnOk Q) e (before s h).1) (m s).1 (before s h).0)
  | inr (x, e) ↦ rw (◌>>=◌, e) (before s h).0
]

-- A computation that leaves a predicate on the state when it ends with an error, and another on the
-- value and the state when it does not.
abbrev pub EndsIn : {S E A : Type 0} → (S → Type 0) → (A → S → Type 0) → Result E A × S → Type 0
EndsIn P Q p = elim p.0 [ ok a ↦ Q a p.1 | err e ↦ P p.1 ]

pub bind-EndsIn :
    {S E A B : Type 0} (P : S → Type 0) (Q : A → S → Type 0) (R : B → S → Type 0) (m : Op S E A)
    (k : A → Op S E B) (s : S)
    → EndsIn P Q (m s)
    → ((a : A) (t : S) → Q a t → EndsIn P R (k a t))
    → EndsIn P R ((m >>= k) s)
bind-EndsIn P Q R m k s before after = elim (Result-cases (m s).0) [
  | inl (a, e) ↦ rw (◌>>=◌, e) (after a (m s).1 (subst (λ r. EndsIn P Q (r, (m s).1)) e before))
  | inr (x, e) ↦ rw (◌>>=◌, e) (subst (λ r. EndsIn P Q (r, (m s).1)) e before)
]

-- What holds of the state behind a computation holds however it ends.
pub kept-EndsIn :
    {S E A : Type 0} (P : S → Type 0) (p : Result E A × S) → P p.1 → EndsIn P (λ a. P) p
kept-EndsIn P p h = elim (Result-cases p.0) [ inl (a, e) ↦ rw e h | inr (x, e) ↦ rw e h ]

pub EndsIn-weaken :
    {S E A : Type 0} (P : S → Type 0) (Q R : A → S → Type 0) (p : Result E A × S)
    → ((a : A) (s : S) → Q a s → R a s)
    → EndsIn P Q p
    → EndsIn P R p
EndsIn-weaken P Q R p weaken h = elim (Result-cases p.0) [
  | inl (a, e) ↦ rw e (weaken a p.1 (subst (λ r. EndsIn P Q (r, p.1)) e h))
  | inr (x, e) ↦ rw e (subst (λ r. EndsIn P Q (r, p.1)) e h)
]

pub bind_ok :
    {S E A B : Type 0} (m : Op S E A) (k : A → Op S E B) (s t : S) (a : A)
    → m s ≡ (ok a, t)
    → (m >>= k) s ≡ k a t
bind_ok {B = B} m k s t a h = ap (λ p. elim p.0 [ ok x ↦ k x p.1 | err e ↦ (err e, p.1) ]) h

pub bind_err :
    {S E A B : Type 0} (m : Op S E A) (k : A → Op S E B) (s t : S) (e : E)
    → m s ≡ (err e, t)
    → (m >>= k) s ≡ (err e, t)
bind_err m k s t e h = ap (λ p. elim p.0 [ ok x ↦ k x p.1 | err x ↦ (err x, p.1) ]) h

-- What follows does not change the state.
pub bind_state :
    {S E A B : Type 0} (m : Op S E A) (k : A → Op S E B) (s : S)
    → ((a : A) (t : S) → (k a t).1 ≡ t)
    → ((m >>= k) s).1 ≡ (m s).1
bind_state m k s still = elim (Result-cases (m s).0) [
  | inl (a, e) ↦ rw (◌>>=◌, e) (still a (m s).1)
  | inr (x, e) ↦ rw (◌>>=◌, e) refl
]

-- A computation and its own value and state.
pub self-EndsIn :
    {S E A : Type 0} (m : Op S E A) (s : S) → EndsIn (λ t. Unit {0}) (λ a t. m s ≡ (ok a, t)) (m s)
self-EndsIn m s = of (m s).0 refl
  where
    of : (r : Result _ _) → (m s).0 ≡ r → EndsIn (λ t. Unit {0}) (λ a t. m s ≡ (ok a, t)) (m s)
    of (ok a) e =
        subst (λ r. EndsIn (λ t. Unit {0}) (λ x t. m s ≡ (ok x, t)) (r, (m s).1)) (sym e)
          (ap (λ r. (r, (m s).1)) e)
    of (err x) e =
        subst (λ r. EndsIn (λ t. Unit {0}) (λ a t. m s ≡ (ok a, t)) (r, (m s).1)) (sym e) tt
