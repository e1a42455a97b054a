-- ===== src/Tunnel/Channel.antt =====
-- What the tunnel promises to each side: a channel that loses, repeats and reorders payloads, and
-- makes none up.
use plgames_booster_up.Base.{inl, inr, Bytes, List, [], ◌∷◌}
use mathlib.Core.List.{Memᴰ}
use mathlib.Core.List.Memᴰ.{tail, cast, cases_cons}

pub record Channel : Type 0 where
  pub sent : List Bytes
  pub delivered : List Bytes

abbrev pub empty : Channel
empty = record { sent = []; delivered = [] }

pub data Moves (c : Channel) : Channel → Type 0 where
  stays : Moves c c
  takes : (x : Bytes) → Moves c (record c { sent = x ∷ c.sent })
  brings : (x : Bytes) → Memᴰ x c.sent → Moves c (record c { delivered = x ∷ c.delivered })

pub data Runs (c : Channel) : Channel → Type 0 where
  here : Runs c c
  next : {d e : Channel} → Runs c d → Moves d e → Runs c e

abbrev pub IsHonest : Channel → Type 0
IsHonest c = (x : Bytes) → Memᴰ x c.delivered → Memᴰ x c.sent

Moves-IsHonest : {c d : Channel} → Moves c d → IsHonest c → IsHonest d
Moves-IsHonest stays h = h
Moves-IsHonest (takes y) h = λ x m. tail (h x m)
Moves-IsHonest (brings y sent) h =
    λ x m. elim (cases_cons m) [ inl same ↦ cast same sent | inr rest ↦ h x rest ]

pub Runs-IsHonest : {c d : Channel} → Runs c d → IsHonest c → IsHonest d
Runs-IsHonest here h = h
Runs-IsHonest (next r m) h = Moves-IsHonest m (Runs-IsHonest r h)
