-- ===== src/Client/App/Examples/Codecs.antt =====
-- JSON libraries for the examples: what they print is read back.
use plgames_booster_up.Base.{
  ℕ, suc, zero, ◌≡◌, refl, ap, arith, Bytes, Bool, true, false, Option, none, some, [], ◌∷◌, ◌==◌,
}
use plgames_booster_up.Client.Api.Types.{AuthTokens}
use plgames_booster_up.Client.Store.{AppConfig, Codec}
use plgames_booster_up.Client.Runs.Tokens.{IsCodec}

-- A pair of texts as one.
pub join : Bytes → Bytes → Bytes
join [] b = 0 ∷ b
join (x ∷ a) b = suc x ∷ join a b

pub in_front : ℕ → Option (Bytes × Bytes) → Option (Bytes × Bytes)
in_front n none = none
in_front n (some p) = some (n ∷ p.0, p.1)

pub divide : Bytes → Option (Bytes × Bytes)
unfolding in_front
divide [] = none
divide (zero ∷ rest) = some ([], rest)
divide (suc n ∷ rest) = in_front n (divide rest)

pub divide-join : (a b : Bytes) → divide (join a b) ≡ some (a, b)
unfolding divide join in_front
divide-join [] b = refl
divide-join (x ∷ a) b = ap (in_front x) (divide-join a b)

pub read_auth : Bytes → Option AuthTokens
unfolding divide
read_auth text = elim (divide text) [
  | none ↦ none
  | some p ↦ some (record { access_token = p.0; refresh_token = p.1 })
]

pub auth_json : Codec AuthTokens
unfolding join read_auth
auth_json = record {
  to_string = λ t. some (join t.access_token t.refresh_token);
  from_str = read_auth;
}

pub injected : {A : Type 0} {a b : A} → some a ≡ some b → a ≡ b
injected e = ground (arith, e)

pub auth_json-IsCodec : IsCodec auth_json
unfolding auth_json read_auth
auth_json-IsCodec = record {
  printed = λ t e. cc;
  read_back =
      λ t text e. rw (← injected e, read_auth, divide-join t.access_token t.refresh_token) refl;
}

pub bit : Bool → ℕ
bit true = 1
bit false = 0

pub bit-eq : (b : Bool) → (bit b == 1) ≡ b
unfolding bit
bit-eq true = refl
bit-eq false = refl

pub config_of : Bytes → Bytes → Bytes → Option AppConfig
config_of url node (a ∷ b ∷ c ∷ d ∷ []) = some (record {
  api_url = url;
  auto_start = a == 1;
  auto_connect = b == 1;
  multipath = c == 1;
  preferred_node = node;
  minimize_to_tray = d == 1;
})
config_of url node _ = none

pub flags : AppConfig → Bytes
unfolding bit
flags c = bit c.auto_start ∷ bit c.auto_connect ∷ bit c.multipath ∷ bit c.minimize_to_tray ∷ []

pub read_config : Bytes → Option AppConfig
unfolding divide config_of
read_config text = elim (divide text) [
  | none ↦ none
  | some p ↦ elim (divide p.1) [ none ↦ none | some q ↦ config_of p.0 q.0 q.1 ]
]

pub config_json : Codec AppConfig
unfolding join flags read_config
config_json = record {
  to_string = λ c. some (join c.api_url (join c.preferred_node (flags c)));
  from_str = read_config;
}

pub config_of-flags : (c : AppConfig) → config_of c.api_url c.preferred_node (flags c) ≡ some c
unfolding config_of flags
config_of-flags c =
    rw
      (
        flags,
        config_of,
        bit-eq c.auto_start,
        bit-eq c.auto_connect,
        bit-eq c.multipath,
        bit-eq c.minimize_to_tray,
      )
      refl

pub config_json-IsCodec : IsCodec config_json
unfolding config_json read_config
config_json-IsCodec = record {
  printed = λ t e. cc;
  read_back = λ c text e.
      rw
        (
          ← injected e,
          read_config,
          divide-join c.api_url (join c.preferred_node (flags c)),
          divide-join c.preferred_node (flags c),
        )
        (config_of-flags c);
}
