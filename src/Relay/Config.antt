-- ===== src/Relay/Config.antt =====
-- relay/src/config.rs: the configuration from the environment, which is the argument: a variable's
-- text, or nothing when it is not set or no Unicode text.
use plgames_booster_up.Base.{
  ℕ, ◌-◌, ◌+◌, ◌*◌, ◌^◌, ◌≡◌, ◌≤◌, ◌<◌, refl, arith, inl, inr, Bytes, codes, Option, none, some, [],
  ◌∷◌, ◌>>=◌, unwrap_or, Option-cases,
}
use plgames_booster_up.Base.Decimal.{parse_number, digits_value}

pub record Config : Type 0 where
  pub api_key : Bytes
  pub relay_port : ℕ
  pub api_port : ℕ
  pub metrics_port : ℕ
  pub max_sessions : ℕ
  -- In milliseconds, the unit of the relay's clock.
  pub session_timeout : ℕ

-- `env::var(name).ok().and_then(|v| v.parse().ok()).unwrap_or(default)`.
abbrev pub setting : (Bytes → Option Bytes) → ℕ → Bytes → ℕ → ℕ
setting env most name default = unwrap_or (env name >>= parse_number most) default

-- `Duration::from_secs`.
abbrev from_secs : ℕ → ℕ
from_secs secs = secs * 1000

abbrev pub config_of : (Bytes → Option Bytes) → Bytes → Config
config_of env api_key = record {
  api_key = api_key;
  relay_port = setting env 65535 (codes "RELAY_PORT") 443;
  api_port = setting env 65535 (codes "RELAY_API_PORT") 8443;
  metrics_port = setting env 65535 (codes "RELAY_METRICS_PORT") 9090;
  max_sessions = setting env (2 ^ 64 - 1) (codes "RELAY_MAX_SESSIONS") 1000;
  session_timeout = from_secs (setting env (2 ^ 64 - 1) (codes "RELAY_SESSION_TIMEOUT") 300);
}

-- Without the key the program ends.
unfoldable pub from_env : (Bytes → Option Bytes) → Option Config
from_env env = elim (env (codes "RELAY_API_KEY")) [
  | none ↦ none
  | some api_key ↦ some (config_of env api_key)
]

digits_value-le :
    (most acc n : ℕ) (s : Bytes) → acc ≤ most → digits_value most acc s ≡ some n → n ≤ most
unfolding digits_value
digits_value-le most acc n [] h e = ground arith
digits_value-le most acc n (c ∷ cs) h e =
    ground (arith, digits_value-le most (acc * 10 + (c - b'0')) n cs)

parse_number-le : (most n : ℕ) (s : Bytes) → parse_number most s ≡ some n → n ≤ most
unfolding parse_number
parse_number-le most n [] e = ground arith
parse_number-le most n (c ∷ []) e = ground (arith, digits_value-le most 0 n (c ∷ []))
parse_number-le most n (c ∷ d ∷ cs) e =
    ground (arith, digits_value-le most 0 n (d ∷ cs), digits_value-le most 0 n (c ∷ d ∷ cs))

setting-le :
    (env : Bytes → Option Bytes) (most : ℕ) (name : Bytes) (default : ℕ)
    → default ≤ most
    → setting env most name default ≤ most
setting-le env most name default h = elim (Option-cases (env name)) [
  | inl unset ↦ rw unset h
  | inr (text, set) ↦ elim (Option-cases (parse_number most text)) [
    | inl bad ↦ rw set (rw bad h)
    | inr (n, good) ↦ rw set (rw good (parse_number-le most n text good))
  ]
]

-- When the key is set, a configuration with that key is made, whatever the other variables hold: its
-- three ports have 16 bits, its limit on sessions 64 bits, and its timeout is a 64-bit number of
-- seconds.
pub from_env_lem :
    (env : Bytes → Option Bytes) (key : Bytes)
    → env (codes "RELAY_API_KEY") ≡ some key
    → (config : Config) × (from_env env ≡ some config)
      × (config.api_key ≡ key)
      × (config.relay_port ≤ 65535)
      × (config.api_port ≤ 65535)
      × (config.metrics_port ≤ 65535)
      × (config.max_sessions < 2 ^ 64)
      × ((secs : ℕ) × (config.session_timeout ≡ secs * 1000) × (secs < 2 ^ 64))
unfolding from_env
from_env_lem env key e =
    let most_sessions =
      setting-le env (2 ^ 64 - 1) (codes "RELAY_MAX_SESSIONS") 1000 (omega arith) in
    let most_timeout =
      setting-le env (2 ^ 64 - 1) (codes "RELAY_SESSION_TIMEOUT") 300 (omega arith) in
    (
      config_of env key,
      rw (e, from_env) refl,
      refl,
      setting-le env 65535 (codes "RELAY_PORT") 443 (omega arith),
      setting-le env 65535 (codes "RELAY_API_PORT") 8443 (omega arith),
      setting-le env 65535 (codes "RELAY_METRICS_PORT") 9090 (omega arith),
      omega arith,
      (setting env (2 ^ 64 - 1) (codes "RELAY_SESSION_TIMEOUT") 300, refl, omega arith),
    )
