-- ===== src/Config.antt =====
-- config.rs: the configuration of the server. The environment as `figment` has read it is a
-- `RawConfig`; the base64 of the `base64` crate is an argument. The reason in an `Invalid` is a text
-- for the operator, in place of which the value stands that was refused. The sample rate for Sentry,
-- a float, is left out.
pub mod Sections
pub mod Load
pub mod Safe
pub mod Tests
use mizan_connect.Base.{
  ℕ, Str, codes, str_eq, trim, is_empty, to_ascii_lowercase, split_on, Bool, true, false, not, ◌&&◌,
  Option, none, some, List, [], ◌∷◌, ◌++◌, exists, keep, map, if◌then◌else◌,
}

pub data AppEnv : Type 0 where
  development staging production test : AppEnv

pub data LogFormat : Type 0 where
  pretty json : LogFormat

pub data ConfigError : Type 0 where
  missing : Str → ConfigError
  invalid : Str → Str → ConfigError
  cors_wildcard_with_auth : ConfigError
  bad_encryption_key_length : ℕ → ConfigError
  state_secret_too_short : ℕ → ConfigError

-- `Result<_, ConfigError>`
pub data Loaded (A : Type 0) : Type 0 where
  good : A → Loaded A
  bad : ConfigError → Loaded A

infixl 5 ◌>>=◌ ◌>>◌
abbrev pub ◌>>=◌ : {A B : Type 0} → Loaded A → (A → Loaded B) → Loaded B
◌>>=◌ (good a) f = f a
◌>>=◌ (bad e) f = bad e

abbrev pub ◌>>◌ : {A B : Type 0} → Loaded A → Loaded B → Loaded B
m >> k = m >>= λ _. k

abbrev pub is_production : AppEnv → Bool
is_production production = true
is_production _ = false

abbrev pub is_test : AppEnv → Bool
is_test test = true
is_test _ = false

-- `AppEnv::from_str`, of the trimmed and lowered text; nothing stands for its error.
abbrev env_of : Str → Option AppEnv
env_of s =
    if str_eq s (codes "development")
    then some development
    else if str_eq s (codes "dev")
    then some development
    else if str_eq s (codes "staging")
    then some staging
    else if str_eq s (codes "stage")
    then some staging
    else if str_eq s (codes "production")
    then some production
    else if str_eq s (codes "prod")
    then some production
    else if str_eq s (codes "test")
    then some test
    else none

unfoldable pub parse_env : Str → Option AppEnv
parse_env s = env_of (to_ascii_lowercase (trim s))

abbrev format_of : Str → Option LogFormat
format_of s =
    if str_eq s (codes "pretty")
    then some pretty
    else if str_eq s (codes "json")
    then some json
    else none

unfoldable pub parse_format : Str → Option LogFormat
parse_format s = format_of (to_ascii_lowercase (trim s))

-- `filter(|s| !s.trim().is_empty())`
abbrev pub filled : Option Str → Option Str
filled none = none
filled (some s) = if is_empty (trim s) then none else some s

-- `map(str::trim).filter(|s| !s.is_empty())`
abbrev pub trimmed : Option Str → Option Str
trimmed none = none
trimmed (some s) = if is_empty (trim s) then none else some (trim s)

abbrev pub or_default : {A : Type 0} → A → Option A → A
or_default a none = a
or_default a (some b) = b

abbrev pub required_value : Str → Bool → Option Str → Loaded (Option Str)
required_value var required (some v) = good (some v)
required_value var required none = if required then bad (missing var) else good none

unfoldable pub pick_required : Str → Option Str → Bool → Loaded (Option Str)
pick_required var raw required = required_value var required (trimmed raw)

unfoldable pub trim_required : Str → Str → Loaded Str
trim_required value var = if is_empty (trim value) then bad (missing var) else good (trim value)

abbrev pub parsed_or_invalid : {A : Type 0} → Str → Str → Option A → Loaded A
parsed_or_invalid var value none = bad (invalid var value)
parsed_or_invalid var value (some a) = good a

abbrev parse_with : {A : Type 0} → (Str → Option A) → Str → Option Str → A → Loaded A
parse_with from_str var none default = good default
parse_with from_str var (some v) default = parsed_or_invalid var v (from_str v)

unfoldable pub parse_optional : {A : Type 0} → (Str → Option A) → Str → Option Str → A → Loaded A
parse_optional from_str var raw default = parse_with from_str var (filled raw) default

abbrev required_or : {A : Type 0} → (Str → Option A) → Str → Option Str → Option Str → Loaded A
required_or from_str var (some v) default = parsed_or_invalid var v (from_str v)
required_or from_str var none none = bad (missing var)
required_or from_str var none (some v) = parsed_or_invalid var v (from_str v)

unfoldable pub parse_required :
    {A : Type 0} → (Str → Option A) → Str → Option Str → Option Str → Loaded A
parse_required from_str var raw default = required_or from_str var (filled raw) default

abbrev not_empty : Str → Bool
not_empty s = not (is_empty s)

abbrev pub origins_of : Str → List Str
origins_of raw = keep not_empty (map trim (split_on b',' raw))

abbrev pub is_wildcard : Str → Bool
is_wildcard s = str_eq s (codes "*")

unfoldable pub parse_cors : Option Str → Bool → Loaded (List Str)
unfolding split_on
parse_cors raw reject_wildcard =
    let origins = origins_of (or_default [] raw) in
    if reject_wildcard && exists is_wildcard origins
    then bad cors_wildcard_with_auth
    else good origins
