-- ===== src/Config/Load.antt =====
-- config.rs: `Config::load`, behind the reading of the environment.
use mizan_connect.Base.{
  ℕ, Str, codes, strip_prefix, Bool, true, false, not, ◌&&◌, Option, none, some, List, [], ltb,
  ◌++◌, ◌∷◌, ◌==◌, if◌then◌else◌,
}
use mathlib.Core.List.{reverse}
use mizan_connect.Config.{
  AppEnv, development, staging, production, test, is_production, is_test, LogFormat, pretty, json,
  invalid, Loaded, good, bad, ◌>>=◌, ◌>>◌, parse_env, parse_format, filled, or_default,
  trim_required, parse_optional, parse_required, parse_cors,
}
use mizan_connect.Config.Sections.{
  RawConfig, SnaptradeConfig, BillingConfig, build_snaptrade_config, build_billing_config,
}

pub record SentryConfig : Type 0 where
  pub dsn : Option Str
  pub environment : Str

pub record Config : Type 0 where
  pub app_host : Str
  pub app_port : ℕ
  pub app_env : AppEnv
  pub log_level : Str
  pub log_format : LogFormat
  pub database_url : Str
  pub database_max_connections : ℕ
  pub supabase_url : Str
  pub supabase_jwt_audience : Str
  pub supabase_service_role_key : Option Str
  pub cors_allowed_origins : List Str
  pub rate_limit_per_minute : ℕ
  pub sentry : SentryConfig
  pub test_jwt_secret : Option Str
  pub snaptrade : SnaptradeConfig
  pub billing : Option BillingConfig

-- `max(1)`
abbrev pub at_least_one : ℕ → ℕ
at_least_one n = if ltb n 1 then 1 else n

abbrev pub default_format : AppEnv → LogFormat
default_format production = json
default_format staging = json
default_format development = pretty
default_format test = pretty

abbrev env_name : AppEnv → Str
env_name production = codes "production"
env_name staging = codes "staging"
env_name development = codes "development"
env_name test = codes "test"

abbrev is_https : Option Str → Bool
is_https none = false
is_https (some rest) = true

abbrev pub check_scheme : Str → AppEnv → Loaded (Unit {0})
check_scheme url app_env =
    if not (is_https (strip_prefix (codes "https://") url)) && not (is_test app_env)
    then bad (invalid (codes "SUPABASE_URL") url)
    else good tt

abbrev pub test_secret : AppEnv → Option Str → Option Str
test_secret app_env raw = if is_production app_env then none else filled raw

abbrev sentry_of : RawConfig → AppEnv → SentryConfig
sentry_of raw app_env = record {
  dsn = filled raw.sentry_dsn;
  environment = or_default (env_name app_env) raw.sentry_environment;
}

abbrev pub config_of :
    RawConfig → AppEnv → LogFormat → Str → Str → List Str → SnaptradeConfig → Config
config_of raw app_env log_format database_url supabase_url origins snaptrade = record {
  app_host = or_default (codes "0.0.0.0") raw.app_host;
  app_port = or_default 8080 raw.app_port;
  app_env = app_env;
  log_level = or_default (codes "info") raw.log_level;
  log_format = log_format;
  database_url = database_url;
  database_max_connections = at_least_one (or_default 10 raw.database_max_connections);
  supabase_url = supabase_url;
  supabase_jwt_audience = or_default (codes "authenticated") raw.supabase_jwt_audience;
  supabase_service_role_key = filled raw.supabase_service_role_key;
  cors_allowed_origins = origins;
  rate_limit_per_minute = at_least_one (or_default 100 raw.rate_limit_per_minute);
  sentry = sentry_of raw app_env;
  test_jwt_secret = test_secret app_env raw.mizan_test_jwt_secret;
  snaptrade = snaptrade;
  billing = build_billing_config raw;
}

unfoldable pub load : (Str → Option Str) → RawConfig → Loaded Config
unfolding build_snaptrade_config build_billing_config
load decode raw = do
  app_env ← parse_required parse_env (codes "APP_ENV") raw.app_env (some (codes "development"))
  log_format ←
      parse_optional parse_format (codes "LOG_FORMAT") raw.log_format (default_format app_env)
  database_url ← trim_required raw.database_url (codes "DATABASE_URL")
  supabase_url ← trim_required raw.supabase_url (codes "SUPABASE_URL")
  check_scheme supabase_url app_env
  origins ← parse_cors raw.mizan_cors_allowed_origins (not (is_test app_env))
  snaptrade ← build_snaptrade_config decode raw app_env
  good (config_of raw app_env log_format database_url supabase_url origins snaptrade)

-- `trim_end_matches('/')`
abbrev without_slashes : Str → Str
without_slashes [] = []
without_slashes (c ∷ s) = if c == b'/' then without_slashes s else c ∷ s

abbrev trim_slashes : Str → Str
trim_slashes s = reverse (without_slashes (reverse s))

unfoldable pub jwks_url : Config → Str
jwks_url config = trim_slashes config.supabase_url ++ codes "/auth/v1/.well-known/jwks.json"

unfoldable pub supabase_jwt_issuer : Config → Str
supabase_jwt_issuer config = trim_slashes config.supabase_url ++ codes "/auth/v1"
