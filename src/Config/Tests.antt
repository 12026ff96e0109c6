-- ===== src/Config/Tests.antt =====
-- A production environment that loads. Base64 reads every text as itself here.
use mizan_connect.Base.{
  strip_prefix, to_ascii_lowercase, str_eq, trim, Str, codes, refl, none, some, [],
}
use mizan_connect.Config.{
  parse_cors, trim_required, parse_optional, parse_env, parse_required, production, json,
}
use mizan_connect.Config.Sections.{RawConfig, snaptrade_of}
use mizan_connect.Config.Load.{Config, config_of, load}
use mizan_connect.Config.Safe.{IsSafe, load-IsSafe}

abbrev bytes_32 : Str
bytes_32 = codes "0123456789abcdef0123456789abcdef"

abbrev raw : RawConfig
raw = record {
  app_host = none;
  app_port = none;
  app_env = some (codes "production");
  log_level = none;
  log_format = none;
  database_url = codes "db";
  database_max_connections = some 0;
  supabase_url = codes "https://a";
  supabase_jwt_audience = none;
  supabase_service_role_key = none;
  mizan_cors_allowed_origins = none;
  rate_limit_per_minute = none;
  sentry_dsn = none;
  sentry_environment = none;
  mizan_test_jwt_secret = some (codes "t");
  snaptrade_client_id = some (codes "c");
  snaptrade_consumer_key = some (codes "k");
  snaptrade_api_base = none;
  snaptrade_redirect_uri = some (codes "r");
  mizan_broker_secret_encryption_key = some bytes_32;
  mizan_snaptrade_state_secret = some bytes_32;
  stripe_secret_key = none;
  stripe_webhook_secret = none;
  stripe_price_basic_monthly = none;
  stripe_price_basic_yearly = none;
  stripe_price_pro_monthly = none;
  stripe_price_pro_yearly = none;
  stripe_price_enterprise_monthly = none;
  stripe_price_enterprise_yearly = none;
  mizan_billing_return_url = none;
  openai_api_key = none;
}

abbrev pub config : Config
config = config_of raw production json (codes "db") (codes "https://a") [] (
    snaptrade_of (λ s. some s) raw (some (codes "c")) (some (codes "k")) (some (codes "r")) bytes_32
      bytes_32)

load-IsSafe_example : IsSafe (λ s. some s) config
unfolding load parse_required trim parse_env str_eq to_ascii_lowercase parse_optional trim_required
    strip_prefix parse_cors
load-IsSafe_example = load-IsSafe (λ s. some s) raw config refl
