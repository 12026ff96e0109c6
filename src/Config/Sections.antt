-- ===== src/Config/Sections.antt =====
-- config.rs: the sections for SnapTrade and for billing. `BillingPrices` has the fields of
-- billing/prices.rs's `StripePrices`, which stands for both.
use mizan_connect.Base.{
  ℕ, Str, codes, trim, Bool, not, Option, none, some, [], length, ltb, ◌==◌, if◌then◌else◌,
}
use mizan_connect.Billing.Prices.{StripePrices}
use mizan_connect.Config.{
  AppEnv, is_test, bad_encryption_key_length, state_secret_too_short, Loaded, good, bad, ◌>>=◌,
  filled, trimmed, or_default, pick_required, parsed_or_invalid,
}

pub record RawConfig : Type 0 where
  pub app_host : Option Str
  pub app_port : Option ℕ
  pub app_env : Option Str
  pub log_level : Option Str
  pub log_format : Option Str
  pub database_url : Str
  pub database_max_connections : Option ℕ
  pub supabase_url : Str
  pub supabase_jwt_audience : Option Str
  pub supabase_service_role_key : Option Str
  pub mizan_cors_allowed_origins : Option Str
  pub rate_limit_per_minute : Option ℕ
  pub sentry_dsn : Option Str
  pub sentry_environment : Option Str
  pub mizan_test_jwt_secret : Option Str
  pub snaptrade_client_id : Option Str
  pub snaptrade_consumer_key : Option Str
  pub snaptrade_api_base : Option Str
  pub snaptrade_redirect_uri : Option Str
  pub mizan_broker_secret_encryption_key : Option Str
  pub mizan_snaptrade_state_secret : Option Str
  pub stripe_secret_key : Option Str
  pub stripe_webhook_secret : Option Str
  pub stripe_price_basic_monthly : Option Str
  pub stripe_price_basic_yearly : Option Str
  pub stripe_price_pro_monthly : Option Str
  pub stripe_price_pro_yearly : Option Str
  pub stripe_price_enterprise_monthly : Option Str
  pub stripe_price_enterprise_yearly : Option Str
  pub mizan_billing_return_url : Option Str
  pub openai_api_key : Option Str

pub record SnaptradeConfig : Type 0 where
  pub client_id : Str
  pub consumer_key : Str
  pub api_base : Str
  pub redirect_uri : Str
  pub broker_secret_encryption_key : Str
  pub state_secret : Str

pub record BillingConfig : Type 0 where
  pub stripe_secret_key : Str
  pub stripe_webhook_secret : Str
  pub stripe_prices : StripePrices
  pub return_url : Str
  pub openai_api_key : Option Str

module _ (decode : Str → Option Str) where
  abbrev pub key_of_length : Str → Loaded Str
  key_of_length bytes =
      if not (length bytes == 32)
      then bad (bad_encryption_key_length (length bytes))
      else good bytes

  abbrev pub encryption_key : Option Str → Loaded Str
  encryption_key none = good []
  encryption_key (some s) =
      parsed_or_invalid (codes "MIZAN_BROKER_SECRET_ENCRYPTION_KEY") s (decode (trim s))
      >>= key_of_length

  abbrev pub secret_of_length : Str → Str → Loaded Str
  secret_of_length s bytes =
      if ltb (length bytes) 32 then bad (state_secret_too_short (length bytes)) else good s

  abbrev pub signing_secret : Option Str → Loaded Str
  signing_secret none = good []
  signing_secret (some s) =
      parsed_or_invalid (codes "MIZAN_SNAPTRADE_STATE_SECRET") s (decode (trim s))
      >>= secret_of_length s

  abbrev pub snaptrade_of :
      RawConfig → Option Str → Option Str → Option Str → Str → Str → SnaptradeConfig
  snaptrade_of raw client_id consumer_key redirect_uri key secret = record {
    client_id = or_default [] client_id;
    consumer_key = or_default [] consumer_key;
    api_base =
        or_default (codes "https://api.snaptrade.com/api/v1") (filled raw.snaptrade_api_base);
    redirect_uri = or_default [] redirect_uri;
    broker_secret_encryption_key = key;
    state_secret = secret;
  }

  abbrev pub snaptrade_with : RawConfig → Bool → Loaded SnaptradeConfig
  snaptrade_with raw required = do
    client_id ← pick_required (codes "SNAPTRADE_CLIENT_ID") raw.snaptrade_client_id required
    consumer_key ←
        pick_required (codes "SNAPTRADE_CONSUMER_KEY") raw.snaptrade_consumer_key required
    redirect_uri ←
        pick_required (codes "SNAPTRADE_REDIRECT_URI") raw.snaptrade_redirect_uri required
    enc_key_b64 ←
        pick_required (codes "MIZAN_BROKER_SECRET_ENCRYPTION_KEY")
          raw.mizan_broker_secret_encryption_key required
    key ← encryption_key enc_key_b64
    state_b64 ←
        pick_required (codes "MIZAN_SNAPTRADE_STATE_SECRET") raw.mizan_snaptrade_state_secret
          required
    secret ← signing_secret state_b64
    good (snaptrade_of raw client_id consumer_key redirect_uri key secret)

  unfoldable pub build_snaptrade_config : RawConfig → AppEnv → Loaded SnaptradeConfig
  unfolding pick_required
  build_snaptrade_config raw app_env = snaptrade_with raw (not (is_test app_env))

abbrev some_billing : RawConfig → Str → Option Str → Option BillingConfig
some_billing raw secret none = none
some_billing raw secret (some webhook) = some (record {
  stripe_secret_key = secret;
  stripe_webhook_secret = webhook;
  stripe_prices = record {
    basic_monthly = or_default [] raw.stripe_price_basic_monthly;
    basic_yearly = or_default [] raw.stripe_price_basic_yearly;
    pro_monthly = or_default [] raw.stripe_price_pro_monthly;
    pro_yearly = or_default [] raw.stripe_price_pro_yearly;
    enterprise_monthly = or_default [] raw.stripe_price_enterprise_monthly;
    enterprise_yearly = or_default [] raw.stripe_price_enterprise_yearly;
  };
  return_url =
      or_default (codes "https://mizan.app/billing/return") (trimmed raw.mizan_billing_return_url);
  openai_api_key = trimmed raw.openai_api_key;
})

abbrev billing_with : RawConfig → Option Str → Option Str → Option BillingConfig
billing_with raw none webhook = none
billing_with raw (some secret) webhook = some_billing raw secret webhook

unfoldable pub build_billing_config : RawConfig → Option BillingConfig
build_billing_config raw =
    billing_with raw (trimmed raw.stripe_secret_key) (trimmed raw.stripe_webhook_secret)
