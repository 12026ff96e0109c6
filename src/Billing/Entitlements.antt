-- ===== src/Billing/Entitlements.antt =====
-- billing/entitlements.rs: what a subscription unlocks.
pub mod Laws
use mizan_connect.Base.{
  ℕ, ℤ, pos, negsuc, Str, codes, str_eq, to_ascii_lowercase, Bool, true, false, ◌||◌, Option, none,
  some, if◌then◌else◌,
}

-- UNLIMITED, -1
abbrev pub unlimited : ℤ
unlimited = negsuc 0

pub record Entitlements : Type 0 where
  pub plan : Str
  pub max_portfolios : ℤ
  pub max_holdings : ℤ
  pub max_asset_classes : ℤ
  pub broker_sync : Bool
  pub max_broker_connections : ℤ
  pub device_sync : Bool
  pub cloud_backup : Bool
  pub managed_ai : Bool
  pub ai_credits_monthly : ℤ
  pub news_daily_limit : ℤ
  pub market_refresh_daily_limit : ℤ
  pub csv_imports_monthly : ℤ
  pub advanced_reports : Bool
  pub advisor_mode : Bool

-- `Entitlements::default`
abbrev pub free_entitlements : Entitlements
free_entitlements = record {
  plan = codes "free";
  max_portfolios = pos 1;
  max_holdings = pos 20;
  max_asset_classes = pos 2;
  broker_sync = false;
  max_broker_connections = pos 0;
  device_sync = false;
  cloud_backup = false;
  managed_ai = false;
  ai_credits_monthly = pos 0;
  news_daily_limit = pos 3;
  market_refresh_daily_limit = pos 5;
  csv_imports_monthly = pos 1;
  advanced_reports = false;
  advisor_mode = false;
}

abbrev pub basic_entitlements : Entitlements
basic_entitlements = record {
  plan = codes "basic";
  max_portfolios = pos 5;
  max_holdings = pos 250;
  max_asset_classes = unlimited;
  broker_sync = false;
  max_broker_connections = pos 0;
  device_sync = true;
  cloud_backup = true;
  managed_ai = true;
  ai_credits_monthly = pos 300;
  news_daily_limit = unlimited;
  market_refresh_daily_limit = pos 50;
  csv_imports_monthly = pos 20;
  advanced_reports = false;
  advisor_mode = false;
}

abbrev pub enterprise_entitlements : Str → Entitlements
enterprise_entitlements slug = record {
  plan = slug;
  max_portfolios = unlimited;
  max_holdings = unlimited;
  max_asset_classes = unlimited;
  broker_sync = true;
  max_broker_connections = unlimited;
  device_sync = true;
  cloud_backup = true;
  managed_ai = true;
  ai_credits_monthly = unlimited;
  news_daily_limit = unlimited;
  market_refresh_daily_limit = unlimited;
  csv_imports_monthly = unlimited;
  advanced_reports = true;
  advisor_mode = true;
}

abbrev pub pro_entitlements : Str → Entitlements
pro_entitlements slug = record {
  plan = slug;
  max_portfolios = pos 25;
  max_holdings = unlimited;
  max_asset_classes = unlimited;
  broker_sync = true;
  max_broker_connections = pos 5;
  device_sync = true;
  cloud_backup = true;
  managed_ai = true;
  ai_credits_monthly = pos 1500;
  news_daily_limit = unlimited;
  market_refresh_daily_limit = unlimited;
  csv_imports_monthly = unlimited;
  advanced_reports = true;
  advisor_mode = false;
}

unfoldable pub is_active : Option Str → Bool
is_active none = false
is_active (some status) = str_eq status (codes "active") || str_eq status (codes "trialing")

-- The `match` on the slug in lower case.
unfoldable pub of_slug : Str → Entitlements
of_slug slug =
    if str_eq slug (codes "free")
    then free_entitlements
    else if str_eq slug (codes "basic")
    then basic_entitlements
    else if str_eq slug (codes "enterprise") || str_eq slug (codes "advisor")
    then enterprise_entitlements slug
    else pro_entitlements slug

abbrev of_tier : Option Str → Entitlements
of_tier none = free_entitlements
of_tier (some tier) = of_slug (to_ascii_lowercase tier)

unfoldable pub entitlements_for : Option Str → Option Str → Entitlements
unfolding of_slug is_active
entitlements_for tier status = if is_active status then of_tier tier else free_entitlements
