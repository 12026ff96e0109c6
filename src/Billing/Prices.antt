-- ===== src/Billing/Prices.antt =====
-- billing/prices.rs: the plans for sale, and their Stripe prices.
pub mod Laws
use mizan_connect.Base.{
  Str, codes, str_eq, is_empty, trim, to_ascii_lowercase, ◌++◌, ◌||◌, Option, none, some,
  if◌then◌else◌,
}

pub data CheckoutPlan : Type 0 where
  basic pro enterprise : CheckoutPlan

pub data BillingInterval : Type 0 where
  monthly yearly : BillingInterval

-- `Result<_, String>` of the two parsers.
pub data Parsed (A : Type 0) : Type 0 where
  parsed : A → Parsed A
  failed : Str → Parsed A

-- The `match` of `CheckoutPlan::from_str` on the trimmed text in lower case.
unfoldable pub plan_of : Str → Parsed CheckoutPlan
plan_of s =
    if str_eq s (codes "basic")
    then parsed basic
    else if str_eq s (codes "pro")
    then parsed pro
    else if str_eq s (codes "enterprise")
    then parsed enterprise
    else failed (codes "unknown plan: " ++ s)

unfoldable pub parse_plan : Str → Parsed CheckoutPlan
unfolding plan_of
parse_plan s = plan_of (to_ascii_lowercase (trim s))

unfoldable pub interval_of : Str → Parsed BillingInterval
interval_of s =
    if str_eq s (codes "monthly") || str_eq s (codes "month")
    then parsed monthly
    else if str_eq s (codes "yearly") || str_eq s (codes "year") || str_eq s (codes "annual")
    then parsed yearly
    else failed (codes "unknown interval: " ++ s)

unfoldable pub parse_interval : Str → Parsed BillingInterval
unfolding interval_of
parse_interval s = interval_of (to_ascii_lowercase (trim s))

-- `CheckoutPlan::slug`
unfoldable pub slug : CheckoutPlan → Str
slug basic = codes "basic"
slug pro = codes "pro"
slug enterprise = codes "enterprise"

pub record StripePrices : Type 0 where
  pub basic_monthly : Str
  pub basic_yearly : Str
  pub pro_monthly : Str
  pub pro_yearly : Str
  pub enterprise_monthly : Str
  pub enterprise_yearly : Str

unfoldable pub raw_price : StripePrices → CheckoutPlan → BillingInterval → Str
raw_price p basic monthly = p.basic_monthly
raw_price p basic yearly = p.basic_yearly
raw_price p pro monthly = p.pro_monthly
raw_price p pro yearly = p.pro_yearly
raw_price p enterprise monthly = p.enterprise_monthly
raw_price p enterprise yearly = p.enterprise_yearly

-- `StripePrices::lookup`
unfoldable pub lookup : StripePrices → CheckoutPlan → BillingInterval → Option Str
unfolding raw_price
lookup p plan interval =
    let raw = raw_price p plan interval in if is_empty raw then none else some raw

-- `StripePrices::plan_for`
unfoldable pub plan_for : StripePrices → Str → Option CheckoutPlan
plan_for p price_id =
    if str_eq price_id p.basic_monthly || str_eq price_id p.basic_yearly
    then some basic
    else if str_eq price_id p.pro_monthly || str_eq price_id p.pro_yearly
    then some pro
    else if str_eq price_id p.enterprise_monthly || str_eq price_id p.enterprise_yearly
    then some enterprise
    else none
