-- ===== src/Billing/Tests.antt =====
-- A price table on concrete inputs.
use mizan_connect.Base.{◌≡◌, refl, codes, some, str_eq}
use mizan_connect.Billing.Prices.{
  CheckoutPlan, basic, pro, enterprise, BillingInterval, monthly, yearly, StripePrices, plan_for,
  lookup, raw_price,
}

abbrev prices : StripePrices
prices = record {
  basic_monthly = codes "a";
  basic_yearly = codes "b";
  pro_monthly = codes "c";
  pro_yearly = codes "d";
  enterprise_monthly = codes "e";
  enterprise_yearly = codes "f";
}

read_back :
    (plan : CheckoutPlan) (i : BillingInterval)
    → plan_for prices (raw_price prices plan i) ≡ some plan
unfolding plan_for raw_price str_eq
read_back basic monthly = refl
read_back basic yearly = refl
read_back pro monthly = refl
read_back pro yearly = refl
read_back enterprise monthly = refl
read_back enterprise yearly = refl

pro_yearly_price : lookup prices pro yearly ≡ some (codes "d")
unfolding lookup
pro_yearly_price = refl
