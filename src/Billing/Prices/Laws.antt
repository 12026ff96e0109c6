-- ===== src/Billing/Prices/Laws.antt =====
-- The two directions of the price list of billing/prices.rs, and its parsers.
use mizan_connect.Base.{
  is_empty, str_eq_refl, Option-cases, inl, inr, ap, sym, ◌∙◌, if◌then◌else◌, Str, codes,
  str_eq_iff, trim, to_ascii_lowercase, ◌≡◌, ◌≢◌, ◌↔◌, ◌⊎◌, none, some, [], ◌∷◌, arith,
}
use mizan_connect.Billing.Prices.{
  CheckoutPlan, basic, pro, enterprise, BillingInterval, monthly, yearly, parsed, plan_of,
  parse_plan, slug, StripePrices, raw_price, lookup, plan_for,
}

-- No price of one plan is the price of another.
pub record IsUnambiguous (p : StripePrices) : Type 0 where
  pub distinct :
      (plan plan' : CheckoutPlan) (i j : BillingInterval)
      → raw_price p plan i ≡ raw_price p plan' j
      → plan ≡ plan'

-- If the price of a webhook is read as a plan, it is the monthly or the yearly price of that plan.
pub plan_for_sound :
    (p : StripePrices) (id : Str) (plan : CheckoutPlan)
    → plan_for p id ≡ some plan
    → (raw_price p plan monthly ≡ id) ⊎ (raw_price p plan yearly ≡ id)
unfolding plan_for raw_price
plan_for_sound p id plan h = ground (
  arith,
  str_eq_iff id p.basic_monthly,
  str_eq_iff id p.basic_yearly,
  str_eq_iff id p.pro_monthly,
  str_eq_iff id p.pro_yearly,
  str_eq_iff id p.enterprise_monthly,
  str_eq_iff id p.enterprise_yearly,
)

raw_price-lookup :
    (p : StripePrices) (plan : CheckoutPlan) (interval : BillingInterval) (id : Str)
    → lookup p plan interval ≡ some id
    → raw_price p plan interval ≡ id
unfolding lookup
raw_price-lookup p plan interval id h = go (raw_price p plan interval) h
  where
    go : (raw : Str) → (if is_empty raw then none else some raw) ≡ some id → raw ≡ id
    go [] h = cc
    go (c ∷ s) h = cc

-- Each of the six prices is found.
plan_for-raw_price :
    (p : StripePrices) (plan : CheckoutPlan) (interval : BillingInterval)
    → plan_for p (raw_price p plan interval) ≢ none
unfolding plan_for raw_price
plan_for-raw_price p basic monthly = ground (arith, str_eq_refl p.basic_monthly)
plan_for-raw_price p basic yearly = ground (arith, str_eq_refl p.basic_yearly)
plan_for-raw_price p pro monthly = ground (arith, str_eq_refl p.pro_monthly)
plan_for-raw_price p pro yearly = ground (arith, str_eq_refl p.pro_yearly)
plan_for-raw_price p enterprise monthly = ground (arith, str_eq_refl p.enterprise_monthly)
plan_for-raw_price p enterprise yearly = ground (arith, str_eq_refl p.enterprise_yearly)

-- Where no two plans share a price, the price that the checkout sells for a plan is read back from
-- a webhook as that plan.
pub plan_for-lookup :
    (p : StripePrices) (plan : CheckoutPlan) (interval : BillingInterval) (id : Str)
    → IsUnambiguous p
    → lookup p plan interval ≡ some id
    → plan_for p id ≡ some plan
plan_for-lookup p plan interval id u h = elim (Option-cases (plan_for p id)) [
  | inl missing ↦
      absurd
        (plan_for-raw_price p plan interval (rw (raw_price-lookup p plan interval id h) missing))
  | inr (plan', found) ↦
      let at_id : raw_price p plan interval ≡ id = raw_price-lookup p plan interval id h in
      found
      ∙ ap some (elim (plan_for_sound p id plan' found) [
        | inl e ↦ u.distinct plan' plan monthly interval (e ∙ sym at_id)
        | inr e ↦ u.distinct plan' plan yearly interval (e ∙ sym at_id)
      ])
]

plan_of_iff : (s : Str) (plan : CheckoutPlan) → (plan_of s ≡ parsed plan) ↔ (s ≡ slug plan)
unfolding plan_of slug
plan_of_iff s plan = ground (
  arith,
  str_eq_iff s (codes "basic"),
  str_eq_iff s (codes "pro"),
  str_eq_iff s (codes "enterprise"),
)

-- The plan of a checkout request is accepted exactly when it is a plan's slug, in any case and with
-- white space around it.
pub parse_plan_iff :
    (s : Str) (plan : CheckoutPlan)
    → (parse_plan s ≡ parsed plan) ↔ (to_ascii_lowercase (trim s) ≡ slug plan)
unfolding parse_plan
parse_plan_iff s plan = plan_of_iff (to_ascii_lowercase (trim s)) plan
