-- ===== src/Billing/Handlers.antt =====
-- billing/handlers.rs and the requests of billing/stripe_client.rs: checkout, portal and usage.
-- The HTTP exchange with Stripe is the field `post_form` of a `StripeClient`: the path and the form
-- give the id and the URL of the object that Stripe made, or an error. The list of plans for
-- display is left out.
pub mod Reporting
pub mod Checkout
mod Tests
use mizan_connect.Base.{
  ℕ, ℤ, pos, negsuc, Str, codes, str_eq, Bool, true, false, not, ◌||◌, Option, none, some, List, [],
  ◌∷◌, ◌++◌, if◌then◌else◌,
}
use mizan_connect.Error.{
  AppError, app_error, bad_request, unauthorized, not_found, not_implemented, service_unavailable,
  Result, ok, err, ok_or,
}
use mizan_connect.Exec.{Action, World, pure, lift, begin, commit, transaction, ◌>>=◌, ◌>>◌}
use mizan_connect.Billing.Prices.{
  CheckoutPlan, BillingInterval, Parsed, parsed, failed, parse_plan, parse_interval, StripePrices,
  lookup,
}
use mizan_connect.Billing.Tables.{Schema, Usage, BillingDb}
use mizan_connect.Billing.Signature.{StripeError, transport, api, signature}
use mizan_connect.Billing.Repository.{
  fetch_customer_id, upsert_customer_stub, record_usage, is_negative,
}

-- `Customer`, `CheckoutSession` and `PortalSession`; a customer has no URL.
pub record StripeObject : Type 0 where
  pub id : Str
  pub url : Str

pub data Reply : Type 0 where
  created : StripeObject → Reply
  rejected : StripeError → Reply

pub record StripeClient : Type 0 where
  pub post_form : Str → List (Str × Str) → Reply
  -- A UUID as text.
  pub to_string : ℕ → Str

-- The part of `BillingContext` that these handlers read.
pub record CheckoutContext : Type 0 where
  pub stripe : StripeClient
  pub prices : StripePrices
  pub return_url : Str

pub record CheckoutRequest : Type 0 where
  pub plan : Str
  pub interval : Str

pub record UsageRequest : Type 0 where
  pub metric : Str
  pub units : ℤ
  pub model : Option Str
  pub kind : Option Str

abbrev pub create_customer : StripeClient → Str → ℕ → Reply
create_customer stripe email user_id =
    stripe.post_form (codes "/v1/customers")
      ((codes "email", email) ∷ (codes "metadata[user_id]", stripe.to_string user_id) ∷ [])

abbrev pub checkout_form : StripeClient → Str → Str → Str → Str → ℕ → List (Str × Str)
checkout_form stripe customer_id price_id success_url cancel_url user_id =
    (codes "mode", codes "subscription")
    ∷ (codes "customer", customer_id)
    ∷ (codes "line_items[0][price]", price_id)
    ∷ (codes "line_items[0][quantity]", codes "1")
    ∷ (codes "success_url", success_url)
    ∷ (codes "cancel_url", cancel_url)
    ∷ (codes "client_reference_id", stripe.to_string user_id)
    ∷ (codes "allow_promotion_codes", codes "true")
    ∷ []

-- The form of `create_checkout_session` for a context, with its two return links.
abbrev pub session_form : CheckoutContext → Str → Str → ℕ → List (Str × Str)
session_form billing customer_id price_id user_id =
    checkout_form billing.stripe customer_id price_id
      (billing.return_url ++ codes "?status=success")
      (billing.return_url ++ codes "?status=canceled") user_id

abbrev portal_form : CheckoutContext → Str → List (Str × Str)
portal_form billing customer_id =
    (codes "customer", customer_id) ∷ (codes "return_url", billing.return_url) ∷ []

unfoldable pub stripe_to_app_error : StripeError → AppError
stripe_to_app_error transport =
    app_error service_unavailable (codes "upstream payment service unreachable")
stripe_to_app_error (api status body) =
    app_error service_unavailable (codes "payment service returned an error")
stripe_to_app_error (signature reason) = app_error unauthorized (codes "invalid webhook signature")

-- `.map_err(stripe_to_app_error)?`
abbrev pub made : Reply → Result StripeObject
made (created o) = ok o
made (rejected e) = err (stripe_to_app_error e)

-- `.map_err(AppError::bad_request)?`
abbrev pub parsed_or_bad : {A : Type 0} → Parsed A → Result A
parsed_or_bad (parsed a) = ok a
parsed_or_bad (failed e) = err (app_error bad_request e)

abbrev price_or_bad : Option Str → Result Str
price_or_bad o = ok_or (app_error bad_request (codes "plan/interval not available")) o

abbrev pub configured : Option CheckoutContext → Result CheckoutContext
configured o =
    ok_or (app_error not_implemented (codes "billing is not configured on this server")) o

-- The customer that the tables name, or a new one that is written to them.
abbrev pub customer_for : Schema → ℕ → CheckoutContext → ℕ → Str → Option Str → Action BillingDb Str
customer_for schema now billing user_id email (some id) = pure id
customer_for schema now billing user_id email none = do
  customer ← lift (made (create_customer billing.stripe email user_id))
  upsert_customer_stub schema now user_id customer.id
  pure customer.id

abbrev pub open_session : CheckoutContext → Str → ℕ → Str → Action BillingDb Str
open_session billing price_id user_id customer_id = do
  session ← lift (
      made (
        billing.stripe.post_form (codes "/v1/checkout/sessions")
          (session_form billing customer_id price_id user_id)))
  pure session.url

abbrev pub checkout_of : Schema → ℕ → CheckoutContext → ℕ → Str → Str → Action BillingDb Str
checkout_of schema now billing user_id email price_id = do
  found ← fetch_customer_id user_id
  customer_id ← customer_for schema now billing user_id email found
  open_session billing price_id user_id customer_id

-- `CheckoutPlan::from_str`, `BillingInterval::from_str` and `lookup` of the request.
abbrev pub price_of : CheckoutContext → CheckoutPlan → BillingInterval → Result Str
price_of billing plan interval = price_or_bad (lookup billing.prices plan interval)

-- The value is the URL of the session.
unfoldable pub create_checkout_session :
    Schema → ℕ → Option CheckoutContext → ℕ → Str → CheckoutRequest → Action BillingDb Str
create_checkout_session schema now context user_id email req = do
  billing ← lift (configured context)
  plan ← lift (parsed_or_bad (parse_plan req.plan))
  interval ← lift (parsed_or_bad (parse_interval req.interval))
  price_id ← lift (price_of billing plan interval)
  checkout_of schema now billing user_id email price_id

unfoldable pub create_portal_session : Option CheckoutContext → ℕ → Action BillingDb Str
create_portal_session context user_id = do
  billing ← lift (configured context)
  found ← fetch_customer_id user_id
  customer_id ← lift (ok_or (app_error not_found (codes "no Stripe customer for this user")) found)
  session ← lift (
      made (
        billing.stripe.post_form (codes "/v1/billing_portal/sessions")
          (portal_form billing customer_id)))
  pure session.url

abbrev is_metric_name : Str → Bool
is_metric_name s =
    str_eq s (codes "ai_reply")
    || str_eq s (codes "broker_poll")
    || str_eq s (codes "csv_intel")
    || str_eq s (codes "market_refresh")

abbrev pub guard_usage : UsageRequest → Result (Unit {0})
guard_usage req =
    if not (is_metric_name req.metric)
    then err (app_error bad_request (codes "unknown metric"))
    else if is_negative req.units
    then err (app_error bad_request (codes "units must be non-negative"))
    else ok tt

abbrev pub usage_of : ℕ → UsageRequest → Usage
usage_of user_id req = record {
  user_id = user_id;
  metric = req.metric;
  units = req.units;
  cost_credits = 0;
  model = req.model;
  kind = req.kind;
}

-- The handler `record_usage`; its value is the status.
unfoldable pub report_usage : ℕ → UsageRequest → Action BillingDb ℕ
report_usage user_id req = do
  lift (guard_usage req)
  transaction do begin; record_usage (usage_of user_id req); commit
  pure 202
