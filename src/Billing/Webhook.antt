-- ===== src/Billing/Webhook.antt =====
-- billing/webhook.rs: `POST /v1/stripe/webhook`.
-- serde_json, the crates behind the signature check and `OffsetDateTime::from_unix_timestamp` are
-- the fields of a `WebhookLib`. The lookup of the user goes to the pool, not to the open
-- transaction; the transaction has written only `stripe_events` by then, so it reads the same rows.
pub mod Recorded
pub mod Delivery
pub mod Once
pub mod Handled
pub mod Refused
pub mod Effects
mod Samples
mod Tests
use mizan_connect.Base.{
  ℕ, ℤ, Str, codes, str_eq, Bool, true, false, ◌||◌, Option, none, some, List, [], ◌∷◌, ◌++◌, first,
  if◌then◌else◌,
}
use mizan_connect.Error.{
  AppError, app_error, bad_request, unauthorized, not_implemented, Result, ok, err,
}
use mizan_connect.Exec.{Action, World, pure, raise, select, transaction, begin, commit, ◌>>=◌, ◌>>◌}
use mizan_connect.Billing.Prices.{
  CheckoutPlan, Parsed, parsed, failed, parse_plan, slug, StripePrices, plan_for,
}
use mizan_connect.Billing.Tables.{Schema, Subscription, BillingDb, column_is}
use mizan_connect.Billing.Repository.{
  WebhookSubscriptionUpsert, upsert_from_webhook, reset_ai_credits, try_record_stripe_event,
}
use mizan_connect.Billing.Signature.{Verification, verified, refused, verify_webhook}

pub record Envelope (Value : Type 0) : Type 0 where
  pub id : Str
  pub event_type : Str
  pub object : Value

-- `items.data[i].price`, with `metadata.plan`.
pub record Price : Type 0 where
  pub id : Str
  pub plan : Option Str

pub record SubscriptionObject : Type 0 where
  pub id : Str
  pub customer : Str
  pub status : Str
  pub cancel_at_period_end : Bool
  pub current_period_start : Option ℤ
  pub current_period_end : Option ℤ
  pub items : List Price

pub record InvoiceObject : Type 0 where
  pub subscription : Option Str
  pub period_start : Option ℤ

pub record WebhookLib : Type 1 where
  pub Value : Type 0
  pub hmac : Str → Str → Str
  pub hex_decode : Str → Option Str
  pub parse_envelope : Str → Parsed (Envelope Value)
  pub parse_subscription : Value → Parsed SubscriptionObject
  pub parse_invoice : Value → Parsed InvoiceObject
  pub from_unix_timestamp : ℤ → Option ℕ

-- The part of `BillingContext` that the webhook reads.
pub record BillingContext : Type 0 where
  pub prices : StripePrices
  pub webhook_secret : Str

-- The first `metadata.plan` of the items.
abbrev pub first_plan : List Price → Option Str
first_plan [] = none
first_plan (p ∷ items) = elim p.plan [ none ↦ first_plan items | some plan ↦ some plan ]

abbrev find_plan : StripePrices → List Price → Option CheckoutPlan
find_plan prices [] = none
find_plan prices (p ∷ items) = elim (plan_for prices p.id) [
  | none ↦ find_plan prices items
  | some plan ↦ some plan
]

abbrev parsed_plan : Option Str → Option CheckoutPlan
parsed_plan none = none
parsed_plan (some plan) = elim (parse_plan plan) [ parsed p ↦ some p | failed e ↦ none ]

unfoldable pub resolve_tier : SubscriptionObject → StripePrices → Option CheckoutPlan
resolve_tier sub prices = elim (parsed_plan (first_plan sub.items)) [
  | some p ↦ some p
  | none ↦ find_plan prices sub.items
]

-- `.map(|p| p.slug()).unwrap_or("basic")`
abbrev pub slug_or_basic : Option CheckoutPlan → Str
slug_or_basic none = codes "basic"
slug_or_basic (some p) = slug p

abbrev pub user_of : Option Subscription → Option ℕ
user_of none = none
user_of (some a) = some a.user_id

unfoldable pub user_of_customer : Str → BillingDb → Option ℕ
user_of_customer customer d =
    user_of (first (λ a. column_is a.stripe_customer_id customer) d.subscriptions)

unfoldable pub resolve_user_id : Str → Action BillingDb (Option ℕ)
resolve_user_id customer = select (user_of_customer customer)

abbrev pub is_subscription_event : Str → Bool
is_subscription_event t =
    str_eq t (codes "customer.subscription.created")
    || str_eq t (codes "customer.subscription.updated")
    || str_eq t (codes "customer.subscription.deleted")

module _ (lib : WebhookLib) (schema : Schema) (now : ℕ) where
  -- `ts`
  abbrev pub ts : Option ℤ → Option ℕ
  ts none = none
  ts (some unix) = lib.from_unix_timestamp unix

  abbrev pub upsert_of : StripePrices → SubscriptionObject → ℕ → WebhookSubscriptionUpsert
  upsert_of prices sub user_id = record {
    user_id = user_id;
    stripe_customer_id = sub.customer;
    stripe_subscription_id = sub.id;
    tier = slug_or_basic (resolve_tier sub prices);
    status = sub.status;
    current_period_start = ts sub.current_period_start;
    current_period_end = ts sub.current_period_end;
    cancel_at_period_end = sub.cancel_at_period_end;
  }

  abbrev upsert_for : StripePrices → SubscriptionObject → Option ℕ → Action BillingDb (Unit {0})
  upsert_for prices sub none = pure tt
  upsert_for prices sub (some user_id) =
      upsert_from_webhook schema now (upsert_of prices sub user_id)

  unfoldable pub on_subscription :
      StripePrices → Parsed SubscriptionObject → Action BillingDb (Unit {0})
  unfolding resolve_user_id
  on_subscription prices (failed e) =
      raise (app_error bad_request (codes "subscription payload: " ++ e))
  on_subscription prices (parsed sub) = do
    user_id ← resolve_user_id sub.customer
    upsert_for prices sub user_id

  abbrev reset_for : Option Str → Option ℕ → Action BillingDb (Unit {0})
  reset_for (some sub_id) (some period_start) = reset_ai_credits now sub_id period_start
  reset_for (some sub_id) none = pure tt
  reset_for none period_start = pure tt

  unfoldable pub on_invoice : Parsed InvoiceObject → Action BillingDb (Unit {0})
  on_invoice (failed e) = raise (app_error bad_request (codes "invoice payload: " ++ e))
  on_invoice (parsed invoice) = reset_for invoice.subscription (ts invoice.period_start)

  -- The `match` on the event's type.
  unfoldable pub handle_event : StripePrices → Envelope lib.Value → Action BillingDb (Unit {0})
  unfolding on_subscription on_invoice
  handle_event prices env =
      if is_subscription_event env.event_type
      then on_subscription prices (lib.parse_subscription env.object)
      else if str_eq env.event_type (codes "invoice.paid")
      then on_invoice (lib.parse_invoice env.object)
      else pure tt

  abbrev handle_new : StripePrices → Envelope lib.Value → Bool → Action BillingDb ℕ
  handle_new prices env false = do commit; pure 200
  handle_new prices env true = do handle_event prices env; commit; pure 200

  -- What happens between `begin` and the end of the transaction.
  unfoldable pub in_transaction : StripePrices → Envelope lib.Value → Action BillingDb ℕ
  in_transaction prices env = do
    begin
    fresh ← try_record_stripe_event env.id env.event_type
    handle_new prices env fresh

  unfoldable pub process : StripePrices → Envelope lib.Value → Action BillingDb ℕ
  process prices env = transaction (in_transaction prices env)

  abbrev on_envelope : StripePrices → Parsed (Envelope lib.Value) → Action BillingDb ℕ
  on_envelope prices (failed e) =
      raise (app_error bad_request (codes "malformed webhook payload: " ++ e))
  on_envelope prices (parsed env) = process prices env

  abbrev on_verification : StripePrices → Str → Verification → Action BillingDb ℕ
  on_verification prices body (refused e) =
      raise (app_error unauthorized (codes "invalid webhook signature"))
  on_verification prices body (verified t) = on_envelope prices (lib.parse_envelope body)

  abbrev on_header : BillingContext → Str → ℤ → Option Str → Action BillingDb ℕ
  on_header billing body unix_now none =
      raise (app_error bad_request (codes "missing Stripe-Signature header"))
  on_header billing body unix_now (some sig) =
      on_verification billing.prices body
        (verify_webhook lib.hmac lib.hex_decode billing.webhook_secret sig body unix_now)

  -- `sig` is the header as text, `none` if it is missing or not ASCII.
  unfoldable pub receive_webhook : Option BillingContext → Option Str → Str → ℤ → Action BillingDb ℕ
  receive_webhook none sig body unix_now =
      raise (app_error not_implemented (codes "billing not configured"))
  receive_webhook (some billing) sig body unix_now = on_header billing body unix_now sig
