-- ===== src/Billing/Handlers/Tests.antt =====
-- Checkout and usage on concrete tables, with a stand-in for Stripe that makes every object.
use mizan_connect.Base.{
  ℕ, pos, Str, codes, str_eq, trim, trim_start, is_whitespace, to_ascii_lowercase, ◌≡◌, ◌≢◌, refl,
  Option, none, some, [], ◌∷◌,
}
use mizan_connect.Error.{ok}
use mizan_connect.Exec.{World, select, statement, transaction, begin, commit}
use mizan_connect.Billing.Prices.{
  CheckoutPlan, BillingInterval, parsed, parse_plan, parse_interval, StripePrices, lookup,
}
use mizan_connect.Billing.Tables.{
  before_teams, current, BillingDb, is_metric, upsert, store, is_row, is_tier, is_status, is_unique,
}
use mizan_connect.Billing.Repository.{
  record_usage, customer_in, fetch_customer_id, upsert_customer_stub,
}
use mizan_connect.Billing.Handlers.{
  StripeClient, StripeObject, CheckoutContext, CheckoutRequest, UsageRequest, created, session_form,
  report_usage, create_checkout_session,
}
use mizan_connect.Billing.Handlers.Checkout.{
  CustomerOf, create_checkout_session_sound, create_checkout_session-current,
}

abbrev object : StripeObject
object = record { id = codes "cus"; url = codes "u" }

abbrev stripe : StripeClient
stripe = record { post_form = λ path form. created object; to_string = λ n. n ∷ [] }

abbrev prices : StripePrices
prices = record {
  basic_monthly = codes "a";
  basic_yearly = codes "b";
  pro_monthly = codes "c";
  pro_yearly = codes "d";
  enterprise_monthly = codes "e";
  enterprise_yearly = codes "f";
}

abbrev context : Option CheckoutContext
context = some (record { stripe = stripe; prices = prices; return_url = codes "r" })

abbrev request : CheckoutRequest
request = record { plan = codes "Pro"; interval = codes "year" }

abbrev empty : BillingDb
empty = record { subscriptions = []; stripe_events = []; usage_ledger = [] }

abbrev world : World BillingDb
world = record { db = empty; faults = [] }

abbrev usage : UsageRequest
usage = record { metric = codes "csv_intel"; units = pos 2; model = none; kind = none }

abbrev accepted_code : ℕ
accepted_code = 202

accepted_usage : (report_usage 7 usage world).0 ≡ ok 202
unfolding report_usage record_usage begin commit transaction select statement is_metric str_eq
accepted_usage = refl

opened :
    (create_checkout_session before_teams 3 context 7 (codes "e") request world).0 ≡ ok (codes "u")
unfolding create_checkout_session parse_plan parse_interval lookup fetch_customer_id customer_in
    upsert_customer_stub upsert store is_row is_tier is_status is_unique select statement str_eq
    to_ascii_lowercase trim trim_start is_whitespace
opened = refl

create_checkout_session_sound_example :
    (billing : CheckoutContext) × (plan : CheckoutPlan) × (interval : BillingInterval)
    × (price_id : Str) × (customer : Str) × (session : StripeObject) × (context ≡ some billing)
    × (parse_plan (codes "Pro") ≡ parsed plan)
    × (parse_interval (codes "year") ≡ parsed interval)
    × (lookup billing.prices plan interval ≡ some price_id)
    × (billing.stripe.post_form
          (codes "/v1/checkout/sessions")
          (session_form billing customer price_id 7)
        ≡ created session)
    × (codes "u" ≡ session.url)
    × CustomerOf before_teams 3 7
        (codes "e")
        empty
        customer
        (create_checkout_session before_teams 3 context 7 (codes "e") request world).1.db
create_checkout_session_sound_example =
    create_checkout_session_sound before_teams 3 7 (codes "e") context request world (codes "u")
      opened

no_customer : customer_in 7 empty ≡ none
unfolding customer_in
no_customer = refl

create_checkout_session-current_example :
    (create_checkout_session current 3 context 7 (codes "e") request world).0 ≢ ok (codes "u")
create_checkout_session-current_example =
    create_checkout_session-current 3 7 (codes "e") context request world (codes "u") no_customer

abbrev billing : CheckoutContext
billing = record { stripe = stripe; prices = prices; return_url = codes "r" }

-- What Stripe is asked for a session.
session_fields :
    session_form billing (codes "cus") (codes "d") 7
    ≡ (codes "mode", codes "subscription")
      ∷ (codes "customer", codes "cus")
      ∷ (codes "line_items[0][price]", codes "d")
      ∷ (codes "line_items[0][quantity]", codes "1")
      ∷ (codes "success_url", codes "r?status=success")
      ∷ (codes "cancel_url", codes "r?status=canceled")
      ∷ (codes "client_reference_id", 7 ∷ [])
      ∷ (codes "allow_promotion_codes", codes "true")
      ∷ []
session_fields = refl
