-- ===== src/Billing/Webhook/Tests.antt =====
-- Deliveries of concrete events.
use mizan_connect.Base.{
  to_ascii_lowercase, pos, wrap, abs_i64, trim, trim_start, is_whitespace, split_on, split_once,
  parse_from, parse_i64, ◌≡◌, ◌≢◌, refl, codes, str_eq, true, false, none, some, [], ◌∷◌, exists,
  update_where, Option, Str,
}
use mizan_connect.Error.{SqlError, other_failure, from_sqlx, ok, err}
use mizan_connect.Exec.{World, statement, transaction, select, begin, commit}
use mizan_connect.Billing.Prices.{slug, plan_for, parse_plan}
use mizan_connect.Billing.Tables.{
  before_teams, current, BillingDb, column_is, upsert, store, is_row, is_tier, is_status, is_unique,
  clash, is_billable,
}
use mizan_connect.Billing.Repository.{
  is_recorded, try_record_stripe_event, upsert_from_webhook, reset_ai_credits,
}
use mizan_connect.Billing.Signature.{verify_webhook, subtle_eq}
use mizan_connect.Billing.Webhook.{
  process, receive_webhook, in_transaction, resolve_tier, handle_event, on_subscription, on_invoice,
  resolve_user_id, user_of_customer, is_subscription_event, slug_or_basic, SubscriptionObject,
}
use mizan_connect.Billing.Webhook.Delivery.{receive_webhook_atomic}
use mizan_connect.Billing.Webhook.Once.{deliver, deliver_all, receive_webhook_once}
use mizan_connect.Billing.Webhook.Handled.{with_event}
use mizan_connect.Billing.Webhook.Refused.{process-first_subscription, process-current}
use mizan_connect.Billing.Webhook.Effects.{process-known_subscription, process-invoice_paid}
use mizan_connect.Billing.Webhook.Samples.{
  subscription, invoice, event_type_of, lib, envelope, prices, billing, known, stub, tables, world,
  delivery,
}

invoice_delivered :
    (deliver lib before_teams billing (delivery (codes "i")) (world known)).0 ≡ ok 200
unfolding receive_webhook process in_transaction handle_event on_invoice on_subscription
    resolve_user_id user_of_customer upsert_from_webhook upsert store is_row is_unique clash
    verify_webhook subtle_eq transaction begin commit try_record_stripe_event reset_ai_credits
    str_eq statement select wrap abs_i64 trim trim_start is_whitespace split_on split_once
    parse_from parse_i64
invoice_delivered = refl

receive_webhook_once_example :
    (deliver lib before_teams billing (delivery (codes "i")) (
      deliver_all lib before_teams billing
        (delivery (codes "s") ∷ [])
        (deliver lib before_teams billing (delivery (codes "i")) (world known)).1)).1.db
    ≡ (deliver_all lib before_teams billing
        (delivery (codes "s") ∷ [])
        (deliver lib before_teams billing (delivery (codes "i")) (world known)).1).db
receive_webhook_once_example =
    receive_webhook_once lib before_teams billing (delivery (codes "i")) (delivery (codes "i"))
      (delivery (codes "s") ∷ []) (envelope (codes "i")) (world known) 200 refl refl
      invoice_delivered

abbrev fault : SqlError
fault = other_failure

-- The commit of the transaction fails.
abbrev faulty : World BillingDb
faulty = record (world known) { faults = none ∷ none ∷ none ∷ some fault ∷ [] }

invoice_faulted :
    (receive_webhook lib before_teams 3 billing
      (some (codes "t=100,v1=ab"))
      (codes "i")
      (pos 150)
      faulty).0
    ≡ err (from_sqlx fault)
unfolding receive_webhook process in_transaction handle_event on_invoice on_subscription
    resolve_user_id user_of_customer upsert_from_webhook upsert store is_row is_unique clash
    verify_webhook subtle_eq transaction begin commit try_record_stripe_event reset_ai_credits
    str_eq statement select wrap abs_i64 trim trim_start is_whitespace split_on split_once
    parse_from parse_i64
invoice_faulted = refl

receive_webhook_atomic_example :
    (receive_webhook lib before_teams 3 billing
      (some (codes "t=100,v1=ab"))
      (codes "i")
      (pos 150)
      faulty).1.db
    ≡ tables known
receive_webhook_atomic_example =
    receive_webhook_atomic lib before_teams 3 billing (some (codes "t=100,v1=ab")) (codes "i")
      (pos 150) faulty (from_sqlx fault) invoice_faulted

abbrev recorded : World BillingDb
recorded = record (world known) {
  db = with_event (codes "e") (codes "invoice.paid") (tables known);
}

e_recorded : is_recorded (codes "e") recorded.db ≡ true
unfolding str_eq
e_recorded = refl

subscription_type : is_subscription_event (event_type_of (codes "s")) ≡ true
unfolding str_eq
subscription_type = refl

known_customer : user_of_customer (codes "cus") (tables known) ≡ some 7
unfolding user_of_customer str_eq
known_customer = refl

stub_customer : user_of_customer (codes "cus") (tables stub) ≡ some 7
unfolding user_of_customer str_eq
stub_customer = refl

known_subscription :
    exists (λ a. column_is a.stripe_subscription_id (codes "sub")) (tables known).subscriptions
    ≡ true
unfolding str_eq
known_subscription = refl

process-first_subscription_example :
    (process lib before_teams 3 prices (envelope (codes "s")) (world stub)).0 ≢ ok 200
process-first_subscription_example =
    process-first_subscription lib before_teams 3 prices (envelope (codes "s")) subscription 7
      (world stub) 200 subscription_type refl refl stub_customer refl

process-current_example :
    (process lib current 3 prices (envelope (codes "s")) (world known)).0 ≢ ok 200
process-current_example =
    process-current lib 3 prices (envelope (codes "s")) subscription 7 (world known) 200
      subscription_type refl refl known_customer

subscription_processed :
    (process lib before_teams 3 prices (envelope (codes "s")) (world known)).0 ≡ ok 200
unfolding receive_webhook process in_transaction handle_event on_invoice on_subscription
    resolve_user_id user_of_customer upsert_from_webhook upsert store is_row is_unique clash
    verify_webhook subtle_eq transaction begin commit try_record_stripe_event reset_ai_credits
    str_eq statement select wrap abs_i64 trim trim_start is_whitespace split_on split_once
    parse_from parse_i64 is_tier is_status resolve_tier slug plan_for is_billable
subscription_processed = refl

process-known_subscription_example :
    (process lib before_teams 3 prices (envelope (codes "s")) (world known)).1.db
    ≡ record (with_event (codes "s") (codes "customer.subscription.updated") (tables known)) {
      subscriptions =
          update_where
            (λ a. column_is a.stripe_subscription_id (codes "sub"))
            (λ a. record a {
              tier = slug_or_basic (resolve_tier subscription prices);
              status = codes "canceled";
              current_period_start = none;
              current_period_end = some 9;
              cancel_at_period_end = false;
              updated_at = 3;
            })
            (known ∷ []);
    }
process-known_subscription_example =
    process-known_subscription lib before_teams 3 prices (envelope (codes "s")) subscription 7
      (world known) 200 subscription_type refl refl known_customer known_subscription
      subscription_processed

invoice_processed :
    (process lib before_teams 3 prices (envelope (codes "i")) (world known)).0 ≡ ok 200
unfolding receive_webhook process in_transaction handle_event on_invoice on_subscription
    resolve_user_id user_of_customer upsert_from_webhook upsert store is_row is_unique clash
    verify_webhook subtle_eq transaction begin commit try_record_stripe_event reset_ai_credits
    str_eq statement select wrap abs_i64 trim trim_start is_whitespace split_on split_once
    parse_from parse_i64
invoice_processed = refl

process-invoice_paid_example :
    (process lib before_teams 3 prices (envelope (codes "i")) (world known)).1.db
    ≡ record (with_event (codes "i") (codes "invoice.paid") (tables known)) {
      subscriptions =
          update_where
            (λ a. column_is a.stripe_subscription_id (codes "sub"))
            (λ a. record a {
              ai_credits_used = 0;
              ai_credits_period_start = some 5;
              updated_at = 3;
            })
            (known ∷ []);
    }
process-invoice_paid_example =
    process-invoice_paid lib before_teams 3 prices (envelope (codes "i")) invoice (codes "sub") 5
      (world known) 200 refl refl refl refl refl invoice_processed

-- The tier of an event: the plan that an item names, else the plan of a known price, else basic.
abbrev items_of : Option Str → Str → SubscriptionObject
items_of plan id = record subscription { items = record { id = id; plan = plan } ∷ [] }

named_tier :
    slug_or_basic (resolve_tier (items_of (some (codes "enterprise")) (codes "c")) prices)
    ≡ codes "enterprise"
unfolding resolve_tier parse_plan str_eq to_ascii_lowercase trim slug
named_tier = refl

priced_tier : slug_or_basic (resolve_tier (items_of none (codes "c")) prices) ≡ codes "pro"
unfolding resolve_tier plan_for str_eq slug
priced_tier = refl

unknown_tier : slug_or_basic (resolve_tier (items_of none (codes "z")) prices) ≡ codes "basic"
unfolding resolve_tier plan_for str_eq
unknown_tier = refl

other_processed : (process lib before_teams 3 prices (envelope []) (world known)).0 ≡ ok 200
unfolding receive_webhook process in_transaction handle_event on_invoice on_subscription
    resolve_user_id user_of_customer upsert_from_webhook upsert store is_row is_unique clash
    verify_webhook subtle_eq transaction begin commit try_record_stripe_event reset_ai_credits
    str_eq statement select wrap abs_i64 trim trim_start is_whitespace split_on split_once
    parse_from parse_i64
other_processed = refl

other_type : is_subscription_event (event_type_of []) ≡ false
unfolding str_eq
other_type = refl

not_invoice : str_eq (event_type_of []) (codes "invoice.paid") ≡ false
unfolding str_eq
not_invoice = refl
