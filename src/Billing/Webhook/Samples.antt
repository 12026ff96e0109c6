-- ===== src/Billing/Webhook/Samples.antt =====
-- Concrete events and tables for the tests, with stand-ins for the crates: the secret is the
-- signature, a body is an event by its first character, and the object is the event's kind.
use mizan_connect.Base.{
  ℕ, ℤ, pos, negsuc, Str, codes, false, Option, none, some, [], ◌∷◌, if◌then◌else◌, ◌==◌,
}
use mizan_connect.Exec.{World}
use mizan_connect.Billing.Prices.{parsed, StripePrices}
use mizan_connect.Billing.Tables.{Subscription, BillingDb}
use mizan_connect.Billing.Webhook.{
  WebhookLib, Envelope, SubscriptionObject, InvoiceObject, BillingContext,
}
use mizan_connect.Billing.Webhook.Once.{Delivery}

abbrev pub subscription : SubscriptionObject
subscription = record {
  id = codes "sub";
  customer = codes "cus";
  status = codes "canceled";
  cancel_at_period_end = false;
  current_period_start = none;
  current_period_end = some (pos 9);
  items = [];
}

abbrev pub invoice : InvoiceObject
invoice = record { subscription = some (codes "sub"); period_start = some (pos 5) }

abbrev pub event_type_of : Str → Str
event_type_of [] = codes "customer.created"
event_type_of (c ∷ s) =
    if c == 115 then codes "customer.subscription.updated" else codes "invoice.paid"

abbrev pub seconds : ℤ → Option ℕ
seconds (pos n) = some n
seconds (negsuc n) = none

abbrev pub lib : WebhookLib
lib = record {
  Value = Unit;
  hmac = λ key message. key;
  hex_decode = λ text. some text;
  parse_envelope =
      λ body. parsed (record { id = body; event_type = event_type_of body; object = tt });
  parse_subscription = λ v. parsed subscription;
  parse_invoice = λ v. parsed invoice;
  from_unix_timestamp = seconds;
}

abbrev pub envelope : Str → Envelope Unit
envelope body = record { id = body; event_type = event_type_of body; object = tt }

abbrev pub prices : StripePrices
prices = record {
  basic_monthly = codes "a";
  basic_yearly = codes "b";
  pro_monthly = codes "c";
  pro_yearly = codes "d";
  enterprise_monthly = codes "e";
  enterprise_yearly = codes "f";
}

abbrev pub billing : Option BillingContext
billing = some (record { prices = prices; webhook_secret = codes "ab" })

abbrev pub known : Subscription
known = record {
  user_id = 7;
  team_id = none;
  stripe_customer_id = some (codes "cus");
  stripe_subscription_id = some (codes "sub");
  tier = codes "pro";
  status = codes "active";
  current_period_start = none;
  current_period_end = none;
  cancel_at_period_end = false;
  ai_credits_used = 40;
  ai_credits_period_start = none;
  updated_at = 1;
}

-- The row that a checkout leaves.
abbrev pub stub : Subscription
stub = record known { stripe_subscription_id = none; status = codes "incomplete" }

abbrev pub tables : Subscription → BillingDb
tables row = record { subscriptions = row ∷ []; stripe_events = []; usage_ledger = [] }

abbrev pub world : Subscription → World BillingDb
world row = record { db = tables row; faults = [] }

abbrev pub delivery : Str → Delivery
delivery body = record {
  sig = some (codes "t=100,v1=ab");
  body = body;
  unix_now = pos 150;
  now = 3;
}
