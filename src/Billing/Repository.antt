-- ===== src/Billing/Repository.antt =====
-- billing/repository.rs: the statements on subscriptions, usage and Stripe events. `now` is the
-- value of NOW() in the statement.
use mizan_connect.Base.{
  ℕ, ◌+◌, ℤ, negsuc, pos, Str, codes, Bool, true, false, ◌&&◌, Option, none, some, List, [], ◌∷◌,
  ◌++◌, ltb, ◌==◌, str_eq, exists, first, keep, update_where, if◌then◌else◌,
}
use mizan_connect.Error.{other_failure, row_not_found, from_sqlx, Result, ok, err}
use mizan_connect.Exec.{Action, statement, select}
use mizan_connect.Billing.Credits.{credits_for_tokens, i32_max}
use mizan_connect.Billing.Tables.{
  Schema, Subscription, Usage, BillingDb, is_billable, is_metric, column_is, upsert,
}

-- `ORDER BY updated_at DESC LIMIT 1`
unfoldable pub latest : List Subscription → Option Subscription
latest [] = none
latest (a ∷ rows) = elim (latest rows) [
  | none ↦ some a
  | some b ↦ if ltb a.updated_at b.updated_at then some b else some a
]

abbrev pub is_billable_of : ℕ → Subscription → Bool
is_billable_of user_id a = a.user_id == user_id && is_billable a.status

unfoldable pub active_row : ℕ → BillingDb → Option Subscription
unfolding latest
active_row user_id d = latest (keep (is_billable_of user_id) d.subscriptions)

unfoldable pub fetch_active : ℕ → Action BillingDb (Option Subscription)
unfolding active_row
fetch_active user_id = select (active_row user_id)

-- The row that a first checkout inserts.
abbrev pub customer_stub : ℕ → ℕ → Str → Subscription
customer_stub now user_id stripe_customer_id = record {
  user_id = user_id;
  team_id = none;
  stripe_customer_id = some stripe_customer_id;
  stripe_subscription_id = none;
  tier = codes "basic";
  status = codes "incomplete";
  current_period_start = none;
  current_period_end = none;
  cancel_at_period_end = false;
  ai_credits_used = 0;
  ai_credits_period_start = none;
  updated_at = now;
}

abbrev pub upsert_customer_stub_in :
    Schema → ℕ → ℕ → Str → BillingDb → Result (Unit {0}) × BillingDb
upsert_customer_stub_in schema now user_id stripe_customer_id =
    upsert schema (λ a. column_is a.stripe_customer_id stripe_customer_id)
      (customer_stub now user_id stripe_customer_id) (λ a. record a { updated_at = now })

unfoldable pub upsert_customer_stub : Schema → ℕ → ℕ → Str → Action BillingDb (Unit {0})
upsert_customer_stub schema now user_id stripe_customer_id =
    statement (upsert_customer_stub_in schema now user_id stripe_customer_id)

abbrev has_customer : ℕ → Subscription → Bool
has_customer user_id a =
    a.user_id == user_id && elim a.stripe_customer_id [ none ↦ false | some c ↦ true ]

abbrev customer_of : Option Subscription → Option Str
customer_of none = none
customer_of (some a) = a.stripe_customer_id

unfoldable pub customer_in : ℕ → BillingDb → Option Str
unfolding latest
customer_in user_id d = customer_of (latest (keep (has_customer user_id) d.subscriptions))

unfoldable pub fetch_customer_id : ℕ → Action BillingDb (Option Str)
fetch_customer_id user_id = select (customer_in user_id)

pub record WebhookSubscriptionUpsert : Type 0 where
  pub user_id : ℕ
  pub stripe_customer_id : Str
  pub stripe_subscription_id : Str
  pub tier : Str
  pub status : Str
  pub current_period_start : Option ℕ
  pub current_period_end : Option ℕ
  pub cancel_at_period_end : Bool

-- The row of the INSERT, and the columns of DO UPDATE.
abbrev pub webhook_row : ℕ → WebhookSubscriptionUpsert → Subscription
webhook_row now p = record {
  user_id = p.user_id;
  team_id = none;
  stripe_customer_id = some p.stripe_customer_id;
  stripe_subscription_id = some p.stripe_subscription_id;
  tier = p.tier;
  status = p.status;
  current_period_start = p.current_period_start;
  current_period_end = p.current_period_end;
  cancel_at_period_end = p.cancel_at_period_end;
  ai_credits_used = 0;
  ai_credits_period_start = none;
  updated_at = now;
}

abbrev pub webhook_change : ℕ → WebhookSubscriptionUpsert → Subscription → Subscription
webhook_change now p a = record a {
  tier = p.tier;
  status = p.status;
  current_period_start = p.current_period_start;
  current_period_end = p.current_period_end;
  cancel_at_period_end = p.cancel_at_period_end;
  updated_at = now;
}

abbrev pub upsert_from_webhook_in :
    Schema → ℕ → WebhookSubscriptionUpsert → BillingDb → Result (Unit {0}) × BillingDb
upsert_from_webhook_in schema now p =
    upsert schema (λ a. column_is a.stripe_subscription_id p.stripe_subscription_id)
      (webhook_row now p) (webhook_change now p)

unfoldable pub upsert_from_webhook :
    Schema → ℕ → WebhookSubscriptionUpsert → Action BillingDb (Unit {0})
upsert_from_webhook schema now p = statement (upsert_from_webhook_in schema now p)

abbrev pub reset_row : ℕ → ℕ → Subscription → Subscription
reset_row now period_start a = record a {
  ai_credits_used = 0;
  ai_credits_period_start = some period_start;
  updated_at = now;
}

-- No column of a unique index changes, so none can forbid the UPDATE.
abbrev pub reset_ai_credits_in : ℕ → Str → ℕ → BillingDb → Result (Unit {0}) × BillingDb
reset_ai_credits_in now stripe_subscription_id period_start d = (
  ok tt,
  record d {
    subscriptions =
        update_where (λ a. column_is a.stripe_subscription_id stripe_subscription_id)
          (reset_row now period_start) d.subscriptions;
  },
)

unfoldable pub reset_ai_credits : ℕ → Str → ℕ → Action BillingDb (Unit {0})
reset_ai_credits now stripe_subscription_id period_start =
    statement (reset_ai_credits_in now stripe_subscription_id period_start)

-- `CHECK (units >= 0)`; the credits are never negative in the model.
abbrev pub is_negative : ℤ → Bool
is_negative (pos n) = false
is_negative (negsuc n) = true

abbrev pub record_usage_in : Usage → BillingDb → Result (Unit {0}) × BillingDb
record_usage_in u d =
    if is_metric u.metric
    then if is_negative u.units
      then (err (from_sqlx other_failure), d)
      else (ok tt, record d { usage_ledger = d.usage_ledger ++ u ∷ [] })
    else (err (from_sqlx other_failure), d)

unfoldable pub record_usage : Usage → Action BillingDb (Unit {0})
record_usage u = statement (record_usage_in u)

abbrev pub charge_row : ℕ → ℕ → Subscription → Subscription
charge_row now credits a = record a {
  ai_credits_used = a.ai_credits_used + credits;
  updated_at = now;
}

-- The sum leaves the range of INTEGER.
abbrev overflows : ℕ → ℕ → Subscription → Bool
overflows user_id credits a = is_billable_of user_id a && ltb i32_max (a.ai_credits_used + credits)

-- `RETURNING` of the first updated row; `fetch_one` fails without one.
abbrev returned : ℕ → Option Subscription → BillingDb → BillingDb → Result ℕ × BillingDb
returned credits none d d' = (err (from_sqlx row_not_found), d)
returned credits (some a) d d' = (ok (a.ai_credits_used + credits), d')

abbrev pub add_ai_credits_used_in : ℕ → ℕ → ℕ → BillingDb → Result ℕ × BillingDb
add_ai_credits_used_in now user_id credits d =
    if exists (overflows user_id credits) d.subscriptions
    then (err (from_sqlx other_failure), d)
    else returned credits (first (is_billable_of user_id) d.subscriptions) d (record d {
      subscriptions =
          update_where (is_billable_of user_id) (charge_row now credits) d.subscriptions;
    })

unfoldable pub add_ai_credits_used : ℕ → ℕ → ℕ → Action BillingDb ℕ
add_ai_credits_used now user_id credits = statement (add_ai_credits_used_in now user_id credits)

abbrev pub is_recorded : Str → BillingDb → Bool
is_recorded event_id d = exists (λ e. str_eq e.0 event_id) d.stripe_events

-- `true` if the event was new; `rows_affected` is 0 on a conflict.
abbrev pub try_record_in : Str → Str → BillingDb → Result Bool × BillingDb
try_record_in event_id event_type d =
    if is_recorded event_id d
    then (ok false, d)
    else (ok true, record d { stripe_events = d.stripe_events ++ (event_id, event_type) ∷ [] })

unfoldable pub try_record_stripe_event : Str → Str → Action BillingDb Bool
try_record_stripe_event event_id event_type = statement (try_record_in event_id event_type)

unfoldable pub credits_for_reply : ℕ → ℕ → ℕ
unfolding credits_for_tokens
credits_for_reply prompt_tokens completion_tokens =
    credits_for_tokens prompt_tokens completion_tokens
