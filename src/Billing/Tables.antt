-- ===== src/Billing/Tables.antt =====
-- The billing tables of migrations/ and their constraints, as Postgres enforces them.
-- `team_id` stands for migration 0005, which adds the column as NOT NULL with no default: a
-- `Schema` says whether it has run. Foreign keys to `users` and the unread columns `id` and
-- `created_at` are left out. Instants are numbers of nanoseconds since the Unix epoch.
use mizan_connect.Base.{
  ℕ, ℤ, Str, codes, str_eq, Bool, true, false, not, ◌&&◌, ◌||◌, Option, none, some, List, [], ◌∷◌,
  ◌++◌, ◌==◌, exists, update_where, if◌then◌else◌,
}
use mizan_connect.Error.{unique_violation, other_failure, from_sqlx, Result, ok, err}

pub record Schema : Type 0 where
  pub team_id_not_null : Bool

-- The tables before migration 0005, and with every migration of the repository.
abbrev pub before_teams : Schema
before_teams = record { team_id_not_null = false }

abbrev pub current : Schema
current = record { team_id_not_null = true }

pub record Subscription : Type 0 where
  pub user_id : ℕ
  pub team_id : Option ℕ
  pub stripe_customer_id : Option Str
  pub stripe_subscription_id : Option Str
  pub tier : Str
  pub status : Str
  pub current_period_start : Option ℕ
  pub current_period_end : Option ℕ
  pub cancel_at_period_end : Bool
  pub ai_credits_used : ℕ
  pub ai_credits_period_start : Option ℕ
  pub updated_at : ℕ

pub record Usage : Type 0 where
  pub user_id : ℕ
  pub metric : Str
  pub units : ℤ
  pub cost_credits : ℕ
  pub model : Option Str
  pub kind : Option Str

pub record BillingDb : Type 0 where
  pub subscriptions : List Subscription
  pub stripe_events : List (Str × Str)
  pub usage_ledger : List Usage

abbrev pub is_one_of : Str → List Str → Bool
is_one_of s [] = false
is_one_of s (t ∷ ts) = str_eq s t || is_one_of s ts

-- The type `subscription_status`.
unfoldable pub is_status : Str → Bool
is_status s = is_one_of s (
    codes "active"
    ∷ codes "past_due"
    ∷ codes "canceled"
    ∷ codes "trialing"
    ∷ codes "incomplete"
    ∷ codes "incomplete_expired"
    ∷ codes "unpaid"
    ∷ [])

-- `subscriptions_tier_check`
unfoldable pub is_tier : Str → Bool
is_tier s = is_one_of s (
    codes "basic"
    ∷ codes "essentials"
    ∷ codes "duo"
    ∷ codes "plus"
    ∷ codes "pro"
    ∷ codes "enterprise"
    ∷ [])

-- The type `usage_metric`.
unfoldable pub is_metric : Str → Bool
is_metric s =
    is_one_of s
      (codes "ai_reply" ∷ codes "broker_poll" ∷ codes "csv_intel" ∷ codes "market_refresh" ∷ [])

-- `status IN ('active', 'trialing', 'past_due')`
unfoldable pub is_billable : Str → Bool
is_billable s =
    str_eq s (codes "active") || str_eq s (codes "trialing") || str_eq s (codes "past_due")

-- `column = value`, where NULL equals nothing.
abbrev pub column_is : Option Str → Str → Bool
column_is none s = false
column_is (some t) s = str_eq t s

abbrev same_text : Option Str → Option Str → Bool
same_text a none = false
same_text a (some s) = column_is a s

abbrev same_team : Option ℕ → Option ℕ → Bool
same_team none b = false
same_team (some a) none = false
same_team (some a) (some b) = a == b

-- Two rows that a unique index forbids: on the customer, on the Stripe subscription, and on the
-- user and the team of a billable row.
unfoldable pub clash : Subscription → Subscription → Bool
clash a b =
    same_text a.stripe_customer_id b.stripe_customer_id
    || same_text a.stripe_subscription_id b.stripe_subscription_id
    || is_billable a.status
      && is_billable b.status
      && (a.user_id == b.user_id || same_team a.team_id b.team_id)

unfoldable pub is_unique : List Subscription → Bool
is_unique [] = true
is_unique (a ∷ rows) = not (exists (clash a) rows) && is_unique rows

abbrev is_null : Option ℕ → Bool
is_null none = true
is_null (some n) = false

-- The checks on one row, made before any index is asked.
unfoldable pub is_row : Schema → Subscription → Bool
is_row schema a =
    not (schema.team_id_not_null && is_null a.team_id) && is_tier a.tier && is_status a.status

-- A write of `subscriptions` that leaves `rows`: refused if a unique index forbids it.
unfoldable pub store {ℓ} : {A : Type ℓ} → A → List Subscription → BillingDb → Result A × BillingDb
store a rows d =
    if is_unique rows
    then (ok a, record d { subscriptions = rows })
    else (err (from_sqlx unique_violation), d)

-- `INSERT … ON CONFLICT (column) DO UPDATE`, where `target` finds the rows with the column's value.
unfoldable pub upsert :
    Schema
    → (Subscription → Bool)
    → Subscription
    → (Subscription → Subscription)
    → BillingDb
    → Result (Unit {0}) × BillingDb
unfolding store
upsert schema target row change d =
    if is_row schema row
    then if exists target d.subscriptions
      then store tt (update_where target change d.subscriptions) d
      else store tt (d.subscriptions ++ row ∷ []) d
    else (err (from_sqlx other_failure), d)
