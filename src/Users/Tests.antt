-- ===== src/Users/Tests.antt =====
-- The view of a caller with a Pro subscription.
use mizan_connect.Base.{str_eq, codes, ◌≡◌, refl, none, some, [], ◌∷◌, false, eq_ℤ}
use mizan_connect.Exec.{select, World}
use mizan_connect.Teams.Model.{User}
use mizan_connect.Billing.Entitlements.{unlimited}
use mizan_connect.Billing.Tables.{is_billable, Subscription, BillingDb}
use mizan_connect.Billing.Repository.{active_row}
use mizan_connect.Billing.AiProxy.{credits_used, entitlements_of}
use mizan_connect.Users.{TeamDto, build_me, get_me}
use mizan_connect.Users.View.{get_me_credits}

abbrev user : User
user = record {
  id = 7;
  supabase_user_id = 70;
  email = codes "a@b";
  display_name = none;
  avatar_url = none;
  created_at = 10;
  updated_at = 10;
  deleted_at = none;
}

abbrev subscription : Subscription
subscription = record {
  user_id = 7;
  team_id = none;
  stripe_customer_id = none;
  stripe_subscription_id = none;
  tier = codes "pro";
  status = codes "active";
  current_period_start = none;
  current_period_end = some 900;
  cancel_at_period_end = false;
  ai_credits_used = 40;
  ai_credits_period_start = none;
  updated_at = 0;
}

abbrev world : World BillingDb
world = record {
  db = record { subscriptions = subscription ∷ []; stripe_events = []; usage_ledger = [] };
  faults = [];
}

get_me_credits_example :
    (team : TeamDto) × ((build_me (λ t. none) user (some subscription)).team ≡ some team)
    × (team.ai_credits.monthly ≡ (entitlements_of (active_row 7 world.db)).ai_credits_monthly)
    × (eq_ℤ team.ai_credits.monthly unlimited ≡ false
        → team.ai_credits.used ≡ credits_used (active_row 7 world.db))
unfolding get_me select is_billable str_eq
get_me_credits_example =
    get_me_credits (λ t. none) user world (build_me (λ t. none) user (some subscription)) refl
