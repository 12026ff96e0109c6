-- ===== src/Billing/Entitlements/Laws.antt =====
-- The entitlement matrix of billing/entitlements.rs as an order on plans.
use mizan_connect.Base.{
  [], ◌∷◌, ℕ, ◌≤◌, ℤ, pos, negsuc, Str, codes, str_eq, str_eq_iff, to_ascii_lowercase, Bool, true,
  false, ◌||◌, Option, none, some, ◌≡◌, ◌≢◌, ◌↔◌, refl, arith, if◌then◌else◌, ◌∷◌, lower_char_idem,
}
use mizan_connect.Billing.Entitlements.{Entitlements, free_entitlements, of_slug, entitlements_for}

-- A quota covers another: it is unlimited, or both are limits and it is no smaller.
abbrev pub Covers : ℤ → ℤ → Type 0
Covers (pos a) (pos b) = b ≤ a
Covers (pos a) (negsuc b) = ⊥
Covers (negsuc a) b = Unit

abbrev pub Allows : Bool → Bool → Type 0
Allows true b = Unit
Allows false b = b ≡ false

-- Everything that `e` unlocks, `f` unlocks too.
pub record Includes (f e : Entitlements) : Type 0 where
  pub portfolios : Covers f.max_portfolios e.max_portfolios
  pub holdings : Covers f.max_holdings e.max_holdings
  pub asset_classes : Covers f.max_asset_classes e.max_asset_classes
  pub broker : Allows f.broker_sync e.broker_sync
  pub connections : Covers f.max_broker_connections e.max_broker_connections
  pub devices : Allows f.device_sync e.device_sync
  pub backup : Allows f.cloud_backup e.cloud_backup
  pub ai : Allows f.managed_ai e.managed_ai
  pub credits : Covers f.ai_credits_monthly e.ai_credits_monthly
  pub news : Covers f.news_daily_limit e.news_daily_limit
  pub refreshes : Covers f.market_refresh_daily_limit e.market_refresh_daily_limit
  pub imports : Covers f.csv_imports_monthly e.csv_imports_monthly
  pub reports : Allows f.advanced_reports e.advanced_reports
  pub advisor : Allows f.advisor_mode e.advisor_mode

-- The place of a slug in the price list: free, basic, pro and the legacy slugs, enterprise.
abbrev pub rank_of_slug : Str → ℕ
rank_of_slug slug =
    if str_eq slug (codes "free")
    then 0
    else if str_eq slug (codes "basic")
    then 1
    else if str_eq slug (codes "enterprise") || str_eq slug (codes "advisor")
    then 3
    else 2

abbrev pub rank : Option Str → ℕ
rank none = 0
rank (some tier) = rank_of_slug (to_ascii_lowercase tier)

Includes-of_slug : (s t : Str) → rank_of_slug t ≤ rank_of_slug s → Includes (of_slug s) (of_slug t)
unfolding of_slug
Includes-of_slug s t h = ground arith

Includes-of_free : (s : Str) → Includes (of_slug s) free_entitlements
unfolding of_slug
Includes-of_free s = ground arith

free_Includes : (s : Str) → rank_of_slug s ≤ 0 → Includes free_entitlements (of_slug s)
unfolding of_slug
free_Includes s h = ground arith

Includes-refl : Includes free_entitlements free_entitlements
Includes-refl = ground arith

-- A plan at least as high in the price list unlocks at least as much, at every status of the
-- subscription, legacy and unknown slugs included.
pub entitlements_for_mono :
    (lower higher status : Option Str)
    → rank lower ≤ rank higher
    → Includes (entitlements_for higher status) (entitlements_for lower status)
unfolding entitlements_for
entitlements_for_mono none none status h = ground (arith, Includes-refl)
entitlements_for_mono none (some t) status h =
    ground (arith, Includes-refl, Includes-of_free (to_ascii_lowercase t))
entitlements_for_mono (some s) none status h =
    ground (arith, Includes-refl, free_Includes (to_ascii_lowercase s))
entitlements_for_mono (some s) (some t) status h =
    ground (arith, Includes-refl, Includes-of_slug (to_ascii_lowercase t) (to_ascii_lowercase s))

-- Whatever the tier, a subscription that is neither active nor trialing (past due, canceled,
-- missing, or of an unknown status) unlocks exactly what no subscription does.
pub entitlements_for_inactive :
    (tier : Option Str) (status : Str)
    → status ≢ codes "active"
    → status ≢ codes "trialing"
    → (entitlements_for tier (some status) ≡ free_entitlements)
      × (entitlements_for tier none ≡ free_entitlements)
unfolding entitlements_for
entitlements_for_inactive tier status a b =
    (ground (arith, str_eq_iff status (codes "active"), str_eq_iff status (codes "trialing")), refl)

-- The flags and the quotas agree: broker sync comes with broker connections, and managed AI with
-- credits.
pub record IsConsistent (e : Entitlements) : Type 0 where
  pub broker : (e.broker_sync ≡ true) ↔ (e.max_broker_connections ≢ pos 0)
  pub ai : (e.managed_ai ≡ true) ↔ (e.ai_credits_monthly ≢ pos 0)

-- For every tier and status, the flag for broker sync is set exactly when the quota of broker
-- connections is not zero, and the flag for managed AI exactly when the monthly credits are not.
pub entitlements_for-IsConsistent :
    (tier status : Option Str) → IsConsistent (entitlements_for tier status)
unfolding entitlements_for
entitlements_for-IsConsistent none status = record { broker = ground arith; ai = ground arith }
entitlements_for-IsConsistent (some t) status = record { broker = ground arith; ai = ground arith }

map-lower_char_idem : (s : Str) → to_ascii_lowercase (to_ascii_lowercase s) ≡ to_ascii_lowercase s
unfolding to_ascii_lowercase
map-lower_char_idem [] = refl
map-lower_char_idem (c ∷ s) = cc (lower_char_idem c, map-lower_char_idem s)

-- The spelling of a tier in upper or lower case does not matter, not even for the plan that the
-- client is shown.
pub entitlements_for_case :
    (tier : Str) (status : Option Str)
    → entitlements_for (some (to_ascii_lowercase tier)) status ≡ entitlements_for (some tier) status
unfolding entitlements_for
entitlements_for_case tier status = rw map-lower_char_idem
