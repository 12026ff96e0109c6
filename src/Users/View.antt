-- ===== src/Users/View.antt =====
-- users/handlers.rs: the credits that `/v1/me` shows, against those that the AI proxy counts.
use mizan_connect.Base.{
  if◌then◌else◌, ℕ, Str, ◌≡◌, refl, Option, none, some, eq_ℤ, false, ap, sym, subst,
}
use mizan_connect.Error.{ok}
use mizan_connect.Exec.{World, pure}
use mizan_connect.Exec.Laws.{select_then}
use mizan_connect.Teams.Model.{User}
use mizan_connect.Billing.Entitlements.{unlimited, Entitlements}
use mizan_connect.Billing.Tables.{Subscription, BillingDb}
use mizan_connect.Billing.Repository.{active_row, fetch_active}
use mizan_connect.Billing.AiProxy.{credits_used, entitlements_of}
use mizan_connect.Users.{MeResponse, TeamDto, get_me, build_me, team_dto, entitled, used_or}

same_entitlements : (o : Option Subscription) → entitled o ≡ entitlements_of o
same_entitlements none = refl
same_entitlements (some s) = refl

same_used : (o : Option Subscription) → used_or o ≡ credits_used o
same_used none = refl
same_used (some s) = refl

-- The view of the caller shows the cap that the AI proxy enforces for the caller, and, unless the
-- plan has no cap, the same count of credits used.
pub get_me_credits :
    (format : ℕ → Option Str) (user : User) (w : World BillingDb) (me : MeResponse)
    → (get_me format user w).0 ≡ ok me
    → (team : TeamDto) × (me.team ≡ some team)
      × (team.ai_credits.monthly ≡ (entitlements_of (active_row user.id w.db)).ai_credits_monthly)
      × (eq_ℤ team.ai_credits.monthly unlimited ≡ false
          → team.ai_credits.used ≡ credits_used (active_row user.id w.db))
unfolding get_me build_me fetch_active
get_me_credits format user w me h =
    let (w', same, run, done) =
      select_then (active_row user.id) (λ sub. pure (build_me format user sub)) w me h in
    let is_me : build_me format user (active_row user.id w.db) ≡ me = cc done in
    shown (active_row user.id w.db) is_me
  where
    shown :
        (o : Option Subscription)
        → build_me format user o ≡ me
        → (team : TeamDto) × (me.team ≡ some team)
          × (team.ai_credits.monthly ≡ (entitlements_of o).ai_credits_monthly)
          × (eq_ℤ team.ai_credits.monthly unlimited ≡ false → team.ai_credits.used ≡ credits_used o)
    shown o e = (
      team_dto format user o,
      ap (λ (r : MeResponse). r.team) (sym e),
      ap (λ (x : Entitlements). x.ai_credits_monthly) (same_entitlements o),
      λ capped.
          subst (λ b. (if b then 0 else used_or o) ≡ credits_used o) (sym capped) (same_used o),
    )
