-- ===== src/Users.antt =====
-- users/handlers.rs: the view of the caller, and the change of the name that is shown. The text of an
-- instant (`OffsetDateTime::format`) is a parameter; a length counts characters, as `validator` does.
pub mod View
mod Tests
use mizan_connect.Base.{
  ℕ, ℤ, Str, codes, trim, is_empty, length, leb, Bool, true, false, ◌&&◌, Option, none, some,
  if◌then◌else◌, eq_ℤ,
}
use mizan_connect.Error.{Result, ok, err, app_error, unprocessable_entity}
use mizan_connect.Exec.{World, Action, ◌>>=◌, pure}
use mizan_connect.Teams.Model.{User}
use mizan_connect.Teams.Tables.{TeamsDb}
use mizan_connect.Teams.Repository.{update_display_name}
use mizan_connect.Billing.Entitlements.{Entitlements, unlimited, entitlements_for}
use mizan_connect.Billing.Tables.{Subscription, BillingDb}
use mizan_connect.Billing.Repository.{fetch_active}

-- `AiCredits` of billing/entitlements.rs
pub record AiCredits : Type 0 where
  pub monthly : ℤ
  pub used : ℕ
  pub resets_at : Option ℕ

pub record TeamDto : Type 0 where
  pub id : ℕ
  pub name : Str
  pub logo_url : Option Str
  pub plan : Option Str
  pub subscription_status : Option Str
  pub subscription_current_period_end : Option Str
  pub subscription_cancel_at_period_end : Option Bool
  pub canceled_at : Option Str
  pub country_code : Option Str
  pub created_at : Option Str
  pub entitlements : Entitlements
  pub ai_credits : AiCredits

pub record MeResponse : Type 0 where
  pub id : ℕ
  pub supabase_user_id : ℕ
  pub email : Str
  pub display_name : Option Str
  pub avatar_url : Option Str
  pub created_at : ℕ
  pub updated_at : ℕ
  pub team_id : Option ℕ
  pub team_role : Option Str
  pub team : Option TeamDto

abbrev map_sub : {A : Type 0} → (Subscription → A) → Option Subscription → Option A
map_sub f none = none
map_sub f (some s) = some (f s)

abbrev period_end : Option Subscription → Option ℕ
period_end none = none
period_end (some s) = s.current_period_end

abbrev used_or : Option Subscription → ℕ
used_or none = 0
used_or (some s) = s.ai_credits_used

abbrev text_or : Option Str → Str → Str
text_or none s = s
text_or (some t) s = t

abbrev shown_end : (ℕ → Option Str) → Option ℕ → Option Str
shown_end format none = none
shown_end format (some t) = format t

abbrev entitled : Option Subscription → Entitlements
entitled sub = entitlements_for (map_sub (λ s. s.tier) sub) (map_sub (λ s. s.status) sub)

abbrev credits : Option Subscription → AiCredits
credits sub = record {
  monthly = (entitled sub).ai_credits_monthly;
  used = if eq_ℤ (entitled sub).ai_credits_monthly unlimited then 0 else used_or sub;
  resets_at = period_end sub;
}

abbrev team_dto : (ℕ → Option Str) → User → Option Subscription → TeamDto
team_dto format user sub = record {
  id = user.id;
  name = text_or user.display_name user.email;
  logo_url = none;
  plan = map_sub (λ s. s.tier) sub;
  subscription_status = map_sub (λ s. s.status) sub;
  subscription_current_period_end = shown_end format (period_end sub);
  subscription_cancel_at_period_end = map_sub (λ s. s.cancel_at_period_end) sub;
  canceled_at = none;
  country_code = none;
  created_at = format user.created_at;
  entitlements = entitled sub;
  ai_credits = credits sub;
}

unfoldable pub build_me : (ℕ → Option Str) → User → Option Subscription → MeResponse
build_me format user sub = record {
  id = user.id;
  supabase_user_id = user.supabase_user_id;
  email = user.email;
  display_name = user.display_name;
  avatar_url = user.avatar_url;
  created_at = user.created_at;
  updated_at = user.updated_at;
  team_id = some user.id;
  team_role = some (codes "owner");
  team = some (team_dto format user sub);
}

unfoldable pub get_me : (ℕ → Option Str) → User → Action BillingDb MeResponse
unfolding build_me fetch_active
get_me format user = do sub ← fetch_active user.id; pure (build_me format user sub)

-- `length(min = 1, max = 100)`, and the text of the failure.
abbrev name_fits : Option Str → Bool
name_fits none = true
name_fits (some s) = leb 1 (length s) && leb (length s) 100

-- `.map(str::trim).filter(|s| !s.is_empty())`
abbrev pub trimmed_name : Option Str → Option Str
trimmed_name none = none
trimmed_name (some s) = if is_empty (trim s) then none else some (trim s)

abbrev me_of :
    (ℕ → Option Str)
    → Result User × World TeamsDb
    → World BillingDb
    → Result MeResponse × (World TeamsDb × World BillingDb)
me_of format (err e, w) b = (err e, (w, b))
me_of format (ok user, w) b = let (me, b') = get_me format user b in (me, (w, b'))

-- The tables of users and those of the subscriptions are two worlds here.
unfoldable pub patch_me :
    (ℕ → Option Str)
    → ℕ
    → User
    → Option Str
    → World TeamsDb
    → World BillingDb
    → Result MeResponse × (World TeamsDb × World BillingDb)
unfolding get_me update_display_name
patch_me format now user name w b =
    if name_fits name
    then me_of format (update_display_name now user.id (trimmed_name name) w) b
    else (
      err (
          app_error unprocessable_entity
            (codes "validation failed: display_name: display_name must be 1-100 chars")),
      (w, b),
    )
