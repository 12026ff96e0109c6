-- ===== src/Teams/Model.antt =====
-- teams/model.rs and users/model.rs: the rows and the roles. Instants are nanoseconds, and the
-- UUIDs of users and teams are numbers.
use mizan_connect.Base.{
  ℕ, Str, codes, str_eq, str_eq_sound, ◌≡◌, ◌↔◌, refl, ap, ◌∙◌, Bool, true, false, Option, none,
  some, arith, if◌then◌else◌,
}

pub record Team : Type 0 where
  pub id : ℕ
  pub name : Str
  pub owner_user_id : ℕ
  pub branding_logo_url : Option Str
  pub branding_color : Option Str
  pub created_at : ℕ
  pub updated_at : ℕ
  pub deleted_at : Option ℕ

pub record TeamMember : Type 0 where
  pub team_id : ℕ
  pub user_id : ℕ
  pub role : Str
  pub joined_at : ℕ

pub record User : Type 0 where
  pub id : ℕ
  pub supabase_user_id : ℕ
  pub email : Str
  pub display_name : Option Str
  pub avatar_url : Option Str
  pub created_at : ℕ
  pub updated_at : ℕ
  pub deleted_at : Option ℕ

-- A row of `team_invites`.
pub record TeamInvite : Type 0 where
  pub token : Str
  pub team_id : ℕ
  pub invited_by : ℕ
  pub email : Str
  pub role : Str
  pub redeemed_at : Option ℕ
  pub redeemed_by : Option ℕ
  pub created_at : ℕ
  pub expires_at : ℕ

pub data TeamRole : Type 0 where
  owner advisor viewer : TeamRole

unfoldable pub as_str : TeamRole → Str
as_str owner = codes "owner"
as_str advisor = codes "advisor"
as_str viewer = codes "viewer"

unfoldable pub from_str : Str → Option TeamRole
from_str s =
    if str_eq s (codes "owner")
    then some owner
    else if str_eq s (codes "advisor")
    then some advisor
    else if str_eq s (codes "viewer")
    then some viewer
    else none

unfoldable pub is_owner : TeamRole → Bool
is_owner owner = true
is_owner advisor = false
is_owner viewer = false

unfoldable pub can_write_portfolio : TeamRole → Bool
can_write_portfolio owner = true
can_write_portfolio advisor = true
can_write_portfolio viewer = false

pub from_str-as_str : (r : TeamRole) → from_str (as_str r) ≡ some r
unfolding from_str as_str str_eq
from_str-as_str owner = refl
from_str-as_str advisor = refl
from_str-as_str viewer = refl

from_str_sound : (s : Str) (r : TeamRole) → from_str s ≡ some r → s ≡ as_str r
unfolding from_str as_str
from_str_sound s r h =
    let o = str_eq_sound s (codes "owner") in
    let a = str_eq_sound s (codes "advisor") in
    let v = str_eq_sound s (codes "viewer") in ground arith

-- A text is read as a role exactly if it is that role's spelling, so the two spellings agree.
pub from_str_iff : (s : Str) (r : TeamRole) → (from_str s ≡ some r) ↔ (s ≡ as_str r)
from_str_iff s r = (from_str_sound s r, λ e. ap from_str e ∙ from_str-as_str r)
