-- ===== src/Teams/Handlers.antt =====
-- teams/handlers.rs: the caller's teams and the roster of a team. An instant's text is a
-- parameter, as is the database's order of team names.
pub mod Access
use mizan_connect.Base.{ℕ, ◌≡◌, Str, codes, Option, none, some, List, [], ◌∷◌}
use mizan_connect.Error.{app_error, forbidden, Result, ok, err}
use mizan_connect.Exec.{Action, World, pure, raise, lift, ◌>>=◌, ◌>>◌}
use mizan_connect.Teams.Model.{Team, TeamMember, User, TeamRole, as_str}
use mizan_connect.Teams.Tables.{TeamsDb}
use mizan_connect.Teams.Repository.{list_for_user, role_for, list_members, fetch_user}

pub record TeamSummary : Type 0 where
  pub id : ℕ
  pub name : Str
  pub owner_user_id : ℕ
  pub branding_logo_url : Option Str
  pub branding_color : Option Str
  pub my_role : Option Str
  pub created_at : Option Str

pub record TeamMemberDto : Type 0 where
  pub user_id : ℕ
  pub role : Str
  pub joined_at : Option Str
  pub display_name : Option Str

abbrev pub role_text : Option TeamRole → Option Str
role_text none = none
role_text (some r) = some (as_str r)

-- `.ok().flatten().and_then(|u| u.display_name.or(Some(u.email)))`
abbrev or_email : User → Option Str → Option Str
or_email u none = some u.email
or_email u (some name) = some name

abbrev name_of : Result (Option User) → Option Str
name_of (err e) = none
name_of (ok none) = none
name_of (ok (some u)) = or_email u u.display_name

-- `.ok()`: a failure becomes a value.
abbrev attempt : {A : Type 0} → Action TeamsDb A → Action TeamsDb (Result A)
attempt m w = let (r, w') = m w in (ok r, w')

module _ (format : ℕ → Option Str) where
  abbrev pub from_team : Team → Option Str → TeamSummary
  from_team team my_role = record {
    id = team.id;
    name = team.name;
    owner_user_id = team.owner_user_id;
    branding_logo_url = team.branding_logo_url;
    branding_color = team.branding_color;
    my_role = my_role;
    created_at = format team.created_at;
  }

  abbrev pub summaries : ℕ → List Team → Action TeamsDb (List TeamSummary)
  summaries user_id [] = pure []
  summaries user_id (team ∷ teams) = do
    role ← role_for team.id user_id
    rest ← summaries user_id teams
    pure (from_team team (role_text role) ∷ rest)

  unfoldable pub list_for_me : (List Team → List Team) → ℕ → Action TeamsDb (List TeamSummary)
  list_for_me order user_id = do teams ← list_for_user order user_id; summaries user_id teams

  abbrev member_dto : TeamMember → Option Str → TeamMemberDto
  member_dto m display_name = record {
    user_id = m.user_id;
    role = m.role;
    joined_at = format m.joined_at;
    display_name = display_name;
  }

  abbrev pub with_names : List TeamMember → Action TeamsDb (List TeamMemberDto)
  with_names [] = pure []
  with_names (m ∷ ms) = do
    user ← attempt (fetch_user m.user_id)
    rest ← with_names ms
    pure (member_dto m (name_of user) ∷ rest)

  abbrev pub require_member : Option TeamRole → Result (Unit {0})
  require_member none = err (app_error forbidden (codes "You are not a member of this team."))
  require_member (some r) = ok tt

  -- The handler of the roster: `list_members` of teams/handlers.rs.
  unfoldable pub roster : ℕ → ℕ → Action TeamsDb (List TeamMemberDto)
  roster user_id team_id = do
    my_role ← role_for team_id user_id
    lift (require_member my_role)
    members ← list_members team_id
    with_names members
