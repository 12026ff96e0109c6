-- ===== src/Teams/Repository.antt =====
-- teams/repository.rs and users/repository.rs: the queries.
use mizan_connect.Base.{
  ℕ, Str, Bool, true, false, ◌&&◌, Option, none, some, List, [], ◌∷◌, ◌++◌, ◌==◌, leb, first, keep,
  update_where, if◌then◌else◌,
}
use mizan_connect.Error.{row_not_found, from_sqlx, Result, ok, err}
use mizan_connect.Exec.{Action, select, statement}
use mizan_connect.Teams.Model.{Team, TeamMember, TeamRole, viewer, from_str, User}
use mizan_connect.Teams.Tables.{TeamsDb, is_member_of}

abbrev pub is_null : Option ℕ → Bool
is_null none = true
is_null (some n) = false

unfoldable pub fetch_by_id : ℕ → Action TeamsDb (Option Team)
fetch_by_id team_id = select (λ d. first (λ t. t.id == team_id && is_null t.deleted_at) d.teams)

-- The rows of the join: one for each membership of the user.
abbrev pub memberships : ℕ → Team → List TeamMember → List Team
memberships user_id t [] = []
memberships user_id t (m ∷ ms) =
    if is_member_of t.id user_id m && is_null t.deleted_at
    then t ∷ memberships user_id t ms
    else memberships user_id t ms

abbrev pub teams_of : ℕ → List Team → List TeamMember → List Team
teams_of user_id [] ms = []
teams_of user_id (t ∷ ts) ms = memberships user_id t ms ++ teams_of user_id ts ms

-- `order` is the database's order by LOWER(name).
unfoldable pub list_for_user : (List Team → List Team) → ℕ → Action TeamsDb (List Team)
list_for_user order user_id = select (λ d. order (teams_of user_id d.teams d.team_members))

-- `TeamRole::from_str(&s).unwrap_or(TeamRole::Viewer)`
abbrev pub role_or_viewer : Option TeamRole → TeamRole
role_or_viewer none = viewer
role_or_viewer (some r) = r

abbrev pub role_of_row : Option TeamMember → Option TeamRole
role_of_row none = none
role_of_row (some m) = some (role_or_viewer (from_str m.role))

-- The role that the table gives a user on a team.
unfoldable pub role_in : ℕ → ℕ → TeamsDb → Option TeamRole
role_in team_id user_id d = role_of_row (first (is_member_of team_id user_id) d.team_members)

unfoldable pub role_for : ℕ → ℕ → Action TeamsDb (Option TeamRole)
role_for team_id user_id = select (role_in team_id user_id)

-- `ORDER BY joined_at ASC`
abbrev insert_by_joined_at : TeamMember → List TeamMember → List TeamMember
insert_by_joined_at m [] = m ∷ []
insert_by_joined_at m (n ∷ ms) =
    if leb m.joined_at n.joined_at then m ∷ n ∷ ms else n ∷ insert_by_joined_at m ms

abbrev pub order_by_joined_at : List TeamMember → List TeamMember
order_by_joined_at [] = []
order_by_joined_at (m ∷ ms) = insert_by_joined_at m (order_by_joined_at ms)

unfoldable pub list_members : ℕ → Action TeamsDb (List TeamMember)
list_members team_id =
    select (λ d. order_by_joined_at (keep (λ m. m.team_id == team_id) d.team_members))

abbrev is_live : ℕ → User → Bool
is_live id u = u.id == id && is_null u.deleted_at

-- users/repository.rs, `fetch_by_id`
unfoldable pub fetch_user : ℕ → Action TeamsDb (Option User)
fetch_user id = select (λ d. first (is_live id) d.users)

-- `COALESCE($2, display_name)`
abbrev coalesce : Option Str → Option Str → Option Str
coalesce none old = old
coalesce (some s) old = some s

abbrev one_row : Option User → Result User
one_row none = err (from_sqlx row_not_found)
one_row (some u) = ok u

-- `now` is what the trigger on `users` writes.
unfoldable pub update_display_name : ℕ → ℕ → Option Str → Action TeamsDb User
update_display_name now id display_name = statement λ d.
    let change = λ (u : User). record u {
      display_name = coalesce display_name u.display_name;
      updated_at = now;
    } in
    let users = update_where (is_live id) change d.users in
    (one_row (first (is_live id) users), record d { users = users })
