-- ===== src/Teams/Tables.antt =====
-- The tables of the teams, with the constraints of migrations 0001, 0005 and 0006.
pub mod Roles
use mizan_connect.Base.{
  ℕ, Str, codes, str_eq, Bool, true, false, ◌&&◌, ◌||◌, Option, none, some, List, [], ◌∷◌, ◌++◌,
  ◌==◌, exists, first, update_where, if◌then◌else◌,
}
use mizan_connect.Error.{unique_violation, other_failure, from_sqlx, Result, ok, err}
use mizan_connect.Teams.Model.{Team, TeamMember, User, TeamInvite}

pub record TeamsDb : Type 0 where
  pub users : List User
  pub teams : List Team
  pub team_members : List TeamMember
  pub team_invites : List TeamInvite

abbrev pub is_member_of : ℕ → ℕ → TeamMember → Bool
is_member_of team_id user_id m = m.team_id == team_id && m.user_id == user_id

abbrev pub has_token : Str → TeamInvite → Bool
has_token token i = str_eq i.token token

-- Foreign keys.
abbrev has_team : ℕ → TeamsDb → Bool
has_team team_id d = exists (λ t. t.id == team_id) d.teams

abbrev has_user : ℕ → TeamsDb → Bool
has_user user_id d = exists (λ u. u.id == user_id) d.users

-- `CHECK (role IN ('owner', 'advisor', 'viewer'))`
unfoldable pub is_member_role : Str → Bool
is_member_role r =
    str_eq r (codes "owner") || str_eq r (codes "advisor") || str_eq r (codes "viewer")

-- `CHECK (role IN ('advisor', 'viewer'))`
unfoldable pub is_invite_role : Str → Bool
is_invite_role r = str_eq r (codes "advisor") || str_eq r (codes "viewer")

-- `INSERT INTO team_members … ON CONFLICT (team_id, user_id) DO UPDATE SET role = EXCLUDED.role`
unfoldable pub upsert_member : TeamMember → TeamsDb → Result (Unit {0}) × TeamsDb
upsert_member m d =
    if is_member_role m.role && has_team m.team_id d && has_user m.user_id d
    then if exists (is_member_of m.team_id m.user_id) d.team_members
      then (
        ok tt,
        record d {
          team_members =
              update_where (is_member_of m.team_id m.user_id) (λ old. record old { role = m.role })
                d.team_members;
        },
      )
      else (ok tt, record d { team_members = d.team_members ++ m ∷ [] })
    else (err (from_sqlx other_failure), d)

-- `INSERT INTO team_invites`
unfoldable pub insert_invite : TeamInvite → TeamsDb → Result (Unit {0}) × TeamsDb
insert_invite i d =
    if is_invite_role i.role
    then if exists (has_token i.token) d.team_invites
      then (err (from_sqlx unique_violation), d)
      else if has_team i.team_id d && has_user i.invited_by d
      then (ok tt, record d { team_invites = d.team_invites ++ i ∷ [] })
      else (err (from_sqlx other_failure), d)
    else (err (from_sqlx other_failure), d)

-- `UPDATE team_invites SET redeemed_at = NOW(), redeemed_by = $1 WHERE token = $2`
unfoldable pub redeem : ℕ → ℕ → Str → TeamsDb → Result (Unit {0}) × TeamsDb
redeem now user_id token d = (
  ok tt,
  record d {
    team_invites =
        update_where (has_token token)
          (λ i. record i { redeemed_at = some now; redeemed_by = some user_id }) d.team_invites;
  },
)
