-- ===== src/Teams/Tests.antt =====
-- Teams and invitations on concrete tables.
use mizan_connect.Base.{
  ℕ, ◌<◌, ◌≡◌, ◌≢◌, refl, Str, codes, str_eq, trim, trim_start, is_whitespace, true, false, ◌&&◌,
  ◌==◌, Option, none, some, List, [], ◌∷◌, exists, ◌+◌, update_where,
}
use mizan_connect.Error.{ok}
use mizan_connect.Exec.{World, select, statement, transaction, begin, commit}
use mizan_connect.Teams.Model.{
  Team, TeamMember, User, TeamInvite, owner, from_str, as_str, is_owner,
}
use mizan_connect.Teams.Tables.{
  TeamsDb, has_token, is_invite_role, is_member_role, upsert_member, insert_invite, redeem,
}
use mizan_connect.Teams.Repository.{role_in, role_for, role_or_viewer, list_for_user}
use mizan_connect.Teams.Handlers.{TeamSummary, list_for_me, roster}
use mizan_connect.Teams.Handlers.Access.{roster_members_only}
use mizan_connect.Teams.Invites.{
  InvitesLib, CreateInviteRequest, AcceptInviteResponse, Found, invite_row, invite_response,
  invite_ttl, create_invite, accept_invite, find_open, join_team,
}
use mizan_connect.Teams.Invites.Create.{create_invite_sound}
use mizan_connect.Teams.Invites.Accept.{accept_invite_sound}
use mizan_connect.Teams.Invites.Once.{InvitesAreChecked, accept_invite_once, accept_invite_no_owner}

abbrev lib : InvitesLib
lib = record {
  invalid_email = λ e. none;
  to_lowercase = λ e. e;
  format_rfc3339 = λ t. [];
  app_public_url = none;
  send_invite_email = λ e u. false;
}

abbrev user : User
user = record {
  id = 7;
  supabase_user_id = 70;
  email = codes "o";
  display_name = none;
  avatar_url = none;
  created_at = 1;
  updated_at = 1;
  deleted_at = none;
}

abbrev team : Team
team = record {
  id = 7;
  name = codes "n";
  owner_user_id = 7;
  branding_logo_url = none;
  branding_color = none;
  created_at = 1;
  updated_at = 1;
  deleted_at = none;
}

abbrev member : TeamMember
member = record { team_id = 7; user_id = 7; role = codes "owner"; joined_at = 1 }

-- An owner's invitation to the owner's own address.
abbrev request : CreateInviteRequest
request = record { email = codes "o"; role = codes "viewer" }

abbrev invite : TeamInvite
invite = invite_row lib 2 2 7 7 request (codes "t")

abbrev tables : List TeamInvite → World TeamsDb
tables invites = record {
  db = record {
    users = user ∷ [];
    teams = team ∷ [];
    team_members = member ∷ [];
    team_invites = invites;
  };
  faults = [];
}

created :
    (create_invite lib 2 2 7 7 request (codes "t") (tables [])).0 ≡ ok (invite_response lib invite)
unfolding create_invite role_for role_in from_str is_owner insert_invite is_invite_role str_eq trim
    trim_start is_whitespace select statement
created = refl

create_invite_sound_example :
    (lib.invalid_email (codes "o") ≡ none)
    × (role_in 7 7 (tables []).db ≡ some owner)
    × (is_invite_role (codes "viewer") ≡ true)
    × (exists (has_token (codes "t")) [] ≡ false)
    × ((create_invite lib 2 2 7 7 request (codes "t") (tables [])).1.db ≡ (tables (invite ∷ [])).db)
    × (invite_response lib invite ≡ invite_response lib invite)
create_invite_sound_example =
    create_invite_sound lib 2 2 7 7 request (codes "t") (tables []) (invite_response lib invite)
      created

abbrev answer : AcceptInviteResponse
answer = record { team_id = 7; team_name = codes "n"; role = codes "viewer" }

accepted : (accept_invite lib 3 3 7 (codes "o") (codes "t") (tables (invite ∷ []))).0 ≡ ok answer
unfolding accept_invite find_open join_team upsert_member redeem is_member_role str_eq trim
    trim_start is_whitespace select statement transaction begin commit
accepted = refl

abbrev accepted_world : World TeamsDb
accepted_world = (accept_invite lib 3 3 7 (codes "o") (codes "t") (tables (invite ∷ []))).1

accept_invite_sound_example :
    (i : Found) × (find_open (codes "t") (tables (invite ∷ [])).db ≡ some i)
    × (3 < i.expires_at)
    × (lib.to_lowercase (codes "o") ≡ i.email)
    × (role_in i.team_id 7 accepted_world.db ≡ some (role_or_viewer (from_str i.role)))
    × ((t u : ℕ)
        → (t == i.team_id && u == 7) ≡ false
        → role_in t u accepted_world.db ≡ role_in t u (tables (invite ∷ [])).db)
    × (find_open (codes "t") accepted_world.db ≡ none)
    × (accepted_world.db.team_invites
        ≡ update_where
            (λ j. str_eq j.token (codes "t"))
            (λ j. record j { redeemed_at = some 3; redeemed_by = some 7 })
            (invite ∷ []))
    × (accepted_world.db.teams ≡ team ∷ [])
    × (accepted_world.db.users ≡ user ∷ [])
accept_invite_sound_example =
    accept_invite_sound lib 3 3 7 (codes "o") (codes "t") (tables (invite ∷ [])) answer accepted

accept_invite_once_example :
    (accept_invite lib 4 4 7 (codes "o") (codes "t") accepted_world).0 ≢ ok answer
accept_invite_once_example =
    accept_invite_once lib 3 3 7 4 4 7 (codes "o") (codes "o") (codes "t") (tables (invite ∷ []))
      accepted_world answer answer accepted refl

abbrev found_invite : Found
found_invite = record {
  team_id = 7;
  name = codes "n";
  role = codes "viewer";
  email = invite.email;
  expires_at = 2 + invite_ttl;
}

checked : InvitesAreChecked (tables (invite ∷ [])).db
unfolding is_invite_role str_eq
checked = refl

is_found : find_open (codes "t") (tables (invite ∷ [])).db ≡ some found_invite
unfolding find_open str_eq
is_found = refl

accept_invite_no_owner_example : role_in 7 7 accepted_world.db ≢ some owner
accept_invite_no_owner_example =
    accept_invite_no_owner lib 3 3 7 (codes "o") (codes "t") (tables (invite ∷ [])) answer
      found_invite checked is_found accepted

no_role : role_in 7 8 (tables []).db ≡ none
unfolding role_in
no_role = refl

abbrev no_text : ℕ → Option Str
no_text t = none

roster_members_only_example : (roster no_text 8 7 (tables [])).0 ≢ ok []
roster_members_only_example = roster_members_only no_text 8 7 (tables []) [] no_role

abbrev summary : TeamSummary
summary = record {
  id = 7;
  name = codes "n";
  owner_user_id = 7;
  branding_logo_url = none;
  branding_color = none;
  my_role = some (codes "owner");
  created_at = none;
}

listed : (list_for_me no_text (λ ts. ts) 7 (tables [])).0 ≡ ok (summary ∷ [])
unfolding list_for_me list_for_user role_for role_in from_str as_str str_eq select statement
listed = refl
