-- ===== src/Teams/Invites.antt =====
-- teams/invites.rs: an owner invites an address, and its holder joins the team.
-- `validator`, the UUIDs behind a token, Unicode lower case and the e-mail service are the fields
-- of an `InvitesLib`, the format RFC 3339 among them. `now` is NOW() of the database and `now_utc`
-- the clock of the process. The JSON of a response is its record.
pub mod Create
pub mod Accept
pub mod Once
use mizan_connect.Base.{
  ℕ, ◌+◌, ◌*◌, Str, codes, str_eq, trim, Bool, true, false, not, ◌&&◌, Option, none, some, List, [],
  ◌∷◌, ◌++◌, ◌==◌, leb, first, if◌then◌else◌,
}
use mizan_connect.Error.{
  app_error, unprocessable_entity, forbidden, bad_request, not_found, Result, ok, err, ok_or,
}
use mizan_connect.Exec.{
  Action, pure, raise, lift, select, statement, transaction, begin, commit, ◌>>=◌, ◌>>◌,
}
use mizan_connect.Teams.Model.{Team, TeamMember, TeamInvite, TeamRole, is_owner}
use mizan_connect.Teams.Tables.{TeamsDb, has_token, upsert_member, insert_invite, redeem}
use mizan_connect.Teams.Repository.{role_for}

-- `INVITE_TTL_DAYS` days in nanoseconds.
abbrev pub invite_ttl : ℕ
invite_ttl = 7 * 86400 * 1000000000

pub record CreateInviteRequest : Type 0 where
  pub email : Str
  pub role : Str

pub record InviteResponse : Type 0 where
  pub token : Str
  pub team_id : ℕ
  pub email : Str
  pub role : Str
  pub expires_at : Str
  pub redeem_url : Str
  pub emailed : Bool

pub record InviteInfoResponse : Type 0 where
  pub team_id : ℕ
  pub team_name : Str
  pub role : Str
  pub email : Str
  pub expires_at : Str

pub record AcceptInviteResponse : Type 0 where
  pub team_id : ℕ
  pub team_name : Str
  pub role : Str

pub record InvitesLib : Type 0 where
  -- The message of the address's validation, if it fails.
  pub invalid_email : Str → Option Str
  pub to_lowercase : Str → Str
  pub format_rfc3339 : ℕ → Str
  -- `APP_PUBLIC_URL`, if it is set.
  pub app_public_url : Option Str
  -- Whether the service took the message to this address with this URL.
  pub send_invite_email : Str → Str → Bool

-- A row of the two queries on `team_invites`.
pub record Found : Type 0 where
  pub team_id : ℕ
  pub name : Str
  pub role : Str
  pub email : Str
  pub expires_at : ℕ

abbrev pub is_open : Str → TeamInvite → Bool
is_open token i = has_token token i && elim i.redeemed_at [ none ↦ true | some t ↦ false ]

abbrev pub with_team : TeamInvite → Option Team → Option Found
with_team i none = none
with_team i (some t) = some (record {
  team_id = i.team_id;
  name = t.name;
  role = i.role;
  email = i.email;
  expires_at = i.expires_at;
})

abbrev pub joined : List Team → Option TeamInvite → Option Found
joined teams none = none
joined teams (some i) = with_team i (first (λ t. t.id == i.team_id) teams)

-- The invitation of this token that is not redeemed, with its team. Tokens and teams are keys.
unfoldable pub find_open : Str → TeamsDb → Option Found
find_open token d = joined d.teams (first (is_open token) d.team_invites)

-- `generate_token`, from the text of two UUIDs.
abbrev pub generate_token : Str → Str → Str
generate_token a b = a ++ b

-- `env::var(…).unwrap_or_else(…)`
abbrev url_base : Option Str → Str
url_base none = codes "https://app.mizan.app"
url_base (some u) = u

abbrev pub member_row : ℕ → ℕ → Found → TeamMember
member_row now user_id i = record {
  team_id = i.team_id;
  user_id = user_id;
  role = i.role;
  joined_at = now;
}

-- The transaction.
unfoldable pub join_team : ℕ → ℕ → Str → Found → Action TeamsDb (Unit {0})
join_team now user_id token i = transaction do
  begin
  statement (upsert_member (member_row now user_id i))
  statement (redeem now user_id token)
  commit

module _ (lib : InvitesLib) where
  abbrev redeem_url : Str → Str
  redeem_url token = url_base lib.app_public_url ++ codes "/auth/callback?invite=" ++ token

  abbrev pub validated : Option Str → Result (Unit {0})
  validated none = ok tt
  validated (some e) = err (app_error unprocessable_entity (codes "validation failed: " ++ e))

  abbrev validate : CreateInviteRequest → Result (Unit {0})
  validate req = validated (lib.invalid_email req.email)

  abbrev require_owner : Option TeamRole → Result (Unit {0})
  require_owner (some r) =
      if is_owner r
      then ok tt
      else err (app_error forbidden (codes "Only the team owner can issue invites."))
  require_owner none = err (app_error forbidden (codes "You are not a member of this team."))

  abbrev require_invite_role : Str → Result (Unit {0})
  require_invite_role role =
      if not (str_eq role (codes "advisor")) && not (str_eq role (codes "viewer"))
      then err (app_error bad_request (codes "role must be 'advisor' or 'viewer'."))
      else ok tt

  -- The row of the INSERT.
  abbrev pub invite_row : ℕ → ℕ → ℕ → ℕ → CreateInviteRequest → Str → TeamInvite
  invite_row now now_utc user_id team_id req token = record {
    token = token;
    team_id = team_id;
    invited_by = user_id;
    email = lib.to_lowercase (trim req.email);
    role = req.role;
    redeemed_at = none;
    redeemed_by = none;
    created_at = now;
    expires_at = now_utc + invite_ttl;
  }

  abbrev pub invite_response : TeamInvite → InviteResponse
  invite_response i = record {
    token = i.token;
    team_id = i.team_id;
    email = i.email;
    role = i.role;
    expires_at = lib.format_rfc3339 i.expires_at;
    redeem_url = redeem_url i.token;
    emailed = lib.send_invite_email i.email (redeem_url i.token);
  }

  unfoldable pub create_invite :
      ℕ → ℕ → ℕ → ℕ → CreateInviteRequest → Str → Action TeamsDb InviteResponse
  create_invite now now_utc user_id team_id req token = do
    lift (validate req)
    role ← role_for team_id user_id
    lift (require_owner role)
    lift (require_invite_role req.role)
    statement (insert_invite (invite_row now now_utc user_id team_id req token))
    pure (invite_response (invite_row now now_utc user_id team_id req token))

  abbrev not_expired : ℕ → ℕ → Result (Unit {0})
  not_expired expires_at now =
      if leb expires_at now then err (app_error not_found (codes "Invite expired.")) else ok tt

  abbrev found : Option Found → Result Found
  found row = ok_or (app_error not_found (codes "Invite not found or already redeemed.")) row

  abbrev invite_info : Found → InviteInfoResponse
  invite_info row = record {
    team_id = row.team_id;
    team_name = row.name;
    role = row.role;
    email = row.email;
    expires_at = lib.format_rfc3339 row.expires_at;
  }

  unfoldable pub get_invite : ℕ → Str → Action TeamsDb InviteInfoResponse
  get_invite now token = do
    row ← select (find_open token)
    i ← lift (found row)
    lift (not_expired i.expires_at now)
    pure (invite_info i)

  abbrev same_email : Str → Str → Result (Unit {0})
  same_email user_email email =
      if str_eq (lib.to_lowercase user_email) email
      then ok tt
      else err (app_error forbidden (codes "This invite was issued to a different email address."))

  unfoldable pub accept_invite : ℕ → ℕ → ℕ → Str → Str → Action TeamsDb AcceptInviteResponse
  accept_invite now now_utc user_id user_email token = do
    row ← select (find_open token)
    i ← lift (found row)
    lift (not_expired i.expires_at now_utc)
    lift (same_email user_email i.email)
    join_team now user_id token i
    pure (record { team_id = i.team_id; team_name = i.name; role = i.role })
