-- ===== src/Teams/Invites/Create.antt =====
-- What a successful `create_invite` has checked and written.
use mizan_connect.Base.{
  ℕ, Str, ◌≡◌, refl, ap, ◌∙◌, subst, true, false, Option, none, some, [], ◌∷◌, ◌++◌, exists, arith,
}
use mizan_connect.Error.{ok}
use mizan_connect.Exec.{World, pure, lift, statement, ◌>>=◌}
use mizan_connect.Exec.Laws.{select_then, lift_then, statement_then}
use mizan_connect.Teams.Model.{TeamInvite, TeamRole, owner, is_owner}
use mizan_connect.Teams.Tables.{TeamsDb, has_token, is_invite_role, insert_invite}
use mizan_connect.Teams.Repository.{role_in, role_for}
use mizan_connect.Teams.Invites.{
  InvitesLib, CreateInviteRequest, InviteResponse, validate, require_owner, require_invite_role,
  invite_row, invite_response, create_invite, validated,
}

insert_invite_ok :
    (i : TeamInvite) (d : TeamsDb)
    → (insert_invite i d).0 ≡ ok tt
    → (is_invite_role i.role ≡ true)
      × (exists (has_token i.token) d.team_invites ≡ false)
      × ((insert_invite i d).1 ≡ record d { team_invites = d.team_invites ++ i ∷ [] })
unfolding insert_invite
insert_invite_ok i d h = ground arith

module _ (lib : InvitesLib) (now now_utc user_id team_id : ℕ) (req : CreateInviteRequest)
    (token : Str) where
  owner_only : (role : Option TeamRole) → require_owner lib role ≡ ok tt → role ≡ some owner
  unfolding is_owner
  owner_only none h = absurd (cc)
  owner_only (some r) h = ground arith

  address : (invalid : Option Str) → validated lib invalid ≡ ok tt → invalid ≡ none
  address none h = refl
  address (some e) h = absurd (cc)

  abbrev row : TeamInvite
  row = invite_row lib now now_utc user_id team_id req token

  -- An invitation is issued by an owner only. If `create_invite` answers with a response, then the
  -- address is valid, the members' table gives the caller the role `owner` on the team, the role
  -- on offer is `advisor` or `viewer`, no invitation had the token, and the tables are the old ones
  -- with one more invitation: of this role, for this address trimmed and in lower case, not
  -- redeemed, and open for seven days. The response repeats that row.
  pub create_invite_sound :
      (w : World TeamsDb) (response : InviteResponse)
      → (create_invite lib now now_utc user_id team_id req token w).0 ≡ ok response
      → (lib.invalid_email req.email ≡ none)
        × (role_in team_id user_id w.db ≡ some owner)
        × (is_invite_role req.role ≡ true)
        × (exists (has_token token) w.db.team_invites ≡ false)
        × ((create_invite lib now now_utc user_id team_id req token w).1.db
            ≡ record w.db { team_invites = w.db.team_invites ++ row ∷ [] })
        × (response ≡ invite_response lib row)
  unfolding create_invite role_for
  create_invite_sound w response h =
      let answer = λ (_ : Unit {0}). pure (invite_response lib row) in
      let insert = λ (_ : Unit {0}). statement (insert_invite row) >>= answer in
      let check_role = λ (_ : Unit {0}). lift (require_invite_role lib req.role) >>= insert in
      let check_owner = λ (role : Option TeamRole). lift (require_owner lib role) >>= check_role in
      let look = λ (_ : Unit {0}). role_for team_id user_id >>= check_owner in
      let (_, valid, e1, h1) = lift_then (validate lib req) look w response h in
      let (w2, same, e2, h2) = select_then (role_in team_id user_id) check_owner w response h1 in
      let (_, owns, e3, h3) =
        lift_then (require_owner lib (role_in team_id user_id w.db)) check_role w2 response h2 in
      let (_, is_role, e4, h4) =
        lift_then (require_invite_role lib req.role) insert w2 response h3 in
      let (_, w5, inserted, tables, e5, h5) =
        statement_then (insert_invite row) answer w2 response h4 in
      let (role, new, after) = insert_invite_ok row w2.db inserted in
      (
        address (lib.invalid_email req.email) valid,
        owner_only (role_in team_id user_id w.db) owns,
        role,
        subst (λ d. exists (has_token token) d.team_invites ≡ false) same new,
        ap (λ r. r.1.db) (e1 ∙ e2 ∙ e3 ∙ e4 ∙ e5) ∙ tables ∙ after ∙ rw same refl,
        cc h5,
      )
