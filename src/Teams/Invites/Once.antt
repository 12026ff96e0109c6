-- ===== src/Teams/Invites/Once.antt =====
-- A token is redeemed once, and what the role of an invitation means for an owner.
use mizan_connect.Base.{
  ℕ, Str, codes, str_eq, str_eq_sound, ◌≡◌, ◌≢◌, ap, ◌∙◌, subst, true, ◌||◌, Option, none, some,
  List, [], ◌∷◌, first, every, arith, if◌then◌else◌, Bool-cases, inl, inr,
}
use mizan_connect.Error.{ok}
use mizan_connect.Exec.{World}
use mizan_connect.Teams.Model.{Team, TeamInvite, owner, from_str}
use mizan_connect.Teams.Tables.{TeamsDb, is_invite_role}
use mizan_connect.Teams.Repository.{role_in, role_or_viewer}
use mizan_connect.Teams.Invites.{
  InvitesLib, Found, AcceptInviteResponse, is_open, joined, with_team, find_open, accept_invite,
}
use mizan_connect.Teams.Invites.Accept.{accept_invite_sound, accept_invite_closed}

-- The CHECK of `team_invites` on every row.
abbrev pub InvitesAreChecked : TeamsDb → Type 0
InvitesAreChecked d = every (λ (i : TeamInvite). is_invite_role i.role) d.team_invites ≡ true

role_of_team :
    (i : TeamInvite) (t : Option Team) (f : Found) → with_team i t ≡ some f → i.role ≡ f.role
role_of_team i none f h = absurd (cc)
role_of_team i (some t) f h = ground arith

open_role :
    (token : Str) (teams : List Team) (invites : List TeamInvite) (f : Found)
    → every (λ (i : TeamInvite). is_invite_role i.role) invites ≡ true
    → joined teams (first (is_open token) invites) ≡ some f
    → is_invite_role f.role ≡ true
open_role token teams [] f valid h = absurd (cc)
open_role token teams (i ∷ invites) f valid h = elim (Bool-cases (is_open token i)) [
  | inl e ↦
      subst (λ r. is_invite_role r ≡ true)
        (role_of_team i _ f (
          subst (λ b. joined teams (if b then some i else first (is_open token) invites) ≡ some f) e
            h))
        (ground arith)
  | inr e ↦
      open_role token teams invites f (ground arith) (
        subst (λ b. joined teams (if b then some i else first (is_open token) invites) ≡ some f) e
          h)
]

not_owner : (r : Str) → is_invite_role r ≡ true → role_or_viewer (from_str r) ≢ owner
unfolding is_invite_role from_str str_eq
not_owner r h e = elim (Bool-cases (str_eq r (codes "advisor"))) [
  | inl a ↦
      let e' =
        subst (λ s. role_or_viewer (from_str s) ≡ owner) (str_eq_sound r (codes "advisor") a) e in
      cc e'
  | inr a ↦
      let v : str_eq r (codes "viewer") ≡ true =
        subst (λ b. (b || str_eq r (codes "viewer")) ≡ true) a h in
      let e' =
        subst (λ s. role_or_viewer (from_str s) ≡ owner) (str_eq_sound r (codes "viewer") v) e in
      cc e'
]

module _ (lib : InvitesLib) where
  -- A token is redeemed once. Behind a request that is answered with a response, a request with
  -- the same token, by whomever and whenever, is never answered with a response.
  pub accept_invite_once :
      (now now_utc user_id now' now_utc' user_id' : ℕ) (email email' token : Str)
      (w w' : World TeamsDb) (response response' : AcceptInviteResponse)
      → (accept_invite lib now now_utc user_id email token w).0 ≡ ok response
      → w'.db ≡ (accept_invite lib now now_utc user_id email token w).1.db
      → (accept_invite lib now' now_utc' user_id' email' token w').0 ≢ ok response'
  accept_invite_once now now_utc user_id now' now_utc' user_id' email email' token w w' response
        response' h same =
      let (i, _, _, _, _, _, closed, _, _, _) =
        accept_invite_sound lib now now_utc user_id email token w response h in
      accept_invite_closed lib now' now_utc' user_id' email' token w' response'
        (ap (find_open token) same ∙ closed)

  -- To accept an invitation is to lose ownership. If the roles of the invitations satisfy the
  -- CHECK of their table and `accept_invite` answers with a response, then the caller is not an
  -- owner of the invitation's team behind it, although the caller may have been one before.
  pub accept_invite_no_owner :
      (now now_utc user_id : ℕ) (email token : Str) (w : World TeamsDb)
      (response : AcceptInviteResponse) (i : Found)
      → InvitesAreChecked w.db
      → find_open token w.db ≡ some i
      → (accept_invite lib now now_utc user_id email token w).0 ≡ ok response
      → role_in i.team_id user_id (accept_invite lib now now_utc user_id email token w).1.db
        ≢ some owner
  unfolding find_open
  accept_invite_no_owner now now_utc user_id email token w response i valid is_found h demoted =
      let (j, found_j, _, _, role, _, _, _, _, _) =
        accept_invite_sound lib now now_utc user_id email token w response h in
      let same : j ≡ i = cc (found_j, is_found) in
      not_owner i.role (open_role token w.db.teams w.db.team_invites i valid is_found)
        (cc (role, same, demoted))
