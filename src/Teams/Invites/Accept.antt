-- ===== src/Teams/Invites/Accept.antt =====
-- What a successful `accept_invite` has checked and written.
use mizan_connect.Base.{
  ℕ, ◌<◌, Str, str_eq_sound, ◌≡◌, ◌≢◌, refl, ap, ◌∙◌, subst, false, ◌&&◌, Option, none, some, List,
  [], ◌∷◌, ◌==◌, first, update_where, arith, Bool-cases, inl, inr, str_eq,
}
use mizan_connect.Error.{ok}
use mizan_connect.Exec.{World, pure, lift, select, statement, begin, commit, ◌>>=◌, Action}
use mizan_connect.Exec.Laws.{
  select_then, lift_then, statement_then, transaction_ok, commit_db, bind_ok,
}
use mizan_connect.Teams.Model.{TeamInvite, from_str}
use mizan_connect.Teams.Tables.{TeamsDb, has_token, upsert_member, redeem}
use mizan_connect.Teams.Tables.Roles.{
  role_in-upsert_member, role_in-upsert_member_other, upsert_member_tables,
}
use mizan_connect.Teams.Repository.{role_in, role_or_viewer}
use mizan_connect.Teams.Invites.{
  InvitesLib, Found, AcceptInviteResponse, is_open, joined, find_open, found, not_expired,
  same_email, member_row, join_team, accept_invite,
}

-- A redeemed token opens nothing.
none_open :
    (now user_id : ℕ) (token : Str) (invites : List TeamInvite)
    → first (is_open token) (
        update_where
          (has_token token)
          (λ i. record i { redeemed_at = some now; redeemed_by = some user_id })
          invites)
      ≡ none
none_open now user_id token [] = refl
none_open now user_id token (i ∷ invites) = elim (Bool-cases (has_token token i)) [
  | inl same ↦ rw (same, same) (none_open now user_id token invites)
  | inr other ↦ rw (other, other) (none_open now user_id token invites)
]

find_open-redeem :
    (now user_id : ℕ) (token : Str) (d : TeamsDb)
    → find_open token (redeem now user_id token d).1 ≡ none
unfolding find_open redeem
find_open-redeem now user_id token d =
    ap (joined d.teams) (none_open now user_id token d.team_invites)

-- The two writes of the transaction, one after the other.
abbrev pub after_join : ℕ → ℕ → Str → Found → TeamsDb → TeamsDb
after_join now user_id token i d =
    (redeem now user_id token (upsert_member (member_row now user_id i) d).1).1

join_team_ok :
    (now user_id : ℕ) (token : Str) (i : Found) (w : World TeamsDb)
    → (join_team now user_id token i w).0 ≡ ok tt
    → ((upsert_member (member_row now user_id i) w.db).0 ≡ ok tt)
      × ((join_team now user_id token i w).1.db ≡ after_join now user_id token i w.db)
unfolding join_team begin
join_team_ok now user_id token i w h =
    let mark =
      λ (_ : Unit {0}). statement (redeem now user_id token) >>= λ (_ : Unit {0}). commit in
    let add = λ (_ : Unit {0}). statement (upsert_member (member_row now user_id i)) >>= mark in
    let (inner, same) = transaction_ok (select (λ _. tt) >>= add) w tt h in
    let (w1, begun, e1, h1) = select_then (λ _. tt) add w tt inner in
    let (_, w2, added, t2, e2, h2) =
      statement_then (upsert_member (member_row now user_id i)) mark w1 tt h1 in
    let (_, w3, marked, t3, e3, h3) =
      statement_then (redeem now user_id token) (λ (_ : Unit {0}). commit) w2 tt h2 in
    (
      subst (λ d. (upsert_member (member_row now user_id i) d).0 ≡ ok tt) begun added,
      ap (λ r. r.1.db) (same ∙ e1 ∙ e2 ∙ e3)
          ∙ commit_db w3
          ∙ t3
          ∙ ap (λ d. (redeem now user_id token d).1) t2
          ∙ ap (after_join now user_id token i) begun,
    )

module _ (lib : InvitesLib) where
  found-some : (row : Option Found) (i : Found) → found lib row ≡ ok i → row ≡ some i
  found-some none i h = absurd (cc)
  found-some (some j) i h = ap some (cc h)

  open_until : (expires_at now : ℕ) → not_expired lib expires_at now ≡ ok tt → now < expires_at
  open_until expires_at now h = ground arith

  email_matches :
      (mine theirs : Str) → same_email lib mine theirs ≡ ok tt → lib.to_lowercase mine ≡ theirs
  email_matches mine theirs h =
      let sound = str_eq_sound (lib.to_lowercase mine) theirs in ground arith

  module _ (now now_utc user_id : ℕ) (user_email token : Str) where
    abbrev accept : Action TeamsDb AcceptInviteResponse
    accept = accept_invite lib now now_utc user_id user_email token

    accept_invite_found :
        (w : World TeamsDb) (response : AcceptInviteResponse)
        → (accept w).0 ≡ ok response
        → (i : Found) × (find_open token w.db ≡ some i)
          × (now_utc < i.expires_at)
          × (lib.to_lowercase user_email ≡ i.email)
          × ((upsert_member (member_row now user_id i) w.db).0 ≡ ok tt)
          × ((accept w).1.db ≡ after_join now user_id token i w.db)
    unfolding accept_invite
    accept_invite_found w response h =
        let answer = λ (i : Found). λ (_ : Unit {0}).
          pure (record { team_id = i.team_id; team_name = i.name; role = i.role }) in
        let join = λ (i : Found). λ (_ : Unit {0}). join_team now user_id token i >>= answer i in
        let check_email =
          λ (i : Found). λ (_ : Unit {0}). lift (same_email lib user_email i.email) >>= join i in
        let check_time =
          λ (i : Found). lift (not_expired lib i.expires_at now_utc) >>= check_email i in
        let check_row = λ (row : Option Found). lift (found lib row) >>= check_time in
        let (w1, same, e1, h1) = select_then (find_open token) check_row w response h in
        let (i, is_found, e2, h2) =
          lift_then (found lib (find_open token w.db)) check_time w1 response h1 in
        let (_, in_time, e3, h3) =
          lift_then (not_expired lib i.expires_at now_utc) (check_email i) w1 response h2 in
        let (_, matches, e4, h4) =
          lift_then (same_email lib user_email i.email) (join i) w1 response h3 in
        let (_, joined, e5) = bind_ok (join_team now user_id token i) (answer i) w1 response h4 in
        let (added, after) = join_team_ok now user_id token i w1 joined in
        (
          i,
          found-some (find_open token w.db) i is_found,
          open_until i.expires_at now_utc in_time,
          email_matches user_email i.email matches,
          subst (λ d. (upsert_member (member_row now user_id i) d).0 ≡ ok tt) same added,
          ap (λ r. r.1.db) (e1 ∙ e2 ∙ e3 ∙ e4 ∙ e5)
              ∙ after
              ∙ ap (after_join now user_id token i) same,
        )

    -- A member joins by an open invitation to the member's own address. If `accept_invite` answers
    -- with a response, then the token names an invitation that is not redeemed and not expired by
    -- the clock of the process, and the caller's address in lower case is the invitation's. Behind
    -- it the caller has the invitation's role on its team, every other pair of a team and a user
    -- has the role it had, the token names no open invitation any more, the invitations of the token
    -- are redeemed by the caller and every other invitation is as before, and so are the tables of
    -- teams and users.
    pub accept_invite_sound :
        (w : World TeamsDb) (response : AcceptInviteResponse)
        → (accept w).0 ≡ ok response
        → (i : Found) × (find_open token w.db ≡ some i)
          × (now_utc < i.expires_at)
          × (lib.to_lowercase user_email ≡ i.email)
          × (role_in i.team_id user_id (accept w).1.db ≡ some (role_or_viewer (from_str i.role)))
          × ((t u : ℕ)
              → (t == i.team_id && u == user_id) ≡ false
              → role_in t u (accept w).1.db ≡ role_in t u w.db)
          × (find_open token (accept w).1.db ≡ none)
          × ((accept w).1.db.team_invites
              ≡ update_where
                  (λ j. str_eq j.token token)
                  (λ j. record j { redeemed_at = some now; redeemed_by = some user_id })
                  w.db.team_invites)
          × ((accept w).1.db.teams ≡ w.db.teams)
          × ((accept w).1.db.users ≡ w.db.users)
    unfolding redeem role_in
    accept_invite_sound w response h =
        let (i, is_found, in_time, matches, added, after) = accept_invite_found w response h in
        let m = member_row now user_id i in
        let (invites, teams, users) = upsert_member_tables m w.db in
        (
          i,
          is_found,
          in_time,
          matches,
          ap (role_in i.team_id user_id) after ∙ role_in-upsert_member m w.db added,
          λ t u apart. ap (role_in t u) after ∙ role_in-upsert_member_other m t u w.db apart,
          ap (find_open token) after ∙ find_open-redeem now user_id token (upsert_member m w.db).1,
          ap (λ d. d.team_invites) after
              ∙ ap
                  (update_where (has_token token)
                    (λ j. record j { redeemed_at = some now; redeemed_by = some user_id }))
                  invites,
          ap (λ d. d.teams) after ∙ teams,
          ap (λ d. d.users) after ∙ users,
        )

    pub accept_invite_closed :
        (w : World TeamsDb) (response : AcceptInviteResponse)
        → find_open token w.db ≡ none
        → (accept w).0 ≢ ok response
    accept_invite_closed w response closed h =
        let (i, is_found, _, _, _, _) = accept_invite_found w response h in cc (closed, is_found)
