-- ===== src/Teams/Handlers/Access.antt =====
-- Who sees what: the roster is for members, and each listed team carries the caller's role.
use mizan_connect.Base.{
  ℕ, ◌≡◌, ◌≢◌, refl, sym, ap, ◌∙◌, subst, Str, true, Option, none, some, List, [], ◌∷◌, exists,
  first, All, All-append, arith, Bool-cases, inl, inr,
}
use mizan_connect.Error.{ok}
use mizan_connect.Exec.{World, pure, lift, ◌>>=◌}
use mizan_connect.Exec.Laws.{select_then, lift_then, bind_ok}
use mizan_connect.Teams.Model.{Team, TeamMember, TeamRole}
use mizan_connect.Teams.Tables.{TeamsDb, is_member_of}
use mizan_connect.Teams.Repository.{
  teams_of, memberships, role_of_row, role_in, role_for, list_for_user, list_members, is_null,
}
use mizan_connect.Teams.Handlers.{
  TeamSummary, TeamMemberDto, role_text, from_team, summaries, list_for_me, require_member,
  with_names, roster,
}

abbrev IsMember : ℕ → TeamsDb → Team → Type 0
IsMember user_id d t = exists (is_member_of t.id user_id) d.team_members ≡ true

memberships_all :
    (P : Team → Type 0) (user_id : ℕ) (t : Team) (ms : List TeamMember)
    → (exists (is_member_of t.id user_id) ms ≡ true → P t)
    → All P (memberships user_id t ms)
memberships_all P user_id t [] holds = tt
memberships_all P user_id t (m ∷ ms) holds =
    let rest = memberships_all P user_id t ms (λ h. holds (ground arith)) in
    elim (Bool-cases (is_member_of t.id user_id m)) [
      | inl e ↦ elim (Bool-cases (is_null t.deleted_at)) [
        | inl n ↦ rw (e, n) (holds (rw e refl), rest)
        | inr n ↦ rw (e, n) rest
      ]
      | inr e ↦ rw e rest
    ]

teams_of_all :
    (user_id : ℕ) (d : TeamsDb) (teams : List Team)
    → All (IsMember user_id d) (teams_of user_id teams d.team_members)
teams_of_all user_id d [] = tt
teams_of_all user_id d (t ∷ teams) =
    All-append (IsMember user_id d) (memberships user_id t d.team_members)
      (teams_of user_id teams d.team_members)
      (memberships_all (IsMember user_id d) user_id t d.team_members (λ h. h))
      (teams_of_all user_id d teams)

role_of_member :
    (user_id team_id : ℕ) (ms : List TeamMember)
    → exists (is_member_of team_id user_id) ms ≡ true
    → role_of_row (first (is_member_of team_id user_id) ms) ≢ none
role_of_member user_id team_id [] h e = cc h
role_of_member user_id team_id (m ∷ ms) h e =
    let rest = role_of_member user_id team_id ms in ground arith

module _ (format : ℕ → Option Str) (user_id : ℕ) where
  -- The roster of a team is for its members: a caller to whom the table of members gives no role
  -- on the team is never answered with a roster.
  pub roster_members_only :
      (team_id : ℕ) (w : World TeamsDb) (answer : List TeamMemberDto)
      → role_in team_id user_id w.db ≡ none
      → (roster format user_id team_id w).0 ≢ ok answer
  unfolding roster role_for
  roster_members_only team_id w answer no_role h =
      let names = λ (ms : List TeamMember). with_names format ms in
      let list = λ (_ : Unit {0}). list_members team_id >>= names in
      let check = λ (role : Option TeamRole). lift (require_member format role) >>= list in
      let (w1, _, _, h1) = select_then (role_in team_id user_id) check w answer h in
      let (_, passed, _, _) =
        lift_then (require_member format (role_in team_id user_id w.db)) list w1 answer h1 in
      let refused : require_member format none ≡ ok tt =
        ap (require_member format) (sym no_role) ∙ passed in
      cc refused

  abbrev pub HasRole : TeamSummary → Type 0
  HasRole s = s.my_role ≢ none

  has_role : (role : Option TeamRole) → role ≢ none → role_text role ≢ none
  has_role none h e = h refl
  has_role (some r) h e = cc e

  role_in_member : (t : Team) (d : TeamsDb) → IsMember user_id d t → role_in t.id user_id d ≢ none
  unfolding role_in
  role_in_member t d h = role_of_member user_id t.id d.team_members h

  summaries_have_roles :
      (d : TeamsDb) (teams : List Team) (w : World TeamsDb) (answer : List TeamSummary)
      → w.db ≡ d
      → All (IsMember user_id d) teams
      → (summaries format user_id teams w).0 ≡ ok answer
      → All HasRole answer
  unfolding role_for
  summaries_have_roles d [] w [] same members h = tt
  summaries_have_roles d [] w (a ∷ answer) same members h = absurd (cc)
  summaries_have_roles d (t ∷ teams) w answer same (member, members) h =
      let cons = λ (role : Option TeamRole).
        λ (rest : List TeamSummary). pure (from_team format t (role_text role) ∷ rest) in
      let tail = λ (role : Option TeamRole). summaries format user_id teams >>= cons role in
      let (w1, s1, _, h1) = select_then (role_in t.id user_id) tail w answer h in
      let (rest, value, e) =
        bind_ok (summaries format user_id teams) (cons (role_in t.id user_id w.db)) w1 answer h1 in
      let is : from_team format t (role_text (role_in t.id user_id w.db)) ∷ rest ≡ answer =
        cc (ap (λ r. r.0) (sym e) ∙ h1) in
      subst (All HasRole) is (
        has_role (role_in t.id user_id w.db)
            (subst (λ x. role_in t.id user_id x ≢ none) (sym same) (role_in_member t d member)),
        summaries_have_roles d teams w1 rest (s1 ∙ same) members value,
      )

  -- Every team that `list_for_me` lists carries a role of the caller: the field that the code keeps
  -- optional is never absent, as long as the database's order lists only rows of the join.
  pub list_for_me-HasRole :
      (order : List Team → List Team) (w : World TeamsDb) (answer : List TeamSummary)
      → ((P : Team → Type 0) (ts : List Team) → All P ts → All P (order ts))
      → (list_for_me format order user_id w).0 ≡ ok answer
      → All HasRole answer
  unfolding list_for_me list_for_user
  list_for_me-HasRole order w answer only h =
      let rows = λ (d : TeamsDb). order (teams_of user_id d.teams d.team_members) in
      let (w1, s1, _, h1) = select_then rows (summaries format user_id) w answer h in
      summaries_have_roles w.db (rows w.db) w1 answer s1
        (only (IsMember user_id w.db) _ (teams_of_all user_id w.db w.db.teams)) h1
