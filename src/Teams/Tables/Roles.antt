-- ===== src/Teams/Tables/Roles.antt =====
-- Who has which role behind an upsert of a membership, and which invitations are open behind a
-- redemption.
use mizan_connect.Base.{
  ℕ, Str, ◌≡◌, refl, true, false, some, List, [], ◌∷◌, ◌++◌, ◌==◌, ◌&&◌, ==_refl, exists, first,
  update_where, arith, Bool-cases, inl, inr,
}
use mizan_connect.Error.{ok}
use mizan_connect.Teams.Model.{TeamMember, from_str}
use mizan_connect.Teams.Tables.{TeamsDb, is_member_of, upsert_member}
use mizan_connect.Teams.Repository.{role_or_viewer, role_of_row, role_in}

abbrev set_role : Str → TeamMember → TeamMember
set_role r m = record m { role = r }

module _ (team_id user_id : ℕ) where
  role_updated :
      (r : Str) (ms : List TeamMember)
      → exists (is_member_of team_id user_id) ms ≡ true
      → role_of_row (
          first
            (is_member_of team_id user_id)
            (update_where (is_member_of team_id user_id) (set_role r) ms))
        ≡ some (role_or_viewer (from_str r))
  role_updated r [] h = absurd (cc)
  role_updated r (m ∷ ms) h = elim (Bool-cases (is_member_of team_id user_id m)) [
    | inl same ↦ rw (same, same) refl
    | inr other ↦ rw (other, other) (role_updated r ms (ground arith))
  ]

  role_appended :
      (m : TeamMember) (ms : List TeamMember)
      → exists (is_member_of team_id user_id) ms ≡ false
      → is_member_of team_id user_id m ≡ true
      → role_of_row (first (is_member_of team_id user_id) (ms ++ m ∷ []))
        ≡ some (role_or_viewer (from_str m.role))
  role_appended m [] h same = rw same refl
  role_appended m (x ∷ ms) h same = elim (Bool-cases (is_member_of team_id user_id x)) [
    | inl e ↦ absurd (ground arith)
    | inr e ↦ rw e (role_appended m ms (ground arith) same)
  ]

  -- Another pair of a team and a user.
  module _ (t u : ℕ) (apart : (t == team_id && u == user_id) ≡ false) where
    not_both : (m : TeamMember) → is_member_of team_id user_id m ≡ true → is_member_of t u m ≡ false
    not_both m h = ground arith

    role_updated_other :
        (r : Str) (ms : List TeamMember)
        → role_of_row
            (first (is_member_of t u) (update_where (is_member_of team_id user_id) (set_role r) ms))
          ≡ role_of_row (first (is_member_of t u) ms)
    role_updated_other r [] = refl
    role_updated_other r (m ∷ ms) = elim (Bool-cases (is_member_of team_id user_id m)) [
      | inl same ↦ rw (same, not_both m same) (role_updated_other r ms)
      | inr other ↦ elim (Bool-cases (is_member_of t u m)) [
        | inl here ↦ rw (other, here) refl
        | inr there ↦ rw (other, there) (role_updated_other r ms)
      ]
    ]

    role_appended_other :
        (m : TeamMember) (ms : List TeamMember)
        → is_member_of team_id user_id m ≡ true
        → role_of_row (first (is_member_of t u) (ms ++ m ∷ []))
          ≡ role_of_row (first (is_member_of t u) ms)
    role_appended_other m [] h = rw (not_both m h) refl
    role_appended_other m (x ∷ ms) h = ground (arith, role_appended_other m ms h)

is_member_self : (m : TeamMember) → is_member_of m.team_id m.user_id m ≡ true
is_member_self m = ground (arith, ==_refl m.team_id, ==_refl m.user_id)

-- The row that a successful upsert leaves for its key.
pub role_in-upsert_member :
    (m : TeamMember) (d : TeamsDb)
    → (upsert_member m d).0 ≡ ok tt
    → role_in m.team_id m.user_id (upsert_member m d).1 ≡ some (role_or_viewer (from_str m.role))
unfolding role_in upsert_member
role_in-upsert_member m d h =
    let updated = role_updated m.team_id m.user_id m.role d.team_members in
    let appended : exists (is_member_of m.team_id m.user_id) d.team_members ≡ false
        → role_of_row (first (is_member_of m.team_id m.user_id) (d.team_members ++ m ∷ []))
          ≡ some (role_or_viewer (from_str m.role)) =
      λ e. role_appended m.team_id m.user_id m d.team_members e (is_member_self m) in
    ground arith

-- It leaves every other key alone, and the other tables.
pub role_in-upsert_member_other :
    (m : TeamMember) (t u : ℕ) (d : TeamsDb)
    → (t == m.team_id && u == m.user_id) ≡ false
    → role_in t u (upsert_member m d).1 ≡ role_in t u d
unfolding role_in upsert_member
role_in-upsert_member_other m t u d apart =
    let updated = role_updated_other m.team_id m.user_id t u apart m.role d.team_members in
    let appended =
      role_appended_other m.team_id m.user_id t u apart m d.team_members (is_member_self m) in
    ground arith

pub upsert_member_tables :
    (m : TeamMember) (d : TeamsDb)
    → ((upsert_member m d).1.team_invites ≡ d.team_invites)
      × ((upsert_member m d).1.teams ≡ d.teams)
      × ((upsert_member m d).1.users ≡ d.users)
unfolding upsert_member
upsert_member_tables m d = ground arith
