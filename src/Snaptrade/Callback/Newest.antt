-- ===== src/Snaptrade/Callback/Newest.antt =====
-- snaptrade/handlers.rs: which authorization the callback picks.
use mizan_connect.Base.{
  ℕ, suc, ◌≤◌, ◌<◌, Str, str_eq_iff, true, false, Option, none, some, List, [], ◌∷◌, ◌++◌, All, ◌≡◌,
  ◌↔◌, inl, inr, refl, sym, ap, arith, Bool-cases, All-map, subst, All-append, Any, ◌≢◌,
  Option-cases,
}
use mizan_connect.Snaptrade.Types.{StAuthorization}
use mizan_connect.Snaptrade.Callback.{
  enumerate_from, time_lt, key_le, time_of, max_by_key, is_other, others, second,
  pick_newest_authorization, greater,
}

after-key_le : (s t : Option ℕ) (i j : ℕ) → key_le (s, i) (t, j) ≡ true → time_lt t s ≡ false
after-key_le s t i j h = ground arith

before-key_le :
    (s t : Option ℕ) (i j : ℕ) → i < j → key_le (s, i) (t, j) ≡ false → time_lt t s ≡ true
before-key_le s t i j lt h = ground arith

time_lt_trans : (r s t : Option ℕ) → time_lt s r ≡ false → time_lt s t ≡ true → time_lt r t ≡ true
time_lt_trans r s t h k = ground arith

time_lt_trans_strict :
    (r s t : Option ℕ) → time_lt r s ≡ true → time_lt s t ≡ true → time_lt r t ≡ true
time_lt_trans_strict r s t h k = ground arith

module _ (parse_rfc3339 : Str → Option ℕ) (existing_id : Option Str) where
  abbrev time : StAuthorization → Option ℕ
  time a = time_of parse_rfc3339 a.created_date

  -- `b` is no candidate, or it is not newer than `a`.
  abbrev pub NotNewer : StAuthorization → StAuthorization → Type 0
  NotNewer a b = is_other parse_rfc3339 existing_id b ≡ true → time_lt (time a) (time b) ≡ false

  -- `b` is no candidate, or it is older than `a`.
  abbrev pub Older : StAuthorization → StAuthorization → Type 0
  Older a b = is_other parse_rfc3339 existing_id b ≡ true → time_lt (time b) (time a) ≡ true

  -- `a` stands in the list, is not the recorded one, and no other candidate is newer; the later
  -- ones are older.
  abbrev pub IsNewest : List StAuthorization → StAuthorization → Type 0
  IsNewest list a =
      (before : List StAuthorization) × (after : List StAuthorization) × (list
        ≡ before ++ a ∷ after)
      × (is_other parse_rfc3339 existing_id a ≡ true)
      × All (NotNewer a) before
      × All (Older a) after

  abbrev found_in : ℕ → List StAuthorization → Option (ℕ × StAuthorization)
  found_in i list =
      max_by_key parse_rfc3339 (others parse_rfc3339 existing_id (enumerate_from i list))

  abbrev Found : ℕ → List StAuthorization → Option (ℕ × StAuthorization) → Type 0
  Found i list none = All (λ b. is_other parse_rfc3339 existing_id b ≡ false) list
  Found i list (some p) = (i ≤ p.0) × IsNewest list p.1

  -- A recorded authorization in front changes nothing.
  Found-skip :
      (i : ℕ) (x : StAuthorization) (xs : List StAuthorization) (r : Option (ℕ × StAuthorization))
      → is_other parse_rfc3339 existing_id x ≡ false
      → Found (suc i) xs r
      → Found i (x ∷ xs) r
  Found-skip i x xs none is_old all = (is_old, all)
  Found-skip i x xs (some p) is_old (le, (before, after, e, o, b, a)) = (
    omega (arith, le),
    (x ∷ before, after, ap (λ l. x ∷ l) e, o, ((λ is_new. absurd (cc)), b), a),
  )

  -- A candidate in front of the best one of the rest.
  Found-greater :
      (i : ℕ) (x : StAuthorization) (xs : List StAuthorization) (r : Option (ℕ × StAuthorization))
      → is_other parse_rfc3339 existing_id x ≡ true
      → Found (suc i) xs r
      → Found i (x ∷ xs) (greater parse_rfc3339 (i, x) r)
  Found-greater i x xs none is_new all =
      (omega arith, ([], xs, refl, is_new, tt, All-map xs (λ b is_old is. absurd (cc)) all))
  Found-greater i x xs (some (j, y)) is_new (le, (before, after, e, o, b, a)) =
      elim (Bool-cases (key_le (time x, i) (time y, j))) [
        | inl later ↦ rw later (
          omega (arith, le),
          (
            x ∷ before,
            after,
            ap (λ l. x ∷ l) e,
            o,
            ((λ _. after-key_le (time x) (time y) i j later), b),
            a,
          ),
        )
        | inr earlier ↦
            let older = before-key_le (time x) (time y) i j (omega (arith, le)) earlier in
            rw earlier (
              omega arith,
              (
                [],
                xs,
                refl,
                is_new,
                tt,
                subst (All (Older x)) (sym e) (
                    All-append (Older x) before (y ∷ after)
                      (All-map before
                        (λ c n is. time_lt_trans (time c) (time y) (time x) (n is) older) b)
                      (
                        (λ _. older),
                        All-map after
                            (λ c n is. time_lt_trans_strict (time c) (time y) (time x) (n is) older)
                            a,
                      )),
              ),
            )
      ]

  found : (i : ℕ) (list : List StAuthorization) → Found i list (found_in i list)
  found i [] = tt
  found i (x ∷ xs) = elim (Bool-cases (is_other parse_rfc3339 existing_id x)) [
    | inl is_new ↦ rw is_new (Found-greater i x xs (found_in (suc i) xs) is_new (found (suc i) xs))
    | inr is_old ↦ rw is_old (Found-skip i x xs (found_in (suc i) xs) is_old (found (suc i) xs))
  ]

  found_second :
      (list : List StAuthorization) (r : Option (ℕ × StAuthorization)) (a : StAuthorization)
      → Found 0 list r
      → second parse_rfc3339 r ≡ some a
      → IsNewest list a
  found_second list none a all h = absurd (cc)
  found_second list (some p) a (le, newest) h = subst (IsNewest list) (cc h) newest

  -- The authorization that the callback picks is the newest of those that the row does not record:
  -- no other one is newer, and those that follow it in SnapTrade's list are older. One without a
  -- readable date is older than one with a date.
  pub pick_newest_authorization-IsNewest :
      (list : List StAuthorization) (a : StAuthorization)
      → pick_newest_authorization parse_rfc3339 list existing_id ≡ some a
      → IsNewest list a
  unfolding pick_newest_authorization
  pick_newest_authorization-IsNewest list a h =
      found_second list (found_in 0 list) a (found 0 list) h

  all_at :
      (P : StAuthorization → Type 0) (before after : List StAuthorization) (a : StAuthorization)
      → All P (before ++ a ∷ after)
      → P a
  all_at P [] after a (p, h) = p
  all_at P (b ∷ before) after a (p, h) = all_at P before after a h

  found_none :
      (list : List StAuthorization) (r : Option (ℕ × StAuthorization))
      → Found 0 list r
      → (second parse_rfc3339 r ≡ none)
        ↔ All (λ b. is_other parse_rfc3339 existing_id b ≡ false) list
  found_none list none all = (λ _. all, λ _. refl)
  found_none list (some p) (le, (before, after, e, o, b, a)) = (
    λ h. absurd (cc),
    λ all.
        let is_old =
          all_at (λ b. is_other parse_rfc3339 existing_id b ≡ false) before after p.1
            (subst (All (λ b. is_other parse_rfc3339 existing_id b ≡ false)) e all) in
        absurd (cc),
  )

  none_picked :
      (list : List StAuthorization)
      → (pick_newest_authorization parse_rfc3339 list existing_id ≡ none)
        ↔ All (λ b. is_other parse_rfc3339 existing_id b ≡ false) list
  unfolding pick_newest_authorization
  none_picked list = found_none list (found_in 0 list) (found 0 list)

is_other_iff :
    (parse_rfc3339 : Str → Option ℕ) (e : Str) (b : StAuthorization)
    → (is_other parse_rfc3339 (some e) b ≡ false) ↔ (b.id ≡ e)
is_other_iff parse_rfc3339 e b = ground (arith, str_eq_iff b.id e)

is_recorded :
    (parse_rfc3339 : Str → Option ℕ) (existing_id : Option Str) (b : StAuthorization)
    → is_other parse_rfc3339 existing_id b ≡ false
    → existing_id ≡ some b.id
is_recorded parse_rfc3339 none b h = absurd (cc)
is_recorded parse_rfc3339 (some e) b h = ap some (sym ((is_other_iff parse_rfc3339 e b).0 h))

no_other :
    (existing_id : Option Str) (list : List StAuthorization)
    → All (λ b. existing_id ≡ some b.id) list
    → Any (λ b. existing_id ≢ some b.id) list
    → ⊥
no_other existing_id [] all h = h
no_other existing_id (b ∷ list) (e, all) (inl n) = n e
no_other existing_id (b ∷ list) (e, all) (inr h) = no_other existing_id list all h

-- Where the list has an authorization that the row does not record, one is picked.
pub pick_newest_authorization-some :
    (parse_rfc3339 : Str → Option ℕ) (existing_id : Option Str) (list : List StAuthorization)
    → Any (λ b. existing_id ≢ some b.id) list
    → (a : StAuthorization) × (pick_newest_authorization parse_rfc3339 list existing_id ≡ some a)
      × IsNewest parse_rfc3339 existing_id list a
pick_newest_authorization-some parse_rfc3339 existing_id list new =
    elim (Option-cases (pick_newest_authorization parse_rfc3339 list existing_id)) [
      | inl e ↦
          let all = (none_picked parse_rfc3339 existing_id list).0 e in
          absurd (
            no_other existing_id list (All-map list (is_recorded parse_rfc3339 existing_id) all)
              new)
      | inr (a, e) ↦ (a, e, pick_newest_authorization-IsNewest parse_rfc3339 existing_id list a e)
    ]

-- A callback for a row that records `e` finds nothing new exactly if every authorization of the
-- list is `e`: one that the user has had before is picked again, and replaces `e` on the row.
pub pick_newest_authorization_replay :
    (parse_rfc3339 : Str → Option ℕ) (e : Str) (list : List StAuthorization)
    → (pick_newest_authorization parse_rfc3339 list (some e) ≡ none) ↔ All (λ b. b.id ≡ e) list
pick_newest_authorization_replay parse_rfc3339 e list =
    let (to, from) = none_picked parse_rfc3339 (some e) list in
    (
      λ h. All-map list (λ b. (is_other_iff parse_rfc3339 e b).0) (to h),
      λ all. from (All-map list (λ b. (is_other_iff parse_rfc3339 e b).1) all),
    )
