-- ===== src/Auth/Extractor/Row.antt =====
-- auth/upsert.rs: the one row of an identity.
use mizan_connect.Base.{
  ℕ, Str, ◌≡◌, refl, ap, List, [], ◌∷◌, ◌++◌, Option, none, some, true, first, update_where, arith,
  sym, subst,
}
use mizan_connect.Error.{Result, ok}
use mizan_connect.Exec.{World, statement, lift, ◌>>=◌}
use mizan_connect.Exec.Laws.{statement_ok}
use mizan_connect.Teams.Model.{User}
use mizan_connect.Teams.Tables.{TeamsDb}
use mizan_connect.Auth.Token.{email_required, display_name, avatar_url, SupabaseClaims}
use mizan_connect.Auth.Extractor.{
  upsert_user_from_claims, upsert_in, upsert_found, has_sub, merged_row, inserted_row,
  email_required, ok_or, app_error, unauthorized, codes,
}

first_here :
    (sub : ℕ) (rows : List User) (u : User)
    → first (has_sub sub) rows ≡ none
    → has_sub sub u ≡ true
    → first (has_sub sub) (rows ++ u ∷ []) ≡ some u
first_here sub [] u absent h = ground arith
first_here sub (v ∷ rows) u absent h = let ih = first_here sub rows u in ground arith

first_merged :
    (sub now : ℕ) (email : Str) (dn av : Option Str) (rows : List User) (u : User)
    → first (has_sub sub) rows ≡ some u
    → first (has_sub sub) (update_where (has_sub sub) (merged_row now email dn av) rows)
      ≡ some (merged_row now email dn av u)
first_merged sub now email dn av [] u h = absurd (cc)
first_merged sub now email dn av (v ∷ rows) u h =
    let ih = first_merged sub now email dn av rows u in ground arith

first_has :
    (sub : ℕ) (rows : List User) (u : User)
    → first (has_sub sub) rows ≡ some u
    → has_sub sub u ≡ true
first_has sub [] u h = absurd (cc)
first_has sub (v ∷ rows) u h = let ih = first_has sub rows u in ground arith

-- What one upsert leaves.
abbrev Upserted : ℕ → Str → TeamsDb → User → TeamsDb → Type 0
Upserted sub email old u d =
    (u.supabase_user_id ≡ sub)
    × (u.email ≡ email)
    × (u.deleted_at ≡ none)
    × (first (has_sub sub) d.users ≡ some u)
    × ((v : User) → first (has_sub sub) old.users ≡ some v → u.id ≡ v.id)

upsert_in_lem :
    (id now sub : ℕ) (email : Str) (dn av : Option Str) (d : TeamsDb) (u : User)
    → (upsert_in id now sub email dn av d).0 ≡ ok u
    → Upserted sub email d u (upsert_in id now sub email dn av d).1
upsert_in_lem id now sub email dn av d u h = go (first (has_sub sub) d.users) refl h
  where
    go :
        (o : Option User)
        → first (has_sub sub) d.users ≡ o
        → (upsert_found id now sub email dn av d o).0 ≡ ok u
        → Upserted sub email d u (upsert_found id now sub email dn av d o).1
    go none is h =
        let row = inserted_row id now sub email dn av in
        let f : first (has_sub sub) (d.users ++ row ∷ []) ≡ some row =
          first_here sub d.users row is (ground arith) in
        ground arith
    go (some v) is h =
        let m = first_merged sub now email dn av d.users v is in
        let k = first_has sub d.users v is in ground arith

-- The row of the identity, after the statement that returned it, is the row that was returned. It is
-- live, has the identity of the claims and their e-mail address, and keeps the id that the identity
-- had before, if it had one.
pub upsert_user_from_claims_ok :
    (parse_uuid : Str → Option ℕ) (id now : ℕ) (claims : SupabaseClaims) (w : World TeamsDb)
    (u : User)
    → (upsert_user_from_claims parse_uuid id now claims w).0 ≡ ok u
    → (parse_uuid claims.sub ≡ some u.supabase_user_id)
      × (claims.email ≡ some u.email)
      × (u.deleted_at ≡ none)
      × (first
            (has_sub u.supabase_user_id)
            (upsert_user_from_claims parse_uuid id now claims w).1.db.users
          ≡ some u)
      × ((v : User) → first (has_sub u.supabase_user_id) w.db.users ≡ some v → u.id ≡ v.id)
unfolding upsert_user_from_claims email_required
upsert_user_from_claims_ok parse_uuid id now claims w u h =
    go (parse_uuid claims.sub) claims.email h
  where
    run : Option ℕ → Option Str → Result User × World TeamsDb
    run s e =
        (lift (ok_or (app_error unauthorized (codes "token sub is not a valid UUID")) s) >>= λ sub.
        lift (
          ok_or (app_error unauthorized (codes "token missing email claim; cannot link account")) e)
        >>= λ email.
            statement (upsert_in id now sub email (display_name claims) (avatar_url claims)))
          w

    go :
        (s : Option ℕ) (e : Option Str)
        → (run s e).0 ≡ ok u
        → (s ≡ some u.supabase_user_id)
          × (e ≡ some u.email)
          × (u.deleted_at ≡ none)
          × (first (has_sub u.supabase_user_id) (run s e).1.db.users ≡ some u)
          × ((v : User) → first (has_sub u.supabase_user_id) w.db.users ≡ some v → u.id ≡ v.id)
    go none e h = absurd (cc)
    go (some s) none h = absurd (cc)
    go (some s) (some e) h =
        let (done, left) =
          statement_ok (upsert_in id now s e (display_name claims) (avatar_url claims)) w u h in
        let (is_sub, is_email, live, there, same) =
          upsert_in_lem id now s e (display_name claims) (avatar_url claims) w.db u done in
        let run_it = statement (upsert_in id now s e (display_name claims) (avatar_url claims)) w in
        (
          ap some (sym is_sub),
          ap some (sym is_email),
          live,
          subst (λ k. first (has_sub k) run_it.1.db.users ≡ some u) (sym is_sub)
              (subst (λ (d : TeamsDb). first (has_sub s) d.users ≡ some u) (sym left) there),
          subst (λ k. (v : User) → first (has_sub k) w.db.users ≡ some v → u.id ≡ v.id) (sym is_sub)
              same,
        )
