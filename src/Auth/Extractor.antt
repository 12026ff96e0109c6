-- ===== src/Auth/Extractor.antt =====
-- auth/extractor.rs and auth/upsert.rs: from the header of a request to the row of its user.
-- `uuid::Uuid::parse_str` is a parameter; the row's id and the clock of the database are arguments.
pub mod Row
use mizan_connect.Base.{
  ℕ, Str, codes, trim, strip_prefix, is_empty, Bool, true, false, Option, none, some, List, [], ◌∷◌,
  ◌++◌, ◌==◌, first, exists, update_where, if◌then◌else◌,
}
use mizan_connect.Error.{
  AppError, app_error, unauthorized, unique_violation, from_sqlx, Result, ok, err, ok_or,
}
use mizan_connect.Exec.{World, Action, statement, lift, ◌>>=◌}
use mizan_connect.Teams.Model.{User}
use mizan_connect.Teams.Tables.{TeamsDb}
use mizan_connect.Config.Load.{Config}
use mizan_connect.Auth.Jwks.{KeyLib, CacheState, Fetched}
use mizan_connect.Auth.Token.{
  SupabaseClaims, TokenLib, email_required, display_name, avatar_url, verify_token,
}

abbrev token_of : Option Str → Result Str
token_of none = err (app_error unauthorized (codes "expected Bearer token"))
token_of (some bearer) =
    if is_empty (trim bearer)
    then err (app_error unauthorized (codes "empty bearer token"))
    else ok (trim bearer)

abbrev or_lower : Option Str → Option Str → Option Str
or_lower none b = b
or_lower (some a) b = some a

unfoldable pub parse_bearer : Str → Result Str
parse_bearer value = token_of (
    or_lower (strip_prefix (codes "Bearer ") (trim value))
      (strip_prefix (codes "bearer ") (trim value)))

-- The header, if the request has one, and its text, if it is one.
abbrev pub header_text : Option (Option Str) → Result Str
header_text none = err (app_error unauthorized (codes "missing Authorization header"))
header_text (some none) =
    err (app_error unauthorized (codes "Authorization header is not valid UTF-8"))
header_text (some (some value)) = ok value

abbrev pub has_sub : ℕ → User → Bool
has_sub supabase_user_id u = u.supabase_user_id == supabase_user_id

-- `COALESCE(EXCLUDED.column, users.column)`
abbrev coalesce : Option Str → Option Str → Option Str
coalesce none column = column
coalesce (some s) column = some s

abbrev pub inserted_row : ℕ → ℕ → ℕ → Str → Option Str → Option Str → User
inserted_row id now supabase_user_id email display_name avatar_url = record {
  id = id;
  supabase_user_id = supabase_user_id;
  email = email;
  display_name = display_name;
  avatar_url = avatar_url;
  created_at = now;
  updated_at = now;
  deleted_at = none;
}

abbrev pub merged_row : ℕ → Str → Option Str → Option Str → User → User
merged_row now email display_name avatar_url u = record u {
  email = email;
  display_name = coalesce display_name u.display_name;
  avatar_url = coalesce avatar_url u.avatar_url;
  updated_at = now;
  deleted_at = none;
}

abbrev id_taken : ℕ → List User → Bool
id_taken id rows = exists (λ u. u.id == id) rows

-- `INSERT … ON CONFLICT (supabase_user_id) DO UPDATE … RETURNING`
abbrev pub upsert_found :
    ℕ → ℕ → ℕ → Str → Option Str → Option Str → TeamsDb → Option User → Result User × TeamsDb
upsert_found id now sub email display_name avatar_url d none =
    if id_taken id d.users then (err (from_sqlx unique_violation), d) else (
      ok (inserted_row id now sub email display_name avatar_url),
      record d { users = d.users ++ inserted_row id now sub email display_name avatar_url ∷ [] },
    )
upsert_found id now sub email display_name avatar_url d (some u) = (
  ok (merged_row now email display_name avatar_url u),
  record d {
    users = update_where (has_sub sub) (merged_row now email display_name avatar_url) d.users;
  },
)

abbrev pub upsert_in : ℕ → ℕ → ℕ → Str → Option Str → Option Str → TeamsDb → Result User × TeamsDb
upsert_in id now sub email display_name avatar_url d =
    upsert_found id now sub email display_name avatar_url d (first (has_sub sub) d.users)

unfoldable pub upsert_user_from_claims :
    (Str → Option ℕ) → ℕ → ℕ → SupabaseClaims → Action TeamsDb User
unfolding email_required display_name avatar_url
upsert_user_from_claims parse_uuid id now claims = do
  sub ← lift (
      ok_or (app_error unauthorized (codes "token sub is not a valid UUID"))
        (parse_uuid claims.sub))
  email ← lift (email_required claims)
  statement (upsert_in id now sub email (display_name claims) (avatar_url claims))

module _ (jwt : TokenLib) (lib : KeyLib) (parse_uuid : Str → Option ℕ) (config : Config)
    (seconds : ℕ) (answer : Fetched) (id now : ℕ) where
  abbrev by_claims :
      Result SupabaseClaims × CacheState
      → World TeamsDb
      → Result User × (CacheState × World TeamsDb)
  by_claims (err e, s) w = (err e, (s, w))
  by_claims (ok claims, s) w =
      let (user, w') = upsert_user_from_claims parse_uuid id now claims w in (user, (s, w'))

  abbrev by_token :
      Result Str → CacheState → World TeamsDb → Result User × (CacheState × World TeamsDb)
  by_token (err e) s w = (err e, (s, w))
  by_token (ok token) s w = by_claims (verify_token jwt lib config seconds answer token s) w

  abbrev by_header :
      Result Str → CacheState → World TeamsDb → Result User × (CacheState × World TeamsDb)
  by_header (err e) s w = (err e, (s, w))
  by_header (ok value) s w = by_token (parse_bearer value) s w

  unfoldable pub from_request_parts :
      Option (Option Str) → CacheState → World TeamsDb → Result User × (CacheState × World TeamsDb)
  unfolding parse_bearer upsert_user_from_claims verify_token
  from_request_parts authorization s w = by_header (header_text authorization) s w
