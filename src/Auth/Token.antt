-- ===== src/Auth/Token.antt =====
-- auth/supabase_jwt.rs: the verification of a Supabase session token. `jsonwebtoken` is a
-- `TokenLib`; the instant of the check is an argument, in seconds.
pub mod Sound
use mizan_connect.Base.{
  ℕ, Str, codes, trim, is_empty, Bool, true, false, not, Option, none, some, List, [], ◌∷◌,
  if◌then◌else◌,
}
use mizan_connect.Error.{AppError, app_error, unauthorized, Result, ok, err, ok_or}
use mizan_connect.Json.{Value, get, as_text}
use mizan_connect.Config.{is_production}
use mizan_connect.Config.Load.{Config, supabase_jwt_issuer}
use mizan_connect.Auth.Jwks.{
  Algorithm, hs256, DecodingKey, from_secret, KeyLib, JwkEntry, CacheState, Fetched, find_key,
}

-- JWT_LEEWAY_SECONDS
abbrev pub jwt_leeway_seconds : ℕ
jwt_leeway_seconds = 60

pub record SupabaseClaims : Type 0 where
  pub sub : Str
  pub email : Option Str
  pub iss : Str
  pub aud : Str
  pub exp : ℕ
  pub user_metadata : Value
  pub app_metadata : Value
  pub role : Option Str

pub record Header : Type 0 where
  pub alg : Algorithm
  pub kid : Option Str

-- The fields of `jsonwebtoken::Validation` that the code sets.
pub record Validation : Type 0 where
  pub algorithm : Algorithm
  pub issuers : List Str
  pub audience : List Str
  pub leeway : ℕ
  pub validate_exp : Bool
  pub validate_nbf : Bool

pub record TokenLib : Type 0 where
  pub decode_header : Str → Option Header
  pub decode : DecodingKey → Validation → ℕ → Str → Option SupabaseClaims

abbrev or_value : Option Value → Option Value → Option Value
or_value none b = b
or_value (some a) b = some a

abbrev text_of : Option Value → Option Str
text_of none = none
text_of (some v) = as_text v

unfoldable pub display_name : SupabaseClaims → Option Str
unfolding get
display_name c = text_of (
    or_value
      (or_value (get c.user_metadata (codes "display_name"))
        (get c.user_metadata (codes "full_name")))
      (get c.user_metadata (codes "name")))

unfoldable pub avatar_url : SupabaseClaims → Option Str
unfolding get
avatar_url c =
    text_of
      (or_value (get c.user_metadata (codes "avatar_url")) (get c.user_metadata (codes "picture")))

unfoldable pub email_required : SupabaseClaims → Result Str
email_required c =
    ok_or (app_error unauthorized (codes "token missing email claim; cannot link account")) c.email

unfoldable pub build_validation : Config → Algorithm → Validation
build_validation config algorithm = record {
  algorithm = algorithm;
  issuers = supabase_jwt_issuer config ∷ [];
  audience = config.supabase_jwt_audience ∷ [];
  leeway = jwt_leeway_seconds;
  validate_exp = true;
  validate_nbf = true;
}

-- The issuers of a test token.
abbrev pub test_validation : Config → Validation
test_validation config = record (build_validation config hs256) {
  issuers = supabase_jwt_issuer config ∷ codes "mizan-test" ∷ [];
}

abbrev is_hs256 : Algorithm → Bool
is_hs256 hs256 = true
is_hs256 _ = false

module _ (jwt : TokenLib) (lib : KeyLib) (config : Config) (now : ℕ) (answer : Fetched) where
  abbrev with_entry : Str → Result JwkEntry × CacheState → Result SupabaseClaims × CacheState
  with_entry token (err e, s) = (err e, s)
  with_entry token (ok entry, s) = (
    ok_or (app_error unauthorized (codes "invalid token"))
        (jwt.decode entry.decoding_key (build_validation config entry.algorithm) now token),
    s,
  )

  abbrev pub production_path : Str → Header → CacheState → Result SupabaseClaims × CacheState
  production_path token header s = with_entry token (find_key lib now answer header.kid s)

  abbrev pub test_path : Str → Str → Result SupabaseClaims
  test_path token secret =
      ok_or (app_error unauthorized (codes "invalid test token"))
        (jwt.decode (from_secret secret) (test_validation config) now token)

  -- The secret of the test path: of a build outside production, for a token of HS256.
  abbrev pub test_secret_for : Header → Option Str
  test_secret_for header =
      if not (is_production config.app_env)
      then (if is_hs256 header.alg then config.test_jwt_secret else none)
      else none

  abbrev pub by_secret : Str → Header → Option Str → CacheState → Result SupabaseClaims × CacheState
  by_secret token header none s = production_path token header s
  by_secret token header (some secret) s = (test_path token secret, s)

  abbrev pub with_header : Str → Option Header → CacheState → Result SupabaseClaims × CacheState
  with_header token none s = (err (app_error unauthorized (codes "invalid token header")), s)
  with_header token (some header) s = by_secret token header (test_secret_for header) s

  unfoldable pub verify_token : Str → CacheState → Result SupabaseClaims × CacheState
  unfolding find_key build_validation
  verify_token token s =
      if is_empty (trim token)
      then (err (app_error unauthorized (codes "empty bearer token")), s)
      else with_header (trim token) (jwt.decode_header (trim token)) s
