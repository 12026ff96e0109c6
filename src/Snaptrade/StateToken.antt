-- ===== src/Snaptrade/StateToken.antt =====
-- snaptrade/state_token.rs: the token that binds the redirect of SnapTrade to the user who started
-- it. The crate `jsonwebtoken` is a `Jwt`, and `IsJwt` what its documentation promises. Instants are
-- seconds since the Unix epoch; the random UUID of a nonce is an argument.
pub mod Bound
mod Tests
use mizan_connect.Base.{
  ℕ, ◌+◌, ◌*◌, ◌≤◌, Str, codes, Option, none, some, List, [], ◌∷◌, Bool, true, ◌≡◌, Any, ◌↔◌,
  str_eq, ◌||◌, false, exists,
}
use mizan_connect.Error.{AppError, app_error, bad_request, internal, Result, ok, err, ok_or}

-- ISSUER
abbrev pub issuer : Str
issuer = codes "mizan-snaptrade-state"

-- TTL, in seconds
abbrev pub ttl : ℕ
ttl = 10 * 60

-- LEEWAY_SECS
abbrev pub leeway_secs : ℕ
leeway_secs = 30

pub record StateClaims : Type 0 where
  pub sub : ℕ
  pub nonce : ℕ
  pub iss : Str
  pub exp : ℕ
  pub iat : ℕ

-- The fields of `jsonwebtoken::Validation` that the code sets; the algorithm is HS256.
pub record Validation : Type 0 where
  pub issuers : List Str
  pub validate_exp : Bool
  pub leeway : ℕ
  pub required_spec_claims : List Str

-- `encode` and `decode::<StateClaims>` with HS256: the secret and the claims give a token, or
-- nothing; the secret, the validation, the instant and a token give its claims, or nothing.
pub record Jwt : Type 0 where
  pub encode : Str → StateClaims → Option Str
  pub decode : Str → Validation → ℕ → Str → Option StateClaims

-- `jsonwebtoken` looks for `exp`, `sub`, `iss`, `aud` and `nbf` where they are required, and passes
-- over other names. `StateClaims` has the first three.
abbrev pub is_absent : Str → Bool
is_absent name = str_eq name (codes "aud") || str_eq name (codes "nbf")

-- The claims pass a validation at an instant: the issuer is listed, no required claim is absent,
-- and with `validate_exp` the expiry lies at most the leeway in the past.
abbrev pub Accepts : Validation → ℕ → StateClaims → Type 0
Accepts v now c =
    Any (λ i. c.iss ≡ i) v.issuers
    × (exists is_absent v.required_spec_claims ≡ false)
    × (v.validate_exp ≡ true → now ≤ c.exp + v.leeway)

-- What is accepted passes the validation, and what was encoded with the same secret and passes is
-- accepted and read back.
pub record IsJwt (jwt : Jwt) : Type 0 where
  pub sound :
      (secret : Str) (v : Validation) (now : ℕ) (token : Str) (c : StateClaims)
      → jwt.decode secret v now token ≡ some c
      → Accepts v now c
  pub complete :
      (secret : Str) (v : Validation) (now : ℕ) (token : Str) (c : StateClaims)
      → jwt.encode secret c ≡ some token
      → Accepts v now c
      → jwt.decode secret v now token ≡ some c

abbrev pub claims_for : ℕ → ℕ → ℕ → StateClaims
claims_for now nonce user_id = record {
  sub = user_id;
  nonce = nonce;
  iss = issuer;
  iat = now;
  exp = now + ttl;
}

abbrev pub validation : Validation
validation = record {
  issuers = issuer ∷ [];
  validate_exp = true;
  leeway = leeway_secs;
  required_spec_claims = codes "exp" ∷ codes "iss" ∷ [];
}

module _ (jwt : Jwt) (secret : Str) where
  unfoldable pub issue : ℕ → ℕ → ℕ → Result Str
  issue now nonce user_id =
      ok_or (app_error internal (codes "could not issue state token"))
        (jwt.encode secret (claims_for now nonce user_id))

  unfoldable pub verify : ℕ → Str → Result StateClaims
  verify now token =
      ok_or (app_error bad_request (codes "invalid state token"))
        (jwt.decode secret validation now token)
