-- ===== src/Auth/Jwks.antt =====
-- auth/jwks.rs: the cache of Supabase's signing keys. The HTTP exchange is the answer to a refresh,
-- an argument; the keys of `jsonwebtoken` and the base64 of the `base64` crate are a `KeyLib`.
-- Instants are seconds.
pub mod Cached
use mizan_connect.Base.{
  ℕ, ◌+◌, ◌*◌, Str, codes, str_eq, Bool, true, false, Option, none, some, List, [], ◌∷◌, first,
  length, ltb, if◌then◌else◌,
}
use mizan_connect.Error.{AppError, app_error, unauthorized, Result, ok, err, ok_or}

-- STALE_AFTER
abbrev pub stale_after : ℕ
stale_after = 60 * 60 * 24

-- `jsonwebtoken::Algorithm`
pub data Algorithm : Type 0 where
  hs256 hs384 hs512 rs256 rs384 rs512 es256 es384 ps256 ps384 ps512 ed_dsa : Algorithm

-- `DecodingKey`, by what it was made from.
pub data DecodingKey : Type 0 where
  rsa_components ec_components : Str → Str → DecodingKey
  from_secret : Str → DecodingKey

-- Which components `jsonwebtoken` makes a key of, and what base64 reads.
pub record KeyLib : Type 0 where
  pub accepts_rsa : Str → Str → Bool
  pub accepts_ec : Str → Str → Bool
  pub base64_url_decode : Str → Option Str

pub record RawJwk : Type 0 where
  pub kty : Str
  pub alg : Option Str
  pub kid : Option Str
  pub n : Option Str
  pub e : Option Str
  pub crv : Option Str
  pub x : Option Str
  pub y : Option Str
  pub k : Option Str

abbrev pub default_alg_for_kty : Str → Str
default_alg_for_kty kty =
    if str_eq kty (codes "RSA")
    then codes "RS256"
    else if str_eq kty (codes "EC")
    then codes "ES256"
    else if str_eq kty (codes "oct")
    then codes "HS256"
    else codes "RS256"

abbrev alg_of : Str → List (Str × Algorithm) → Option Algorithm
alg_of alg [] = none
alg_of alg ((name, a) ∷ rest) =
    let found = alg_of alg rest in if str_eq alg name then some a else found

unfoldable pub parse_algorithm : Str → Option Algorithm
parse_algorithm alg = alg_of alg (
    (codes "HS256", hs256)
    ∷ (codes "HS384", hs384)
    ∷ (codes "HS512", hs512)
    ∷ (codes "RS256", rs256)
    ∷ (codes "RS384", rs384)
    ∷ (codes "RS512", rs512)
    ∷ (codes "ES256", es256)
    ∷ (codes "ES384", es384)
    ∷ (codes "PS256", ps256)
    ∷ (codes "PS384", ps384)
    ∷ (codes "PS512", ps512)
    ∷ (codes "EdDSA", ed_dsa)
    ∷ [])

pub record JwkEntry : Type 0 where
  pub kid : Option Str
  pub algorithm : Algorithm
  pub decoding_key : DecodingKey

abbrev or_alg : Option Str → Str → Str
or_alg none kty = default_alg_for_kty kty
or_alg (some alg) kty = alg

abbrev both : Option Str → Option Str → Option (Str × Str)
both none b = none
both (some a) none = none
both (some a) (some b) = some (a, b)

abbrev is_there : Option Str → Bool
is_there none = false
is_there (some s) = true

module _ (lib : KeyLib) where
  abbrev rsa_key : Option (Str × Str) → Option DecodingKey
  rsa_key none = none
  rsa_key (some p) = if lib.accepts_rsa p.0 p.1 then some (rsa_components p.0 p.1) else none

  abbrev ec_key : Option (Str × Str) → Bool → Option DecodingKey
  ec_key none has_crv = none
  ec_key (some p) has_crv =
      if has_crv
      then (if lib.accepts_ec p.0 p.1 then some (ec_components p.0 p.1) else none)
      else none

  abbrev decoded_secret : Option Str → Option DecodingKey
  decoded_secret none = none
  decoded_secret (some raw) = some (from_secret raw)

  abbrev oct_key : Option Str → Option DecodingKey
  oct_key none = none
  oct_key (some k) = decoded_secret (lib.base64_url_decode k)

  abbrev pub key_of_jwk : RawJwk → Option DecodingKey
  key_of_jwk jwk =
      if str_eq jwk.kty (codes "RSA")
      then rsa_key (both jwk.n jwk.e)
      else if str_eq jwk.kty (codes "EC")
      then ec_key (both jwk.x jwk.y) (is_there jwk.crv)
      else if str_eq jwk.kty (codes "oct")
      then oct_key jwk.k
      else none

  abbrev entry_of : Option Str → Option Algorithm → Option DecodingKey → Option JwkEntry
  entry_of kid none key = none
  entry_of kid (some a) none = none
  entry_of kid (some a) (some key) = some (record { kid = kid; algorithm = a; decoding_key = key })

  -- Nothing stands for the error, which the caller logs.
  unfoldable pub jwk_to_entry : RawJwk → Option JwkEntry
  unfolding parse_algorithm
  jwk_to_entry jwk = entry_of jwk.kid (parse_algorithm (or_alg jwk.alg jwk.kty)) (key_of_jwk jwk)

  abbrev add_entry : Option JwkEntry → List JwkEntry → List JwkEntry
  add_entry none rest = rest
  add_entry (some e) rest = e ∷ rest

  -- The loop that skips what is no key.
  abbrev pub entries : List RawJwk → List JwkEntry
  entries [] = []
  entries (jwk ∷ jwks) = add_entry (jwk_to_entry jwk) (entries jwks)

pub record CacheState : Type 0 where
  pub keys : List JwkEntry
  pub fetched_at : Option ℕ
  pub last_error : Option Str

-- `CacheState::default`
abbrev pub empty_cache : CacheState
empty_cache = record { keys = []; fetched_at = none; last_error = none }

-- What a fetch brings: the document, or the text of an error.
pub data Fetched : Type 0 where
  document : List RawJwk → Fetched
  http_error : Str → Fetched

-- `JwksError`
pub data JwksError : Type 0 where
  http empty : JwksError

pub data Refreshed : Type 0 where
  fresh : Refreshed
  stale_with : JwksError → Refreshed

abbrev store_keys : ℕ → List JwkEntry → CacheState → Refreshed × CacheState
store_keys now [] s =
    (stale_with empty, record s { last_error = some (codes "empty JWKS document") })
store_keys now (e ∷ es) s =
    (fresh, record { keys = e ∷ es; fetched_at = some now; last_error = none })

unfoldable pub refresh : KeyLib → ℕ → Fetched → CacheState → Refreshed × CacheState
unfolding jwk_to_entry
refresh lib now (http_error e) s = (stale_with http, record s { last_error = some e })
refresh lib now (document jwks) s = store_keys now (entries lib jwks) s

abbrev has_kid : Str → JwkEntry → Bool
has_kid want e = elim e.kid [ none ↦ false | some k ↦ str_eq k want ]

abbrev pub head_of : List JwkEntry → Option JwkEntry
head_of [] = none
head_of (e ∷ es) = some e

abbrev pub entry_for : Option Str → List JwkEntry → Option JwkEntry
entry_for none keys = head_of keys
entry_for (some want) keys = first (has_kid want) keys

-- A refresh in front if the cache is empty, whose failure is logged.
abbrev pub lazily : KeyLib → ℕ → Fetched → CacheState → CacheState
lazily lib now answer s = elim s.keys [ [] ↦ (refresh lib now answer s).1 | e ∷ es ↦ s ]

unfoldable pub find_key :
    KeyLib → ℕ → Fetched → Option Str → CacheState → Result JwkEntry × CacheState
unfolding refresh
find_key lib now answer kid s =
    let s' = lazily lib now answer s in
    (ok_or (app_error unauthorized (codes "unknown signing key")) (entry_for kid s'.keys), s')

pub record JwksSnapshot : Type 0 where
  pub key_count : ℕ
  pub fetched_at : Option ℕ
  pub stale : Bool
  pub last_error : Option Str

abbrev is_stale : ℕ → Option ℕ → Bool
is_stale now none = true
is_stale now (some t) = ltb (t + stale_after) now

unfoldable pub snapshot : ℕ → CacheState → JwksSnapshot
snapshot now s = record {
  key_count = length s.keys;
  fetched_at = s.fetched_at;
  stale = is_stale now s.fetched_at;
  last_error = s.last_error;
}
