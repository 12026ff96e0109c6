-- ===== src/Auth/Token/Sound.antt =====
-- auth/supabase_jwt.rs: whose tokens are accepted.
use mizan_connect.Base.{
  ℕ, Str, codes, trim, is_empty, Bool, true, false, ◌≡◌, ◌≢◌, ◌⊎◌, inl, inr, refl, Option, none,
  some, [], Any, if◌then◌else◌, arith,
}
use mizan_connect.Error.{app_error, unauthorized, Result, ok, err}
use mizan_connect.Config.{is_production}
use mizan_connect.Config.Load.{Config}
use mizan_connect.Auth.Jwks.{hs256, from_secret, KeyLib, JwkEntry, CacheState, Fetched, find_key}
use mizan_connect.Auth.Jwks.Cached.{Answers, find_key_sound, some_ok}
use mizan_connect.Auth.Token.{
  SupabaseClaims, Header, TokenLib, build_validation, test_validation, production_path,
  test_secret_for, by_secret, with_header, with_entry, verify_token,
}

module _ (jwt : TokenLib) (lib : KeyLib) (config : Config) (now : ℕ) (answer : Fetched) where
  -- By a key of the cache, with the key's own algorithm, whatever the token's header says.
  abbrev pub ByCachedKey : Str → Header → SupabaseClaims → CacheState → Type 0
  ByCachedKey token header c s =
      (entry : JwkEntry) × Any (λ x. x ≡ entry) s.keys
      × Answers header.kid entry
      × (jwt.decode entry.decoding_key (build_validation config entry.algorithm) now token ≡ some c)

  -- By the test secret, outside of production.
  abbrev pub ByTestSecret : Str → Header → SupabaseClaims → Type 0
  ByTestSecret token header c =
      (secret : Str) × (config.test_jwt_secret ≡ some secret)
      × (is_production config.app_env ≡ false)
      × (header.alg ≡ hs256)
      × (jwt.decode (from_secret secret) (test_validation config) now token ≡ some c)

  production_sound :
      (token : Str) (header : Header) (c : SupabaseClaims) (s : CacheState)
      → (production_path jwt lib config now answer token header s).0 ≡ ok c
      → ByCachedKey token header c (production_path jwt lib config now answer token header s).1
  production_sound token header c s h =
      go (find_key lib now answer header.kid s)
        (λ e k. find_key_sound lib now answer header.kid s e k) h
    where
      go :
          (r : Result JwkEntry × CacheState)
          → ((e : JwkEntry)
              → r.0 ≡ ok e
              → Any (λ x. x ≡ e) r.1.keys × Answers header.kid e × (s.keys ≢ [] → r.1 ≡ s))
          → (with_entry jwt lib config now answer token r).0 ≡ ok c
          → ByCachedKey token header c (with_entry jwt lib config now answer token r).1
      go (err x, s') sound k = absurd (cc)
      go (ok e, s') sound k = let (there, kid, _) = sound e refl in (e, there, kid, some_ok _ _ c k)

  secret_for :
      (header : Header) (secret : Str)
      → test_secret_for jwt lib config now answer header ≡ some secret
      → (config.test_jwt_secret ≡ some secret)
        × (is_production config.app_env ≡ false)
        × (header.alg ≡ hs256)
  secret_for header secret h = ground arith

  by_secret_sound :
      (token : Str) (header : Header) (o : Option Str) (c : SupabaseClaims) (s : CacheState)
      → test_secret_for jwt lib config now answer header ≡ o
      → (by_secret jwt lib config now answer token header o s).0 ≡ ok c
      → ByCachedKey token header c (by_secret jwt lib config now answer token header o s).1
        ⊎ ByTestSecret token header c
  by_secret_sound token header none c s is h = inl (production_sound token header c s h)
  by_secret_sound token header (some secret) c s is h =
      let (config_is, env, alg) = secret_for header secret is in
      inr (secret, config_is, env, alg, some_ok _ _ c h)

  with_header_sound :
      (token : Str) (o : Option Header) (c : SupabaseClaims) (s : CacheState)
      → (with_header jwt lib config now answer token o s).0 ≡ ok c
      → (header : Header) × (o ≡ some header)
        × (ByCachedKey token header c (with_header jwt lib config now answer token o s).1
            ⊎ ByTestSecret token header c)
  with_header_sound token none c s h = absurd (cc)
  with_header_sound token (some header) c s h = (
    header,
    refl,
    by_secret_sound token header (test_secret_for jwt lib config now answer header) c s refl h,
  )

  not_empty_sound :
      (token : Str) (b : Bool) (c : SupabaseClaims) (s : CacheState)
      → (if b
          then (err (app_error unauthorized (codes "empty bearer token")), s)
          else with_header jwt lib config now answer token (jwt.decode_header token) s).0
        ≡ ok c
      → (header : Header) × (jwt.decode_header token ≡ some header)
        × (ByCachedKey token header c
              (if b
                then (err (app_error unauthorized (codes "empty bearer token")), s)
                else with_header jwt lib config now answer token (jwt.decode_header token) s).1
            ⊎ ByTestSecret token header c)
  not_empty_sound token true c s h = absurd (cc)
  not_empty_sound token false c s h = with_header_sound token (jwt.decode_header token) c s h

  -- An accepted token has a readable header, and was verified by a key of the cache that has the key
  -- id of the header, if it has one, with the algorithm of the key and not of the token; or, outside
  -- of production only, as HS256 with the test secret.
  pub verify_token_sound :
      (token : Str) (c : SupabaseClaims) (s : CacheState)
      → (verify_token jwt lib config now answer token s).0 ≡ ok c
      → (header : Header) × (jwt.decode_header (trim token) ≡ some header)
        × (ByCachedKey (trim token) header c (verify_token jwt lib config now answer token s).1
            ⊎ ByTestSecret (trim token) header c)
  unfolding verify_token
  verify_token_sound token c s h = not_empty_sound (trim token) (is_empty (trim token)) c s h
