-- ===== src/Auth/Tests.antt =====
-- A request with a bearer token, from the header to the row of its user.
use mizan_connect.Base.{
  str_eq, ℕ, Str, codes, ◌≡◌, ◌⊎◌, refl, Option, none, some, [], ◌∷◌, first, trim, true,
}
use mizan_connect.Json.{null}
use mizan_connect.Exec.{statement, World}
use mizan_connect.Config.Tests.{config}
use mizan_connect.Teams.Model.{User}
use mizan_connect.Teams.Tables.{TeamsDb}
use mizan_connect.Auth.Jwks.{es256, from_secret, KeyLib, CacheState, http_error}
use mizan_connect.Auth.Token.{SupabaseClaims, Header, TokenLib, verify_token}
use mizan_connect.Auth.Token.Sound.{ByCachedKey, ByTestSecret, verify_token_sound}
use mizan_connect.Auth.Extractor.{upsert_user_from_claims, has_sub}
use mizan_connect.Auth.Extractor.Row.{upsert_user_from_claims_ok}

abbrev keys : KeyLib
keys = record {
  accepts_rsa = λ n e. true;
  accepts_ec = λ x y. true;
  base64_url_decode = λ s. some s;
}

abbrev claims : SupabaseClaims
claims = record {
  sub = 7 ∷ [];
  email = some (codes "a@b");
  iss = codes "https://a/auth/v1";
  aud = codes "authenticated";
  exp = 500;
  user_metadata = null;
  app_metadata = null;
  role = none;
}

abbrev jwt : TokenLib
jwt = record {
  decode_header = λ token. some (record { alg = es256; kid = some (1 ∷ []) });
  decode = λ key v now token. some claims;
}

abbrev cache : CacheState
cache = record {
  keys =
      record { kid = some (1 ∷ []); algorithm = es256; decoding_key = from_secret (5 ∷ []) } ∷ [];
  fetched_at = some 100;
  last_error = none;
}

verify_token_sound_example :
    (header : Header) × (jwt.decode_header (trim (codes "abc")) ≡ some header)
    × (ByCachedKey jwt keys config 200
          (http_error [])
          (trim (codes "abc"))
          header
          claims
          (verify_token jwt keys config 200 (http_error []) (codes "abc") cache).1
        ⊎ ByTestSecret jwt keys config 200 (http_error []) (trim (codes "abc")) header claims)
unfolding verify_token trim str_eq
verify_token_sound_example =
    verify_token_sound jwt keys config 200 (http_error []) (codes "abc") claims cache refl

abbrev known : User
known = record {
  id = 1;
  supabase_user_id = 7;
  email = codes "old";
  display_name = none;
  avatar_url = none;
  created_at = 10;
  updated_at = 10;
  deleted_at = some 20;
}

abbrev world : World TeamsDb
world = record {
  db = record { users = known ∷ []; teams = []; team_members = []; team_invites = [] };
  faults = [];
}

abbrev parse_uuid : Str → Option ℕ
parse_uuid [] = none
parse_uuid (n ∷ _) = some n

abbrev returned : User
returned = record known { email = codes "a@b"; updated_at = 300; deleted_at = none }

upsert_user_from_claims_ok_example :
    (parse_uuid claims.sub ≡ some 7)
    × (claims.email ≡ some (codes "a@b"))
    × (returned.deleted_at ≡ none)
    × (first (has_sub 7) (upsert_user_from_claims parse_uuid 2 300 claims world).1.db.users
        ≡ some returned)
    × ((v : User) → first (has_sub 7) world.db.users ≡ some v → 1 ≡ v.id)
unfolding upsert_user_from_claims statement
upsert_user_from_claims_ok_example =
    upsert_user_from_claims_ok parse_uuid 2 300 claims world returned refl
