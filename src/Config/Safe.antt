-- ===== src/Config/Safe.antt =====
-- config.rs: what a configuration that was loaded promises.
use mizan_connect.Base.{
  ℕ, ◌≤◌, Str, codes, strip_prefix, true, false, not, Option, none, some, List, [], ◌∷◌, exists,
  length, if◌then◌else◌, ◌≡◌, ◌≢◌, refl, sym, ap, ◌∙◌, arith, is_empty, trim, subst, Bool,
}
use mizan_connect.Config.{
  AppEnv, is_production, is_test, Loaded, good, bad, ◌>>=◌, is_wildcard, parse_cors, pick_required,
  trimmed, required_value, parsed_or_invalid, LogFormat, trim_required, parse_optional,
  parse_format, parse_required, or_default, parse_env, filled,
}
use mizan_connect.Config.Sections.{
  RawConfig, SnaptradeConfig, build_snaptrade_config, encryption_key, signing_secret, key_of_length,
  secret_of_length, snaptrade_with, snaptrade_of,
}
use mizan_connect.Config.Load.{
  Config, check_scheme, config_of, load, test_secret, at_least_one, default_format,
}

-- Inversion of a successful step.
bind_good :
    {A B : Type 0} (m : Loaded A) (f : A → Loaded B) (b : B)
    → (m >>= f) ≡ good b
    → (a : A) × (m ≡ good a) × (f a ≡ good b)
bind_good (good a) f b h = (a, refl, h)
bind_good (bad e) f b h = absurd (cc)

scheme_ok :
    (url : Str) (app_env : AppEnv)
    → check_scheme url app_env ≡ good tt
    → is_test app_env ≡ false
    → strip_prefix (codes "https://") url ≢ none
scheme_ok url app_env h k = ground arith

cors_ok :
    (raw : Option Str) (origins : List Str)
    → parse_cors raw true ≡ good origins
    → exists is_wildcard origins ≡ false
unfolding parse_cors
cors_ok raw origins h = ground arith

trimmed_filled : (raw : Option Str) (v : Str) → trimmed raw ≡ some v → v ≢ []
trimmed_filled none v h = absurd (cc)
trimmed_filled (some s) v h = filled_of (trim s) h
  where
    filled_of : (t : Str) → (if is_empty t then none else some t) ≡ some v → v ≢ []
    filled_of [] k = absurd (cc)
    filled_of (c ∷ t) k = λ e. cc (k, e)

-- A value that is required is there.
pick_ok :
    (var : Str) (raw o : Option Str)
    → pick_required var raw true ≡ good o
    → (v : Str) × (o ≡ some v) × (v ≢ [])
unfolding pick_required
pick_ok var raw o h = go (trimmed raw) refl h
  where
    go :
        (t : Option Str)
        → trimmed raw ≡ t
        → required_value var true t ≡ good o
        → (v : Str) × (o ≡ some v) × (v ≢ [])
    go none e k = absurd (cc)
    go (some v) e k = (v, sym (cc k), trimmed_filled raw v e)

key_ok :
    (decode : Str → Option Str) (s : Str) (key : Str)
    → encryption_key decode (some s) ≡ good key
    → length key ≡ 32
key_ok decode s key h =
    let (bytes, _, k) =
      bind_good (parsed_or_invalid (codes "MIZAN_BROKER_SECRET_ENCRYPTION_KEY") s (decode (trim s)))
        (key_of_length decode) key h in
    ground arith

secret_ok :
    (decode : Str → Option Str) (s secret : Str)
    → signing_secret decode (some s) ≡ good secret
    → (bytes : Str) × (secret ≡ s) × (decode (trim s) ≡ some bytes) × (32 ≤ length bytes)
secret_ok decode s secret h =
    let parse = parsed_or_invalid (codes "MIZAN_SNAPTRADE_STATE_SECRET") s in
    let (bytes, is, k) = bind_good (parse (decode (trim s))) (secret_of_length decode s) secret h in
    (bytes, ground arith, decoded (decode (trim s)) bytes is, ground arith)
  where
    decoded :
        (o : Option Str) (bytes : Str)
        → parsed_or_invalid (codes "MIZAN_SNAPTRADE_STATE_SECRET") s o ≡ good bytes
        → o ≡ some bytes
    decoded none bytes k = absurd (cc)
    decoded (some b) bytes k = ap some (cc k)

base_ok :
    (raw : Option Str) → or_default (codes "https://api.snaptrade.com/api/v1") (filled raw) ≢ []
unfolding trim
base_ok none e = cc e
base_ok (some []) e = cc e
base_ok (some (c ∷ s)) e = go (is_empty (trim (c ∷ s))) e
  where
    go :
        (b : Bool)
        → or_default (codes "https://api.snaptrade.com/api/v1") (if b then none else some (c ∷ s))
          ≢ []
    go true k = cc k
    go false k = cc k

-- The secrets of the broker integration outside of a test.
pub record IsReady (decode : Str → Option Str) (c : SnaptradeConfig) : Type 0 where
  pub client : c.client_id ≢ []
  pub consumer : c.consumer_key ≢ []
  pub base : c.api_base ≢ []
  pub redirect : c.redirect_uri ≢ []
  pub key : length c.broker_secret_encryption_key ≡ 32
  pub state : (bytes : Str) × (decode (trim c.state_secret) ≡ some bytes) × (32 ≤ length bytes)

IsReady-of :
    (decode : Str → Option Str) (raw : RawConfig) (a b d e f : Option Str) (k s : Str)
    → pick_required (codes "SNAPTRADE_CLIENT_ID") raw.snaptrade_client_id true ≡ good a
    → pick_required (codes "SNAPTRADE_CONSUMER_KEY") raw.snaptrade_consumer_key true ≡ good b
    → pick_required (codes "SNAPTRADE_REDIRECT_URI") raw.snaptrade_redirect_uri true ≡ good d
    → pick_required
        (codes "MIZAN_BROKER_SECRET_ENCRYPTION_KEY")
        raw.mizan_broker_secret_encryption_key
        true
      ≡ good e
    → encryption_key decode e ≡ good k
    → pick_required (codes "MIZAN_SNAPTRADE_STATE_SECRET") raw.mizan_snaptrade_state_secret true
      ≡ good f
    → signing_secret decode f ≡ good s
    → IsReady decode (snaptrade_of decode raw a b d k s)
IsReady-of decode raw a b d e f k s ha hb hd he hk hf hs =
    let (v1, is1, n1) = pick_ok _ _ a ha in
    let (v2, is2, n2) = pick_ok _ _ b hb in
    let (v3, is3, n3) = pick_ok _ _ d hd in
    let (v4, is4, n4) = pick_ok _ _ e he in
    let (v5, is5, n5) = pick_ok _ _ f hf in
    let (bytes, same, decoded, long) =
      secret_ok decode v5 s (ap (signing_secret decode) (sym is5) ∙ hs) in
    (record {
      client = subst (λ o. or_default [] o ≢ []) (sym is1) n1;
      consumer = subst (λ o. or_default [] o ≢ []) (sym is2) n2;
      base = base_ok raw.snaptrade_api_base;
      redirect = subst (λ o. or_default [] o ≢ []) (sym is3) n3;
      key = key_ok decode v4 k (ap (encryption_key decode) (sym is4) ∙ hk);
      state = (bytes, ap (λ t. decode (trim t)) same ∙ decoded, long);
    })

snaptrade_ok :
    (decode : Str → Option Str) (raw : RawConfig) (c : SnaptradeConfig)
    → snaptrade_with decode raw true ≡ good c
    → IsReady decode c
snaptrade_ok decode raw c h =
    let pick = λ (var : Str). λ (value : Option Str). pick_required var value true in
    let client = pick (codes "SNAPTRADE_CLIENT_ID") raw.snaptrade_client_id in
    let consumer = pick (codes "SNAPTRADE_CONSUMER_KEY") raw.snaptrade_consumer_key in
    let redirect = pick (codes "SNAPTRADE_REDIRECT_URI") raw.snaptrade_redirect_uri in
    let sealing =
      pick (codes "MIZAN_BROKER_SECRET_ENCRYPTION_KEY") raw.mizan_broker_secret_encryption_key in
    let signing = pick (codes "MIZAN_SNAPTRADE_STATE_SECRET") raw.mizan_snaptrade_state_secret in
    let f7 = λ (a b d : Option Str). λ (k s : Str). good (snaptrade_of decode raw a b d k s) in
    let f6 = λ (a b d : Option Str).
      λ (k : Str). λ (s : Option Str). signing_secret decode s >>= f7 a b d k in
    let f5 = λ (a b d : Option Str). λ (k : Str). signing >>= f6 a b d k in
    let f4 = λ (a b d k : Option Str). encryption_key decode k >>= f5 a b d in
    let f3 = λ (a b d : Option Str). sealing >>= f4 a b d in
    let f2 = λ (a b : Option Str). redirect >>= f3 a b in
    let f1 = λ (a : Option Str). consumer >>= f2 a in
    let (o1, e1, h1) = bind_good client f1 c h in
    let (o2, e2, h2) = bind_good consumer (f2 o1) c h1 in
    let (o3, e3, h3) = bind_good redirect (f3 o1 o2) c h2 in
    let (o4, e4, h4) = bind_good sealing (f4 o1 o2 o3) c h3 in
    let (k, e5, h5) = bind_good (encryption_key decode o4) (f5 o1 o2 o3) c h4 in
    let (o6, e6, h6) = bind_good signing (f6 o1 o2 o3 k) c h5 in
    let (s, e7, h7) = bind_good (signing_secret decode o6) (f7 o1 o2 o3 k) c h6 in
    let is : snaptrade_of decode raw o1 o2 o3 k s ≡ c = cc h7 in
    subst (IsReady decode) is (IsReady-of decode raw o1 o2 o3 o4 o6 k s e1 e2 e3 e4 e5 e6 e7)

-- What the rest of the server relies on.
abbrev pub IsSafe : (Str → Option Str) → Config → Type 0
IsSafe decode c =
    (is_production c.app_env ≡ true → c.test_jwt_secret ≡ none)
    × (1 ≤ c.database_max_connections)
    × (1 ≤ c.rate_limit_per_minute)
    × (is_test c.app_env ≡ false
        → (strip_prefix (codes "https://") c.supabase_url ≢ none)
          × (exists is_wildcard c.cors_allowed_origins ≡ false)
          × IsReady decode c.snaptrade)

no_test_secret :
    (app_env : AppEnv) (raw : Option Str)
    → is_production app_env ≡ true
    → test_secret app_env raw ≡ none
no_test_secret app_env raw h = rw h refl

at_least_one_lem : (n : ℕ) → 1 ≤ at_least_one n
at_least_one_lem n = ground arith

IsSafe-of :
    (decode : Str → Option Str) (raw : RawConfig) (env : AppEnv) (format : LogFormat) (db url : Str)
    (origins : List Str) (s : SnaptradeConfig)
    → check_scheme url env ≡ good tt
    → parse_cors raw.mizan_cors_allowed_origins (not (is_test env)) ≡ good origins
    → snaptrade_with decode raw (not (is_test env)) ≡ good s
    → IsSafe decode (config_of raw env format db url origins s)
IsSafe-of decode raw env format db url origins s scheme cors snaptrade = (
  no_test_secret env raw.mizan_test_jwt_secret,
  at_least_one_lem (or_default 10 raw.database_max_connections),
  at_least_one_lem (or_default 100 raw.rate_limit_per_minute),
  λ not_test.
      let on : not (is_test env) ≡ true = rw not_test refl in
      (
        scheme_ok url env scheme not_test,
        cors_ok raw.mizan_cors_allowed_origins origins
            (ap (parse_cors raw.mizan_cors_allowed_origins) (sym on) ∙ cors),
        snaptrade_ok decode raw s (ap (snaptrade_with decode raw) (sym on) ∙ snaptrade),
      ),
)

-- Whatever the environment holds, a configuration that loads has no test secret in production, and at
-- least one connection and one request a minute; outside of a test its Supabase URL is https, no
-- origin is the wildcard, SnapTrade's client id, consumer key, address and redirect address are not
-- empty, the encryption key has 32 bytes and the signing secret stands for 32 bytes or more.
pub load-IsSafe :
    (decode : Str → Option Str) (raw : RawConfig) (c : Config)
    → load decode raw ≡ good c
    → IsSafe decode c
unfolding load build_snaptrade_config
load-IsSafe decode raw c h =
    let f7 = λ (env : AppEnv). λ (format : LogFormat). λ (db url : Str). λ (origins : List Str).
      λ (s : SnaptradeConfig). good (config_of raw env format db url origins s) in
    let f6 = λ (env : AppEnv). λ (format : LogFormat). λ (db url : Str). λ (origins : List Str).
      build_snaptrade_config decode raw env >>= f7 env format db url origins in
    let cors = λ (env : AppEnv). parse_cors raw.mizan_cors_allowed_origins (not (is_test env)) in
    let f5 = λ (env : AppEnv). λ (format : LogFormat).
      λ (db url : Str). λ (_ : Unit {0}). cors env >>= f6 env format db url in
    let f4 = λ (env : AppEnv).
      λ (format : LogFormat). λ (db url : Str). check_scheme url env >>= f5 env format db url in
    let get_url = trim_required raw.supabase_url (codes "SUPABASE_URL") in
    let f3 = λ (env : AppEnv). λ (format : LogFormat). λ (db : Str). get_url >>= f4 env format db in
    let get_db = trim_required raw.database_url (codes "DATABASE_URL") in
    let f2 = λ (env : AppEnv). λ (format : LogFormat). get_db >>= f3 env format in
    let get_format = λ (env : AppEnv).
      parse_optional parse_format (codes "LOG_FORMAT") raw.log_format (default_format env) in
    let f1 = λ (env : AppEnv). get_format env >>= f2 env in
    let (env, e1, h1) =
      bind_good
        (parse_required parse_env (codes "APP_ENV") raw.app_env (some (codes "development"))) f1 c
        h in
    let (format, e2, h2) = bind_good (get_format env) (f2 env) c h1 in
    let (db, e3, h3) = bind_good get_db (f3 env format) c h2 in
    let (url, e4, h4) = bind_good get_url (f4 env format db) c h3 in
    let (_, e5, h5) = bind_good (check_scheme url env) (f5 env format db url) c h4 in
    let (origins, e6, h6) = bind_good (cors env) (f6 env format db url) c h5 in
    let (s, e7, h7) =
      bind_good (build_snaptrade_config decode raw env) (f7 env format db url origins) c h6 in
    let is : config_of raw env format db url origins s ≡ c = cc h7 in
    subst (IsSafe decode) is (IsSafe-of decode raw env format db url origins s (cc e5) e6 e7)
