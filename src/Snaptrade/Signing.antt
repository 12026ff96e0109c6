-- ===== src/Snaptrade/Signing.antt =====
-- snaptrade/signing.rs: the signature of a request to SnapTrade. HMAC-SHA256, base64 and
-- `serde_json::to_string` are the fields of a `Signer`.
use mizan_connect.Base.{Str, codes, Option, none, some, ◌≡◌}
use mizan_connect.Json.{Value, null, string, object, no_members, member}

pub record Signer : Type 0 where
  pub to_string : Value → Str
  -- The key and the text give the digest.
  pub hmac_sha256 : Str → Str → Str
  pub base64 : Str → Str

pub record SignInput : Type 0 where
  pub path : Str
  pub query : Str
  pub body : Option Value

-- The test `!v.is_null() && !is_empty_object(v)`, and the content that it selects.
abbrev content_of_value : Value → Value
content_of_value (object no_members) = null
content_of_value v = v

abbrev pub content : Option Value → Value
content none = null
content (some v) = content_of_value v

-- The map of the three insertions, which a `BTreeMap` keeps in the order of the keys.
abbrev pub request_object : SignInput → Value
request_object input = object (
    member (codes "content") (content input.body) (
      member (codes "path") (string input.path)
        (member (codes "query") (string input.query) no_members)))

unfoldable pub canonical_request_json : Signer → SignInput → Str
canonical_request_json signer input = signer.to_string (request_object input)

unfoldable pub sign : Signer → SignInput → Str → Str
unfolding canonical_request_json
sign signer input consumer_key =
    signer.base64 (signer.hmac_sha256 consumer_key (canonical_request_json signer input))

-- Two requests that the signature cannot tell apart.
abbrev pub Same : SignInput → SignInput → Type 0
Same a b = (content a.body ≡ content b.body) × (a.path ≡ b.path) × (a.query ≡ b.query)

-- With a `to_string` that prints no two values alike, requests of one canonical text have one path,
-- one query and one content.
pub canonical_request_json-Same :
    (signer : Signer) (a b : SignInput)
    → ((v w : Value) → signer.to_string v ≡ signer.to_string w → v ≡ w)
    → canonical_request_json signer a ≡ canonical_request_json signer b
    → Same a b
unfolding canonical_request_json
canonical_request_json-Same signer a b injective h =
    let e = injective (request_object a) (request_object b) h in (cc e, cc e, cc e)
