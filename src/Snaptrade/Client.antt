-- ===== src/Snaptrade/Client.antt =====
-- snaptrade/client.rs: the typed requests to the SnapTrade API. The HTTP exchange is the field
-- `send` of a `Transport`, the reading of a reply into a type that of a `Wire`, and the encoding of
-- the `url` crate `byte_serialize`. The instant of a request is an argument. The header that no text
-- can fail to be is left out of the errors.
pub mod Query
use mizan_connect.Base.{
  ℕ, Str, codes, Bool, true, false, ◌&&◌, Option, none, some, List, [], ◌∷◌, ◌++◌, leb, ◌==◌,
  strip_prefix, if◌then◌else◌,
}
use mizan_connect.Json.{Value, null, boolean, string, object, Members, no_members, member}
use mizan_connect.Snaptrade.Types.{
  StRegisterUserResponse, StLoginResponse, StAuthorization, StAccount,
}
use mizan_connect.Snaptrade.Errors.{
  SnaptradeError, upstream_status, transport, decode, parse, Answer, answered, refused,
}
use mizan_connect.Snaptrade.Signing.{Signer, SignInput, sign}

pub data Method : Type 0 where
  get_method post_method delete_method : Method

pub record HttpRequest : Type 0 where
  pub method : Method
  pub url : Str
  pub signature : Str
  pub json : Option Value

pub data HttpReply : Type 0 where
  -- The status and the bytes of the body.
  replied : ℕ → Str → HttpReply
  -- `send` has failed, by a timeout or not; or the body could not be read.
  send_failed : Bool → HttpReply
  body_failed : HttpReply

-- `serde_json::from_slice`, for the types that the client reads.
pub record Wire : Type 0 where
  pub register_response : Str → Option StRegisterUserResponse
  pub login_response : Str → Option StLoginResponse
  pub authorizations : Str → Option (List StAuthorization)
  pub accounts : Str → Option (List StAccount)
  pub value : Str → Option Value

pub record SnaptradeClient : Type 0 where
  pub base_url : Str
  pub client_id : Str
  pub consumer_key : Str
  pub signer : Signer
  pub wire : Wire
  pub byte_serialize : Str → Str
  pub to_string : ℕ → Str
  pub from_utf8_lossy : Str → Str
  pub send : HttpRequest → HttpReply

abbrev prefixed : Str → Option Str → Option Str → Str
prefixed relative (some rest) slash = relative
prefixed relative none (some rest) = codes "/api/v1" ++ relative
prefixed relative none none = codes "/api/v1/" ++ relative

unfoldable pub full_signing_path : Str → Str
unfolding strip_prefix
full_signing_path relative =
    prefixed relative (strip_prefix (codes "/api/") relative) (strip_prefix (codes "/") relative)

module _ (byte_serialize : Str → Str) where
  abbrev pub pair_text : Str × Str → Str
  pair_text p = byte_serialize p.0 ++ b'=' ∷ byte_serialize p.1

  -- The pairs behind the first one, each with its separator.
  abbrev pub more_pairs : List (Str × Str) → Str
  more_pairs [] = []
  more_pairs (p ∷ ps) = b'&' ∷ pair_text p ++ more_pairs ps

  unfoldable pub build_query_string : List (Str × Str) → Str
  build_query_string [] = []
  build_query_string (p ∷ ps) = pair_text p ++ more_pairs ps

module _ (client : SnaptradeClient) (unix_now : ℕ) where
  abbrev pub all_params : List (Str × Str) → List (Str × Str)
  all_params params =
      params
      ++ (codes "clientId", client.client_id) ∷ (codes "timestamp", client.to_string unix_now) ∷ []

  abbrev pub query_of : List (Str × Str) → Str
  query_of params = build_query_string client.byte_serialize (all_params params)

  abbrev pub sign_input : Str → List (Str × Str) → Option Value → SignInput
  sign_input path params body = record {
    path = full_signing_path path;
    query = query_of params;
    body = body;
  }

  unfoldable pub signed_request : Method → Str → List (Str × Str) → Option Value → HttpRequest
  unfolding build_query_string sign full_signing_path
  signed_request method path params body = record {
    method = method;
    url = client.base_url ++ path ++ b'?' ∷ query_of params;
    signature = sign client.signer (sign_input path params body) client.consumer_key;
    json = body;
  }

  abbrev read : {R : Type 0} → Str → Option R → Answer R
  read message none = refused (parse message)
  read message (some r) = answered r

  -- An empty body is read as JSON's `null`.
  abbrev pub reply_of : {R : Type 0} → (Str → Option R) → HttpReply → Answer R
  reply_of from_slice (send_failed is_timeout) = refused (transport is_timeout)
  reply_of from_slice body_failed = refused decode
  reply_of from_slice (replied code []) =
      if leb 200 code && leb code 299
      then read (codes "empty-body") (from_slice (codes "null"))
      else refused (upstream_status code (client.from_utf8_lossy []))
  reply_of from_slice (replied code (b ∷ bytes)) =
      if leb 200 code && leb code 299
      then read (codes "decode response") (from_slice (b ∷ bytes))
      else refused (upstream_status code (client.from_utf8_lossy (b ∷ bytes)))

  unfoldable pub send_signed :
      {R : Type 0} → (Str → Option R) → Method → Str → List (Str × Str) → Option Value → Answer R
  unfolding signed_request
  send_signed from_slice method path params body =
      reply_of from_slice (client.send (signed_request method path params body))

  abbrev pub identity : Str → Str → List (Str × Str)
  identity user_id user_secret = (codes "userId", user_id) ∷ (codes "userSecret", user_secret) ∷ []

  unfoldable pub register_user : Str → Answer StRegisterUserResponse
  unfolding send_signed
  register_user user_id =
      send_signed client.wire.register_response post_method (codes "/snapTrade/registerUser") []
        (some (object (member (codes "userId") (string user_id) no_members)))

  -- `StLoginRequest` with its two absent fields left out, as its serde attributes say.
  abbrev login_body : Str → Value
  login_body custom_redirect = object (
      member (codes "connectionPortalVersion") (string (codes "v4")) (
        member (codes "connectionType") (string (codes "read"))
          (member (codes "customRedirect") (string custom_redirect) no_members)))

  unfoldable pub login_user : Str → Str → Str → Answer StLoginResponse
  unfolding send_signed
  login_user user_id user_secret custom_redirect =
      send_signed client.wire.login_response post_method (codes "/snapTrade/login")
        (identity user_id user_secret) (some (login_body custom_redirect))

  unfoldable pub list_authorizations : Str → Str → Answer (List StAuthorization)
  unfolding send_signed
  list_authorizations user_id user_secret =
      send_signed client.wire.authorizations get_method (codes "/authorizations")
        (identity user_id user_secret) none

  unfoldable pub list_accounts : Str → Str → Answer (List StAccount)
  unfolding send_signed
  list_accounts user_id user_secret =
      send_signed client.wire.accounts get_method (codes "/accounts") (identity user_id user_secret)
        none

  unfoldable pub account_holdings : Str → Str → Str → Answer Value
  unfolding send_signed
  account_holdings user_id user_secret account_id =
      send_signed client.wire.value get_method
        (codes "/accounts/" ++ account_id ++ codes "/holdings") (identity user_id user_secret) none

  unfoldable pub account_activities : Str → Str → Str → List (Str × Str) → Answer Value
  unfolding send_signed
  account_activities user_id user_secret account_id extra_params =
      send_signed client.wire.value get_method
        (codes "/accounts/" ++ account_id ++ codes "/activities")
        (identity user_id user_secret ++ extra_params) none

  unfoldable pub refresh_authorization : Str → Str → Str → Answer Value
  unfolding send_signed
  refresh_authorization user_id user_secret authorization_id =
      send_signed client.wire.value post_method
        (codes "/authorizations/" ++ authorization_id ++ codes "/refresh")
        (identity user_id user_secret) none

  abbrev removed : Answer Value → Answer (Unit {0})
  removed (answered v) = answered tt
  removed (refused (upstream_status code body)) =
      if code == 404 then answered tt else refused (upstream_status code body)
  removed (refused e) = refused e

  unfoldable pub remove_authorization : Str → Str → Str → Answer (Unit {0})
  unfolding send_signed
  remove_authorization user_id user_secret authorization_id = removed (
      send_signed client.wire.value delete_method (codes "/authorizations/" ++ authorization_id)
        (identity user_id user_secret) none)
