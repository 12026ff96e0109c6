-- ===== src/Json.antt =====
-- `serde_json::Value`, which the requests to SnapTrade, the audit events and the claims carry. A
-- number is kept as its text. `to_string` of serde_json is a parameter where the code calls it.
use mizan_connect.Base.{Str, Bool, str_eq, Option, none, some, if◌then◌else◌}

mutual
  pub data Value : Type 0 where
    null : Value
    boolean : Bool → Value
    number : Str → Value
    string : Str → Value
    array : Items → Value
    object : Members → Value

  pub data Items : Type 0 where
    no_items : Items
    item : Value → Items → Items

  -- The members stand in the order of their keys, as in serde_json's `BTreeMap`.
  pub data Members : Type 0 where
    no_members : Members
    member : Str → Value → Members → Members

-- `Option<&str>` in `json!`.
abbrev pub string_or_null : Option Str → Value
string_or_null none = null
string_or_null (some s) = string s

abbrev lookup_in : Str → Members → Option Value
lookup_in key no_members = none
lookup_in key (member k v rest) =
    let found = lookup_in key rest in if str_eq k key then some v else found

-- `Value::get` with a text.
unfoldable pub get : Value → Str → Option Value
get (object members) key = lookup_in key members
get _ key = none

-- `Value::as_str`
abbrev pub as_text : Value → Option Str
as_text (string s) = some s
as_text _ = none
