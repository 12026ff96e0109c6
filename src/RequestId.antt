-- ===== src/RequestId.antt =====
-- middleware/request_id.rs: which request id a request carries. The header is its text, `none` if
-- it is missing or not visible ASCII, so that its bytes are its characters; the UUID that the code
-- draws is an argument.
pub mod Safe
mod Tests
use mizan_connect.Base.{
  ℕ, Str, trim, is_empty, Bool, true, false, not, ◌&&◌, ◌||◌, Option, none, some, length, every,
  leb, ◌==◌, if◌then◌else◌,
}

-- MAX_LEN
abbrev pub max_len : ℕ
max_len = 64

unfoldable pub is_safe_id_char : ℕ → Bool
is_safe_id_char c =
    leb b'a' c && leb c b'z'
    || leb b'A' c && leb c b'Z'
    || leb b'0' c && leb c b'9'
    || c == b'-'
    || c == b'_'
    || c == b'.'

-- The test of the filter.
abbrev pub is_usable : Str → Bool
is_usable s = not (is_empty s) && leb (length s) max_len && every is_safe_id_char s

unfoldable pub extract_or_generate : Option Str → Str → Str
extract_or_generate none generated = generated
extract_or_generate (some header) generated =
    if is_usable (trim header) then trim header else generated
