-- ===== src/Billing/Signature.antt =====
-- `verify_webhook` of billing/stripe_client.rs: the Stripe-Signature header.
-- HMAC-SHA256 and hex decoding are the crates', so they are arguments: `hmac key message` and
-- `hex_decode text`. HMAC takes a key of any length, so its error branch does not exist here.
-- Text and bytes are lists of numbers. Overflow in `now_unix - ts` wraps, as in the release build.
pub mod Constant
pub mod Sound
mod Tests
use Prim.Native.Nat.{bit_or, bit_xor}
use mizan_connect.Base.{
  ℕ, ◌+◌, ◌/◌, ◌%◌, ℤ, pos, negsuc, ◌-ℤ◌, ltb_ℤ, wrap, abs_i64, Str, codes, str_eq, trim, split_on,
  split_once, parse_i64, show_i64, Bool, true, false, not, Option, none, some, List, [], ◌∷◌, ◌++◌,
  ◌==◌, length, if◌then◌else◌,
}

pub data StripeError : Type 0 where
  transport : StripeError
  api : ℕ → Str → StripeError
  signature : Str → StripeError

-- `Result<i64, StripeError>`
pub data Verification : Type 0 where
  verified : ℤ → Verification
  refused : StripeError → Verification

pub record Scan : Type 0 where
  pub ts : Option ℤ
  pub sigs : List Str

-- One `k=v` of the header.
abbrev scan_pair : Scan → Option (Str × Str) → Scan
scan_pair s none = s
scan_pair s (some (k, v)) =
    if str_eq k (codes "t")
    then record s { ts = parse_i64 (trim v) }
    else if str_eq k (codes "v1")
    then record s { sigs = s.sigs ++ trim v ∷ [] }
    else s

unfoldable pub scan_parts : Scan → List Str → Scan
scan_parts s [] = s
scan_parts s (part ∷ parts) = scan_parts (scan_pair s (split_once b'=' part)) parts

unfoldable pub scan_header : Str → Scan
unfolding scan_parts
scan_header header = scan_parts (record { ts = none; sigs = [] }) (split_on b',' header)

-- The loop of `subtle_eq` over two slices of one length; `diff` is a `u8`.
unfoldable pub diff_from : ℕ → Str → Str → ℕ
diff_from diff (x ∷ a) (y ∷ b) = diff_from (bit_or diff (bit_xor x y)) a b
diff_from diff _ _ = diff

-- `((diff as u16).wrapping_sub(1) >> 8) as u8 & 1`
unfoldable pub choice : ℕ → ℕ
choice diff = (diff + 65535) % 65536 / 256 % 256 % 2

unfoldable pub subtle_eq : Str → Str → Bool
unfolding diff_from choice
subtle_eq a b = if length a == length b then choice (diff_from 0 a b) == 1 else false

-- What is signed: `format!("{}.", ts)`, then the body.
abbrev pub signed_payload : ℤ → Str → Str
signed_payload ts body = show_i64 ts ++ codes "." ++ body

abbrev pub outside_tolerance : ℤ → ℤ → Bool
outside_tolerance now ts = ltb_ℤ (pos 300) (abs_i64 (wrap 64 (now -ℤ ts)))

module _ (hmac : Str → Str → Str) (hex_decode : Str → Option Str) where
  abbrev decoded_matches : Str → Option Str → Bool
  decoded_matches expected none = false
  decoded_matches expected (some bytes) = subtle_eq expected bytes

  -- The loop over the `v1` signatures.
  unfoldable pub matches_any : Str → List Str → Bool
  matches_any expected [] = false
  matches_any expected (sig ∷ sigs) =
      let rest = matches_any expected sigs in
      if decoded_matches expected (hex_decode sig) then true else rest

  abbrev verify_scan : Str → Str → ℤ → Option ℤ → List Str → Verification
  verify_scan whsec body now none sigs = refused (signature (codes "missing timestamp"))
  verify_scan whsec body now (some ts) [] = refused (signature (codes "missing v1 signature"))
  verify_scan whsec body now (some ts) (sig ∷ sigs) =
      if outside_tolerance now ts
      then refused (signature (codes "timestamp outside tolerance"))
      else if matches_any (hmac whsec (signed_payload ts body)) (sig ∷ sigs)
      then verified ts
      else refused (signature (codes "no matching signature"))

  unfoldable pub verify_webhook : Str → Str → Str → ℤ → Verification
  unfolding scan_header matches_any
  verify_webhook whsec header body now =
      let s = scan_header header in verify_scan whsec body now s.ts s.sigs
