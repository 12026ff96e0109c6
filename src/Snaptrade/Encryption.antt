-- ===== src/Snaptrade/Encryption.antt =====
-- snaptrade/encryption.rs: the secrets of the brokers at rest. AES-256-GCM and UTF-8 are the fields
-- of a `Cipher`; the random nonces are arguments, of the cipher's type of twelve bytes.
pub mod RoundTrip
pub mod Tests
use mizan_connect.Base.{
  ℕ, ◌+◌, Str, codes, str_eq, Bool, true, false, not, Option, none, some, ◌++◌, length, take, drop,
  ltb, ◌==◌, if◌then◌else◌,
}

-- NONCE_LEN
abbrev pub nonce_len : ℕ
nonce_len = 12

-- KEY_LEN
abbrev pub key_len : ℕ
key_len = 32

pub data EncryptionError : Type 0 where
  invalid_key_length : ℕ → EncryptionError
  encrypt_failed decrypt_failed self_test_failed plaintext_not_utf8 : EncryptionError
  blob_too_short : ℕ → EncryptionError

-- `Result<_, EncryptionError>`
pub data Outcome (A : Type 0) : Type 0 where
  done : A → Outcome A
  failed : EncryptionError → Outcome A

pub record Cipher : Type 0 where
  -- The key, the nonce and the plaintext give the ciphertext with its tag, or nothing.
  pub encrypt_bytes : Str → Str → Str → Option Str
  pub decrypt_bytes : Str → Str → Str → Option Str
  pub as_bytes : Str → Str
  pub from_utf8 : Str → Option Str

unfoldable pub from_bytes : Str → Outcome Str
from_bytes bytes =
    if length bytes == key_len then done bytes else failed (invalid_key_length (length bytes))

module _ (cipher : Cipher) (key : Str) where
  abbrev blob_of : Str → Option Str → Outcome Str
  blob_of nonce none = failed encrypt_failed
  blob_of nonce (some ciphertext) = done (nonce ++ ciphertext)

  unfoldable pub encrypt : Str → Str → Outcome Str
  encrypt nonce plaintext =
      blob_of nonce (cipher.encrypt_bytes key nonce (cipher.as_bytes plaintext))

  abbrev text_of : Option Str → Outcome Str
  text_of none = failed plaintext_not_utf8
  text_of (some s) = done s

  abbrev plaintext_of : Option Str → Outcome Str
  plaintext_of none = failed decrypt_failed
  plaintext_of (some bytes) = text_of (cipher.from_utf8 bytes)

  unfoldable pub decrypt : Str → Outcome Str
  decrypt blob =
      if ltb (length blob) (nonce_len + 16)
      then failed (blob_too_short (length blob))
      else plaintext_of (cipher.decrypt_bytes key (take nonce_len blob) (drop nonce_len blob))

  abbrev and_then : {A B : Type 0} → Outcome A → (A → Outcome B) → Outcome B
  and_then (done a) f = f a
  and_then (failed e) f = failed e

  abbrev pub probe : Str
  probe = codes "mizan-encryption-self-test"

  abbrev differs : Str → Str → Outcome (Unit {0})
  differs blob blob2 = if str_eq blob blob2 then failed self_test_failed else done tt

  abbrev compares : Str → Str → Str → Outcome (Unit {0})
  compares nonce2 blob decrypted =
      if not (str_eq decrypted probe)
      then failed self_test_failed
      else and_then (encrypt nonce2 probe) (differs blob)

  -- The nonces of the two encryptions.
  unfoldable pub self_test : Str → Str → Outcome (Unit {0})
  self_test nonce nonce2 =
      and_then (encrypt nonce probe) λ blob. and_then (decrypt blob) (compares nonce2 blob)
