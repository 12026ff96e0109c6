-- ===== src/Snaptrade/Encryption/RoundTrip.antt =====
-- What was encrypted is decrypted, and the test at startup passes.
use mizan_connect.Base.{
  ℕ, zero, suc, ◌+◌, ◌≤◌, Str, str_eq, str_eq_refl, str_eq_sound, ◌≡◌, ◌≢◌, refl, sym, ap, ◌∙◌,
  subst, false, not, Option, none, some, [], ◌∷◌, ◌++◌, length, length-append, take, drop, ltb,
  arith, if◌then◌else◌, Bool-cases, inl, inr,
}
use mizan_connect.Snaptrade.Encryption.{
  nonce_len, Cipher, done, failed, encrypt, decrypt, self_test, self_test_failed, probe, blob_of,
  text_of, plaintext_of, and_then, compares, differs,
}

-- What AES-256-GCM and UTF-8 promise.
pub record IsCipher (cipher : Cipher) : Type 0 where
  pub opens :
      (key nonce plaintext ciphertext : Str)
      → cipher.encrypt_bytes key nonce plaintext ≡ some ciphertext
      → cipher.decrypt_bytes key nonce ciphertext ≡ some plaintext
  pub tagged :
      (key nonce plaintext ciphertext : Str)
      → cipher.encrypt_bytes key nonce plaintext ≡ some ciphertext
      → length ciphertext ≡ length plaintext + 16
  pub text : (s : Str) → cipher.from_utf8 (cipher.as_bytes s) ≡ some s

pub take-append : (n : ℕ) (s t : Str) → length s ≡ n → take n (s ++ t) ≡ s
take-append zero [] t e = refl
take-append zero (c ∷ s) t e = absurd (omega (arith, e))
take-append (suc n) [] t e = absurd (omega (arith, e))
take-append (suc n) (c ∷ s) t e = ap (λ r. c ∷ r) (take-append n s t (omega (arith, e)))

drop-append : (n : ℕ) (s t : Str) → length s ≡ n → drop n (s ++ t) ≡ t
drop-append zero [] t e = refl
drop-append zero (c ∷ s) t e = absurd (omega (arith, e))
drop-append (suc n) [] t e = absurd (omega (arith, e))
drop-append (suc n) (c ∷ s) t e = drop-append n s t (omega (arith, e))

module _ (cipher : Cipher) (laws : IsCipher cipher) (key : Str) where
  blob_parts :
      (nonce : Str) (o : Option Str) (blob : Str)
      → blob_of cipher key nonce o ≡ done blob
      → (c : Str) × (o ≡ some c) × (blob ≡ nonce ++ c)
  blob_parts nonce none blob h = absurd (cc)
  blob_parts nonce (some c) blob h = (c, refl, sym (cc h))

  decrypt_parts :
      (nonce plaintext c : Str)
      → length nonce ≡ nonce_len
      → cipher.encrypt_bytes key nonce (cipher.as_bytes plaintext) ≡ some c
      → decrypt cipher key (nonce ++ c) ≡ done plaintext
  unfolding decrypt
  decrypt_parts nonce plaintext c n e =
      let long : ltb (length (nonce ++ c)) (nonce_len + 16) ≡ false = big (length (nonce ++ c)) (
        omega (
          arith,
          length-append nonce c,
          n,
          laws.tagged key nonce (cipher.as_bytes plaintext) c e,
        )) in
      rw long (
        ap (λ x. plaintext_of cipher key (cipher.decrypt_bytes key x (drop nonce_len (nonce ++ c))))
          (take-append nonce_len nonce c n)
        ∙ ap (λ x. plaintext_of cipher key (cipher.decrypt_bytes key nonce x))
            (drop-append nonce_len nonce c n)
        ∙ ap (plaintext_of cipher key) (laws.opens key nonce (cipher.as_bytes plaintext) c e)
        ∙ ap (text_of cipher key) (laws.text plaintext))
    where
      big : (n : ℕ) → nonce_len + 16 ≤ n → ltb n (nonce_len + 16) ≡ false
      big n h = ground arith

  -- A secret that is stored is read back. With a cipher that opens what it has sealed and adds a
  -- tag of 16 bytes, and a nonce of 12 bytes, the blob that `encrypt` makes of a text is decrypted
  -- under the same key to that text.
  pub decrypt-encrypt :
      (nonce plaintext blob : Str)
      → length nonce ≡ nonce_len
      → encrypt cipher key nonce plaintext ≡ done blob
      → decrypt cipher key blob ≡ done plaintext
  unfolding encrypt
  decrypt-encrypt nonce plaintext blob n h =
      let (c, e, is) =
        blob_parts nonce (cipher.encrypt_bytes key nonce (cipher.as_bytes plaintext)) blob h in
      subst (λ b. decrypt cipher key b ≡ done plaintext) (sym is)
        (decrypt_parts nonce plaintext c n e)

  nonce_of_blob :
      (nonce plaintext blob : Str)
      → length nonce ≡ nonce_len
      → encrypt cipher key nonce plaintext ≡ done blob
      → take nonce_len blob ≡ nonce
  unfolding encrypt
  nonce_of_blob nonce plaintext blob n h =
      let (c, e, is) =
        blob_parts nonce (cipher.encrypt_bytes key nonce (cipher.as_bytes plaintext)) blob h in
      ap (take nonce_len) is ∙ take-append nonce_len nonce c n

  compares_passes :
      (nonce2 blob blob2 : Str)
      → encrypt cipher key nonce2 (probe cipher key) ≡ done blob2
      → str_eq blob blob2 ≡ false
      → compares cipher key nonce2 blob (probe cipher key) ≡ done tt
  compares_passes nonce2 blob blob2 e apart =
      ap
        (λ b.
          if not b
          then failed self_test_failed
          else and_then cipher key (encrypt cipher key nonce2 (probe cipher key))
              (differs cipher key blob))
        (str_eq_refl (probe cipher key))
      ∙ ap (λ x. and_then cipher key x (differs cipher key blob)) e
      ∙ ap (λ b. if b then failed self_test_failed else done tt) apart

  blobs_differ :
      (nonce nonce2 plaintext blob blob2 : Str)
      → length nonce ≡ nonce_len
      → length nonce2 ≡ nonce_len
      → nonce ≢ nonce2
      → encrypt cipher key nonce plaintext ≡ done blob
      → encrypt cipher key nonce2 plaintext ≡ done blob2
      → str_eq blob blob2 ≡ false
  blobs_differ nonce nonce2 plaintext blob blob2 n n2 apart e e2 =
      elim (Bool-cases (str_eq blob blob2)) [
        | inl same ↦ absurd (
            apart (
              sym (nonce_of_blob nonce plaintext blob n e)
              ∙ ap (take nonce_len) (str_eq_sound blob blob2 same)
              ∙ nonce_of_blob nonce2 plaintext blob2 n2 e2))
        | inr differ ↦ differ
      ]

  -- The test at startup passes: with such a cipher, two different nonces of 12 bytes and both
  -- encryptions successful, `self_test` succeeds, so a failure of it shows a broken cipher or a
  -- repeated nonce.
  pub self_test_passes :
      (nonce nonce2 blob blob2 : Str)
      → length nonce ≡ nonce_len
      → length nonce2 ≡ nonce_len
      → nonce ≢ nonce2
      → encrypt cipher key nonce (probe cipher key) ≡ done blob
      → encrypt cipher key nonce2 (probe cipher key) ≡ done blob2
      → self_test cipher key nonce nonce2 ≡ done tt
  unfolding self_test
  self_test_passes nonce nonce2 blob blob2 n n2 apart e e2 =
      let opened = decrypt-encrypt nonce (probe cipher key) blob n e in
      ap
        (λ x.
          and_then cipher key x
            (λ b. and_then cipher key (decrypt cipher key b) (compares cipher key nonce2 b)))
        e
      ∙ ap (λ x. and_then cipher key x (compares cipher key nonce2 blob)) opened
      ∙ compares_passes nonce2 blob blob2 e2
          (blobs_differ nonce nonce2 (probe cipher key) blob blob2 n n2 apart e e2)
