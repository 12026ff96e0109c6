-- ===== src/Snaptrade/Encryption/Tests.antt =====
-- A stand-in for the cipher: the text and a tag of 16 zeros.
use mizan_connect.Base.{
  ℕ, ◌+◌, ◌-◌, Str, ◌≡◌, ◌≢◌, refl, ap, subst, some, [], ◌∷◌, ◌++◌, length, length-append, take,
  arith,
}
use mizan_connect.Snaptrade.Encryption.{Cipher, done, encrypt, decrypt, probe}
use mizan_connect.Snaptrade.Encryption.RoundTrip.{IsCipher, take-append, decrypt-encrypt}

abbrev pub tag : Str
tag = 0 ∷ 0 ∷ 0 ∷ 0 ∷ 0 ∷ 0 ∷ 0 ∷ 0 ∷ 0 ∷ 0 ∷ 0 ∷ 0 ∷ 0 ∷ 0 ∷ 0 ∷ 0 ∷ []

abbrev pub toy : Cipher
toy = record {
  encrypt_bytes = λ key nonce plaintext. some (plaintext ++ tag);
  decrypt_bytes = λ key nonce ciphertext. some (take (length ciphertext - 16) ciphertext);
  as_bytes = λ s. s;
  from_utf8 = λ s. some s;
}

opens :
    (plaintext ciphertext : Str)
    → some (plaintext ++ tag) ≡ some ciphertext
    → some (take (length ciphertext - 16) ciphertext) ≡ some plaintext
opens plaintext ciphertext e =
    let same : plaintext ++ tag ≡ ciphertext = cc e in
    subst (λ c. some (take (length c - 16) c) ≡ some plaintext) same
      (ap some (
        take-append (length (plaintext ++ tag) - 16) plaintext tag
          (omega (arith, length-append plaintext tag))))

tagged :
    (plaintext ciphertext : Str)
    → some (plaintext ++ tag) ≡ some ciphertext
    → length ciphertext ≡ length plaintext + 16
tagged plaintext ciphertext e =
    let same : plaintext ++ tag ≡ ciphertext = cc e in
    subst (λ c. length c ≡ length plaintext + 16) same (length-append plaintext tag)

pub toy-IsCipher : IsCipher toy
toy-IsCipher = record {
  opens = λ key nonce plaintext ciphertext e. opens plaintext ciphertext e;
  tagged = λ key nonce plaintext ciphertext e. tagged plaintext ciphertext e;
  text = λ s. refl;
}

abbrev pub key : Str
key = 7 ∷ []

abbrev pub nonce : Str
nonce = 1 ∷ 2 ∷ 3 ∷ 4 ∷ 5 ∷ 6 ∷ 7 ∷ 8 ∷ 9 ∷ 10 ∷ 11 ∷ 12 ∷ []

abbrev nonce2 : Str
nonce2 = 9 ∷ 2 ∷ 3 ∷ 4 ∷ 5 ∷ 6 ∷ 7 ∷ 8 ∷ 9 ∷ 10 ∷ 11 ∷ 12 ∷ []

abbrev secret : Str
secret = 104 ∷ 105 ∷ []

sealed : encrypt toy key nonce secret ≡ done (nonce ++ secret ++ tag)
unfolding encrypt
sealed = refl

decrypt-encrypt_example : decrypt toy key (nonce ++ secret ++ tag) ≡ done secret
decrypt-encrypt_example =
    decrypt-encrypt toy toy-IsCipher key nonce secret (nonce ++ secret ++ tag) refl sealed

abbrev initial : Str → ℕ
initial [] = 0
initial (c ∷ s) = c

apart : nonce ≢ nonce2
apart e = omega (arith, ap initial e)

probe_sealed : encrypt toy key nonce (probe toy key) ≡ done (nonce ++ probe toy key ++ tag)
unfolding encrypt
probe_sealed = refl

probe_sealed2 : encrypt toy key nonce2 (probe toy key) ≡ done (nonce2 ++ probe toy key ++ tag)
unfolding encrypt
probe_sealed2 = refl
