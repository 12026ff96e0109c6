-- ===== src/Billing/Signature/Sound.antt =====
-- What a webhook's signature check accepts, and that it accepts what Stripe signs.
use mizan_connect.Base.{
  subst, ℕ, ◌-◌, ◌^◌, ◌<◌, ℤ, pos, negsuc, ◌-ℤ◌, ◌≤ℤ◌, wrap, abs_i64, InI64, Str, codes, str_eq,
  trim_of, split_on, split_on_none, split_on-append, split_once, show_i64, parse_i64-show_i64,
  show_i64-All, IsNumeral, is_whitespace, ◌≡◌, ◌↔◌, inl, inr, refl, ap, sym, ◌∙◌, true, false,
  Option, none, some, List, [], ◌∷◌, ◌++◌, ◌==◌, All, All-map, Any, arith, Bool-cases, ◌+ℤ◌,
}
use mizan_connect.Billing.Signature.{
  verified, Scan, scan_header, scan_parts, decoded_matches, matches_any, signed_payload,
  outside_tolerance, verify_scan, verify_webhook,
}
use mizan_connect.Billing.Signature.Constant.{IsByte, subtle_eq_iff}

-- The crates' functions, with what the code relies on: they return bytes.
module _ (hmac : Str → Str → Str) (hex_decode : Str → Option Str)
    (hmac_bytes : (key message : Str) → All IsByte (hmac key message))
    (hex_bytes : (text bytes : Str) → hex_decode text ≡ some bytes → All IsByte bytes) where
  abbrev pub Signs : Str → Str → Type 0
  Signs digest sig = hex_decode sig ≡ some digest

  decoded_matches_iff :
      (digest sig : Str) (o : Option Str)
      → All IsByte digest
      → hex_decode sig ≡ o
      → (decoded_matches hmac hex_decode digest o ≡ true) ↔ (o ≡ some digest)
  decoded_matches_iff digest sig none bytes e = (λ h. absurd (cc), λ h. absurd (cc))
  decoded_matches_iff digest sig (some d) bytes e = (
    λ h. ap some (sym ((subtle_eq_iff digest d bytes (hex_bytes sig d e)).0 h)),
    λ h. (subtle_eq_iff digest d bytes (hex_bytes sig d e)).1 (ground arith),
  )

  matches_any_iff :
      (digest : Str) (sigs : List Str)
      → All IsByte digest
      → (matches_any hmac hex_decode digest sigs ≡ true) ↔ Any (Signs digest) sigs
  unfolding matches_any
  matches_any_iff digest [] bytes = (λ h. absurd (cc), λ h. absurd h)
  matches_any_iff digest (sig ∷ sigs) bytes =
      let here = decoded_matches_iff digest sig (hex_decode sig) bytes refl in
      let later = matches_any_iff digest sigs bytes in
      elim (Bool-cases (decoded_matches hmac hex_decode digest (hex_decode sig))) [
        | inl e ↦ rw e (λ _. inl (here.0 e), λ _. refl)
        | inr e ↦ rw e (
          λ h. inr (later.0 h),
          λ h. elim h [ inl s ↦ absurd (cc (here.1 s)) | inr r ↦ later.1 r ],
        )
      ]

  module _ (whsec body : Str) (now ts : ℤ) where
    verify_scan_iff :
        (found : Option ℤ) (sigs : List Str)
        → (verify_scan hmac hex_decode whsec body now found sigs ≡ verified ts) ↔ (
            (found ≡ some ts)
            × (outside_tolerance now ts ≡ false)
            × Any (Signs (hmac whsec (signed_payload ts body))) sigs)
    verify_scan_iff none sigs = (λ h. absurd (cc), λ h. absurd (cc (h.0)))
    verify_scan_iff (some t) [] = (λ h. absurd (cc), λ h. absurd h.2)
    verify_scan_iff (some t) (sig ∷ sigs) =
        let signed =
          matches_any_iff (hmac whsec (signed_payload t body)) (sig ∷ sigs)
            (hmac_bytes whsec (signed_payload t body)) in
        elim (Bool-cases (outside_tolerance now t)) [
          | inl e ↦ rw e (λ h. absurd (cc), λ h. absurd (cc (e, h.0, h.1)))
          | inr e ↦
              rw e
                (elim (Bool-cases
                  (matches_any hmac hex_decode (hmac whsec (signed_payload t body)) (sig ∷ sigs))) [
                    | inl m ↦ rw m (
                      λ h.
                          (let q : t ≡ ts = cc in
                            subst
                              (λ z.
                                (some t ≡ some z)
                                × (outside_tolerance now z ≡ false)
                                × Any (Signs (hmac whsec (signed_payload z body))) (sig ∷ sigs))
                              q (refl, e, signed.0 m)),
                      λ h. (let q : t ≡ ts = cc (h.0) in ap verified q),
                    )
                    | inr m ↦ rw m (
                      λ h. absurd (cc),
                      λ h.
                          (let q : ts ≡ t = cc (h.0) in
                            absurd (
                              cc (
                                m,
                                signed.1 (
                                    subst
                                      (λ z.
                                        Any (Signs (hmac whsec (signed_payload z body)))
                                          (sig ∷ sigs))
                                      q h.2),
                              ))),
                    )
                  ])
        ]

  -- A webhook is accepted, with the time stamp `ts`, exactly when the last `t` of the header reads
  -- as `ts`, it passes the tolerance test, and one of the `v1` signatures is the hex form of the
  -- HMAC, under the webhook secret, of `ts`, a dot and the raw body.
  pub verify_webhook_iff :
      (whsec header body : Str) (now ts : ℤ)
      → (verify_webhook hmac hex_decode whsec header body now ≡ verified ts) ↔ (
          ((scan_header header).ts ≡ some ts)
          × (outside_tolerance now ts ≡ false)
          × Any (Signs (hmac whsec (signed_payload ts body))) (scan_header header).sigs)
  unfolding verify_webhook
  verify_webhook_iff whsec header body now ts =
      verify_scan_iff whsec body now ts (scan_header header).ts (scan_header header).sigs

-- `code::trim` and the splitting of the header that Stripe writes.
abbrev pub stripe_header : ℤ → Str → Str
stripe_header ts sig = codes "t=" ++ (show_i64 ts ++ b',' ∷ (codes "v1=" ++ sig))

-- The character is not one that the parser of the header treats in a special way.
abbrev pub IsPlain : ℕ → Type 0
IsPlain c = ((c == b',') ≡ false) × (is_whitespace c ≡ false)

numeral-IsPlain : (c : ℕ) → IsNumeral c → IsPlain c
unfolding is_whitespace
numeral-IsPlain c h = ground arith

split_stripe_header :
    (ts : ℤ) (sig : Str)
    → All IsPlain sig
    → split_on b',' (stripe_header ts sig) ≡ (codes "t=" ++ show_i64 ts) ∷ (codes "v1=" ++ sig) ∷ []
split_stripe_header ts sig plain =
    split_on-append b',' (codes "t=" ++ show_i64 ts) (codes "v1=" ++ sig)
      (refl, (refl, All-map (show_i64 ts) (λ c p. (numeral-IsPlain c p).0) (show_i64-All ts)))
    ∙ ap (λ r. (codes "t=" ++ show_i64 ts) ∷ r)
        (split_on_none b',' (codes "v1=" ++ sig)
          (refl, (refl, (refl, All-map sig (λ c p. p.0) plain))))

scan_stripe_header :
    (ts : ℤ) (sig : Str)
    → InI64 ts
    → All IsPlain sig
    → scan_header (stripe_header ts sig) ≡ record { ts = some ts; sigs = sig ∷ [] }
unfolding scan_header split_once str_eq
scan_stripe_header ts sig range plain =
    ap (λ parts. scan_parts (record { ts = none; sigs = [] }) parts)
      (split_stripe_header ts sig plain)
    ∙ rw (
      trim_of (show_i64 ts)
          (All-map (show_i64 ts) (λ c p. (numeral-IsPlain c p).1) (show_i64-All ts)),
      trim_of sig (All-map sig (λ c p. p.1) plain),
      parse_i64-show_i64 ts range,
    )

module _ (hmac : Str → Str → Str) (hex_decode : Str → Option Str)
    (hmac_bytes : (key message : Str) → All IsByte (hmac key message))
    (hex_bytes : (text bytes : Str) → hex_decode text ≡ some bytes → All IsByte bytes) where
  -- A webhook that Stripe signed with the shared secret, in its header format, is accepted with its
  -- time stamp inside the tolerance, where the signature is a text without commas and white space
  -- that decodes to the HMAC.
  pub verify_webhook-stripe_header :
      (whsec body sig : Str) (now ts : ℤ)
      → InI64 ts
      → All IsPlain sig
      → hex_decode sig ≡ some (hmac whsec (signed_payload ts body))
      → outside_tolerance now ts ≡ false
      → verify_webhook hmac hex_decode whsec (stripe_header ts sig) body now ≡ verified ts
  verify_webhook-stripe_header whsec body sig now ts range plain signed near =
      let e = scan_stripe_header ts sig range plain in
      (verify_webhook_iff hmac hex_decode hmac_bytes hex_bytes whsec (stripe_header ts sig) body now
          ts).1
        (
          ap (λ s. s.ts) e,
          near,
          subst
              (λ (s : Scan).
                Any (λ g. hex_decode g ≡ some (hmac whsec (signed_payload ts body))) s.sigs)
              (sym e) (inl signed),
        )

-- The tolerance is five minutes to either side, for every pair of instants whose difference and its
-- opposite fit an `i64`.
pub outside_tolerance_iff :
    (now ts : ℤ)
    → InI64 (now -ℤ ts)
    → InI64 (ts -ℤ now)
    → (outside_tolerance now ts ≡ false) ↔ ((now ≤ℤ ts +ℤ pos 300) × (ts ≤ℤ now +ℤ pos 300))
unfolding wrap abs_i64
outside_tolerance_iff now ts h k = ground arith

-- A time stamp `2 ^ 63` seconds before the present is let through: the difference wraps to the least
-- `i64`, its absolute value wraps to itself, and a negative number is not above 300.
pub outside_tolerance_wraps :
    (now : ℕ)
    → 0 < now
    → now < 2 ^ 63
    → outside_tolerance (pos now) (negsuc (2 ^ 63 - now - 1)) ≡ false
unfolding wrap abs_i64
outside_tolerance_wraps now h k = ground arith
