-- ===== src/Billing/Signature/Tests.antt =====
-- The Stripe-Signature header on concrete inputs, with a stand-in for HMAC and for hex decoding.
use mizan_connect.Base.{
  trim, parse_i64, str_eq, split_once, split_on, ◌-◌, ◌^◌, pos, negsuc, wrap, abs_i64, ltb, keep,
  ◌≡◌, ◌↔◌, refl, Str, codes, false, Option, some, [], ◌∷◌, Any, All, arith, Bool-cases,
  is_whitespace, inl, inr, ltb→lt, subst,
}
use mizan_connect.Billing.Signature.{
  verified, verify_webhook, scan_header, outside_tolerance, signed_payload,
}
use mizan_connect.Billing.Signature.Constant.{IsByte}
use mizan_connect.Billing.Signature.Sound.{
  Signs, IsPlain, stripe_header, verify_webhook_iff, verify_webhook-stripe_header,
  outside_tolerance_wraps,
}

-- The key and the message, their codes as bytes.
abbrev toy_hmac : Str → Str → Str
toy_hmac key message = keep (λ c. ltb c 256) key

abbrev toy_decode : Str → Option Str
toy_decode text = some (keep (λ c. ltb c 256) text)

keep-IsByte : (s : Str) → All IsByte (keep (λ c. ltb c 256) s)
keep-IsByte [] = tt
keep-IsByte (c ∷ s) = elim (Bool-cases (ltb c 256)) [
  | inl e ↦ rw e (ltb→lt c 256 e, keep-IsByte s)
  | inr e ↦ rw e (keep-IsByte s)
]

hmac_bytes : (key message : Str) → All IsByte (toy_hmac key message)
hmac_bytes key message = keep-IsByte key

decode_bytes : (text bytes : Str) → toy_decode text ≡ some bytes → All IsByte bytes
decode_bytes text bytes e = subst (All IsByte) (cc e) (keep-IsByte text)

abbrev two_bytes : Str
two_bytes = 1 ∷ 2 ∷ []

abbrev other_bytes : Str
other_bytes = 1 ∷ 3 ∷ []

verify_webhook_iff_example :
    (verify_webhook toy_hmac toy_decode (codes "ab") (codes "t=100,v1=ab") (codes "{}") (pos 150)
      ≡ verified (pos 100))
    ↔ (((scan_header (codes "t=100,v1=ab")).ts ≡ some (pos 100))
        × (outside_tolerance (pos 150) (pos 100) ≡ false)
        × Any
            (Signs toy_hmac toy_decode hmac_bytes decode_bytes
              (toy_hmac (codes "ab") (signed_payload (pos 100) (codes "{}"))))
            (scan_header (codes "t=100,v1=ab")).sigs)
verify_webhook_iff_example =
    verify_webhook_iff toy_hmac toy_decode hmac_bytes decode_bytes (codes "ab")
      (codes "t=100,v1=ab") (codes "{}") (pos 150) (pos 100)

plain : All IsPlain (codes "ab")
unfolding is_whitespace
plain = ((refl, refl), ((refl, refl), tt))

inside : outside_tolerance (pos 150) (pos 100) ≡ false
unfolding wrap abs_i64
inside = refl

verify_webhook-stripe_header_example :
    verify_webhook toy_hmac toy_decode
      (codes "ab")
      (stripe_header (pos 100) (codes "ab"))
      (codes "{}")
      (pos 150)
    ≡ verified (pos 100)
verify_webhook-stripe_header_example =
    verify_webhook-stripe_header toy_hmac toy_decode hmac_bytes decode_bytes (codes "ab")
      (codes "{}") (codes "ab") (pos 150) (pos 100) (omega arith) plain refl inside

outside_tolerance_wraps_example :
    outside_tolerance (pos 1_790_000_000) (negsuc (2 ^ 63 - 1_790_000_000 - 1)) ≡ false
outside_tolerance_wraps_example = outside_tolerance_wraps 1_790_000_000 (omega arith) (omega arith)

-- Only the scheme `v1` counts, and each of its signatures does.
mixed_header :
    scan_header (codes "t=5,v0=aa,v1=bb,v1=cc")
    ≡ record { ts = some (pos 5); sigs = codes "bb" ∷ codes "cc" ∷ [] }
unfolding scan_header split_on split_once str_eq parse_i64 trim
mixed_header = refl
