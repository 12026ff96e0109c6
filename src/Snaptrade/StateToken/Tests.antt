-- ===== src/Snaptrade/StateToken/Tests.antt =====
-- A stand-in for the tokens of `jsonwebtoken`: the numbers of the claims, and the secret itself.
use mizan_connect.Base.{
  ◌≤◌, ◌↔◌, ℕ, ◌+◌, Str, str_eq, str_eq_sound, str_eq_iff, Bool, true, ◌&&◌, ◌||◌, not, ◌≡◌, refl,
  sym, ap, inl, inr, Option, none, some, List, [], ◌∷◌, Any, exists, leb, arith, if◌then◌else◌, ◌∙◌,
  Bool-cases, subst, false,
}
use mizan_connect.Error.{ok}
use mizan_connect.Snaptrade.StateToken.{
  StateClaims, Validation, Jwt, Accepts, IsJwt, issuer, claims_for, issue, verify, is_absent,
}
use mizan_connect.Snaptrade.StateToken.Bound.{verify-issue}

abbrev encode : Str → StateClaims → Option Str
encode secret c =
    if str_eq c.iss issuer then some (c.sub ∷ c.nonce ∷ c.iat ∷ c.exp ∷ secret) else none

abbrev lists : List Str → Bool
lists issuers = exists (λ i. str_eq issuer i) issuers

abbrev in_time : Validation → ℕ → ℕ → Bool
in_time v now exp = not v.validate_exp || leb now (exp + v.leeway)

abbrev has_required : Validation → Bool
has_required v = not (exists is_absent v.required_spec_claims)

abbrev decode : Str → Validation → ℕ → Str → Option StateClaims
decode secret v now (sub ∷ nonce ∷ iat ∷ exp ∷ key) =
    if str_eq key secret && lists v.issuers && has_required v && in_time v now exp
    then some (record { sub = sub; nonce = nonce; iss = issuer; exp = exp; iat = iat })
    else none
decode secret v now _ = none

abbrev jwt : Jwt
jwt = record { encode = encode; decode = decode }

lists_sound : (is : List Str) → lists is ≡ true → Any (λ i. issuer ≡ i) is
lists_sound [] h = absurd (cc)
lists_sound (i ∷ is) h =
    let ih = lists_sound is in
    let e = str_eq_sound issuer i in
    elim (Bool-cases (str_eq issuer i)) [
      | inl same ↦ inl (e same)
      | inr other ↦ inr (ih (ground arith))
    ]

lists_complete : (is : List Str) (s : Str) → s ≡ issuer → Any (λ i. s ≡ i) is → lists is ≡ true
lists_complete [] s e h = absurd (h)
lists_complete (i ∷ is) s e (inl h) = let k = (str_eq_iff issuer i).1 (sym e ∙ h) in rw k refl
lists_complete (i ∷ is) s e (inr h) = let k = lists_complete is s e h in ground arith

sound :
    (secret : Str) (v : Validation) (now : ℕ) (token : Str) (c : StateClaims)
    → decode secret v now token ≡ some c
    → Accepts v now c
unfolding str_eq
sound secret v now (sub ∷ nonce ∷ iat ∷ exp ∷ key) c h =
    let made : StateClaims = record {
      sub = sub;
      nonce = nonce;
      iss = issuer;
      exp = exp;
      iat = iat;
    } in
    let tests : (str_eq key secret ≡ true)
        × (lists v.issuers ≡ true)
        × (exists is_absent v.required_spec_claims ≡ false)
        × (in_time v now exp ≡ true) =
      ground arith in
    let (is_key, is_listed, is_required, is_fresh) = tests in
    let is_made : made ≡ c = ground arith in
    subst (Accepts v now) is_made (lists_sound v.issuers is_listed, is_required, λ on. ground arith)
sound secret v now _ c h = absurd (cc)

complete :
    (secret : Str) (v : Validation) (now : ℕ) (token : Str) (c : StateClaims)
    → encode secret c ≡ some token
    → Accepts v now c
    → decode secret v now token ≡ some c
complete secret v now token c h (listed, required, fresh) =
    let is_issuer : str_eq c.iss issuer ≡ true = ground arith in
    let token_is : (c.sub ∷ c.nonce ∷ c.iat ∷ c.exp ∷ secret) ≡ token = ground arith in
    let e : c.iss ≡ issuer = str_eq_sound c.iss issuer is_issuer in
    let key_is : str_eq secret secret ≡ true = (str_eq_iff secret secret).1 refl in
    let listed_is : lists v.issuers ≡ true = lists_complete v.issuers c.iss e listed in
    let fresh_is : in_time v now c.exp ≡ true = ground arith in
    subst (λ t. decode secret v now t ≡ some c) token_is
      (rw key_is (
        rw listed_is
          (rw required (rw fresh_is (ap (λ (i : Str). some (record c { iss = i })) (sym e))))))

jwt-IsJwt : IsJwt jwt
jwt-IsJwt = record { sound = sound; complete = complete }

verify-issue_example :
    (verify jwt (1 ∷ []) 600 (7 ∷ 5 ∷ 0 ∷ 600 ∷ 1 ∷ []) ≡ ok (claims_for 0 5 7)) ↔ (600 ≤ 630)
unfolding issue str_eq
verify-issue_example = verify-issue jwt jwt-IsJwt (1 ∷ []) 0 5 7 600 (7 ∷ 5 ∷ 0 ∷ 600 ∷ 1 ∷ []) refl
