-- ===== src/Snaptrade/StateToken/Bound.antt =====
-- snaptrade/state_token.rs: a token names the user it was issued for, and for how long.
use mizan_connect.Base.{
  ◌↔◌, ℕ, ◌+◌, ◌≤◌, Str, codes, Option, none, some, ◌≡◌, refl, inl, inr, ap, arith, ◌⊎◌, str_eq,
}
use mizan_connect.Error.{AppError, app_error, bad_request, ok, ok_or}
use mizan_connect.Snaptrade.StateToken.{
  issuer, StateClaims, Jwt, IsJwt, claims_for, issue, validation, verify,
}

some_of : {A : Type 0} (e : AppError) (o : Option A) (a : A) → ok_or e o ≡ ok a → o ≡ some a
some_of e none a h = absurd (cc)
some_of e (some b) a h = ap some (cc h)

module _ (jwt : Jwt) (promises : IsJwt jwt) (secret : Str) where
  -- A token that was issued is accepted exactly for its 10 minutes and the leeway of 30 seconds, and
  -- names the user it was issued for.
  pub verify-issue :
      (now nonce user_id later : ℕ) (token : Str)
      → issue jwt secret now nonce user_id ≡ ok token
      → (verify jwt secret later token ≡ ok (claims_for now nonce user_id)) ↔ (later ≤ now + 630)
  unfolding issue verify str_eq
  verify-issue now nonce user_id later token issued = (
    λ accepted.
        let c = claims_for now nonce user_id in
        let (_, _, in_time) =
          promises.sound secret validation later token c (some_of _ _ c accepted) in
        omega (arith, in_time refl),
    λ in_time. ap (ok_or (app_error bad_request (codes "invalid state token"))) (
        promises.complete secret validation later token (claims_for now nonce user_id)
          (some_of _ _ token issued) (inl refl, refl, λ _. omega (arith, in_time))),
  )

  -- Whatever is accepted carries the issuer, and has expired 30 seconds ago at most.
  pub verify_sound :
      (now : ℕ) (token : Str) (c : StateClaims)
      → verify jwt secret now token ≡ ok c
      → (c.iss ≡ issuer) × (now ≤ c.exp + 30)
  unfolding verify
  verify_sound now token c h =
      let (listed, _, in_time) = promises.sound secret validation now token c (some_of _ _ c h) in
      (only listed, in_time refl)
    where
      only : (c.iss ≡ issuer) ⊎ ⊥ → c.iss ≡ issuer
      only (inl e) = e
      only (inr n) = absurd n
