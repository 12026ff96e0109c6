-- ===== src/Snaptrade/Client/Query.antt =====
-- snaptrade/client.rs: a query string says which parameters it was built from.
use mathlib.Core.List.{append_assoc}
use mizan_connect.Base.{
  ℕ, Str, ◌≡◌, ◌≢◌, refl, sym, ap, ◌∙◌, List, [], ◌∷◌, ◌++◌, All, Option, codes,
}
use mizan_connect.Json.{Value}
use mizan_connect.Snaptrade.Signing.{content, canonical_request_json, canonical_request_json-Same}
use mizan_connect.Snaptrade.Client.{
  pair_text, more_pairs, build_query_string, SnaptradeClient, Value, sign_input, full_signing_path,
  all_params,
}

-- What the encoding of the `url` crate promises: it mixes up no two texts, and what it writes holds
-- no separator.
pub record IsEncoding (byte_serialize : Str → Str) : Type 0 where
  pub injective : (s t : Str) → byte_serialize s ≡ byte_serialize t → s ≡ t
  pub no_ampersand : (s : Str) → All (λ c. c ≢ b'&') (byte_serialize s)
  pub no_equals : (s : Str) → All (λ c. c ≢ b'=') (byte_serialize s)

-- Nothing, or something that starts with `c`.
abbrev IsTail : ℕ → Str → Type 0
IsTail c [] = Unit
IsTail c (d ∷ s) = d ≡ c

-- A text without `c` is cut off at the first `c`.
cut :
    (c : ℕ) (u v r s : Str)
    → All (λ d. d ≢ c) u
    → All (λ d. d ≢ c) v
    → IsTail c r
    → IsTail c s
    → u ++ r ≡ v ++ s
    → (u ≡ v) × (r ≡ s)
cut c [] [] r s hu hv hr hs h = (refl, h)
cut c [] (d ∷ v) [] s hu hv hr hs h = absurd (cc)
cut c [] (d ∷ v) (e ∷ r) s hu (n, hv) hr hs h = absurd (n (cc))
cut c (d ∷ u) [] r [] hu hv hr hs h = absurd (cc)
cut c (d ∷ u) [] r (e ∷ s) (n, hu) hv hr hs h = absurd (n (cc))
cut c (d ∷ u) (e ∷ v) r s (n, hu) (m, hv) hr hs h =
    let (same, rest) = cut c u v r s hu hv hr hs (cc h) in (cc, rest)

module _ (byte_serialize : Str → Str) (encoding : IsEncoding byte_serialize) where
  IsTail-of : (ps : List (Str × Str)) → IsTail b'&' (more_pairs byte_serialize ps)
  IsTail-of [] = tt
  IsTail-of (p ∷ ps) = refl

  pair_then :
      (p : Str × Str) (s : Str)
      → pair_text byte_serialize p ++ s ≡ byte_serialize p.0 ++ b'=' ∷ (byte_serialize p.1 ++ s)
  pair_then p s = append_assoc (byte_serialize p.0) (b'=' ∷ byte_serialize p.1) s

  first_pair :
      (p q : Str × Str) (ps qs : List (Str × Str))
      → pair_text byte_serialize p ++ more_pairs byte_serialize ps
        ≡ pair_text byte_serialize q ++ more_pairs byte_serialize qs
      → (p ≡ q) × (more_pairs byte_serialize ps ≡ more_pairs byte_serialize qs)
  first_pair p q ps qs h =
      let rp = more_pairs byte_serialize ps in
      let rq = more_pairs byte_serialize qs in
      let (keys, rest) =
        cut b'=' (byte_serialize p.0) (byte_serialize q.0) (b'=' ∷ (byte_serialize p.1 ++ rp))
          (b'=' ∷ (byte_serialize q.1 ++ rq)) (encoding.no_equals p.0) (encoding.no_equals q.0) refl
          refl (sym (pair_then p rp) ∙ h ∙ pair_then q rq) in
      let (values, more) =
        cut b'&' (byte_serialize p.1) (byte_serialize q.1) rp rq (encoding.no_ampersand p.1)
          (encoding.no_ampersand q.1) (IsTail-of ps) (IsTail-of qs) (cc rest) in
      let k = encoding.injective p.0 q.0 keys in
      let v = encoding.injective p.1 q.1 values in
      (ap (λ x. (x, p.1)) k ∙ ap (λ y. (q.0, y)) v, more)

  more_same :
      (ps qs : List (Str × Str))
      → more_pairs byte_serialize ps ≡ more_pairs byte_serialize qs
      → ps ≡ qs
  more_same [] [] h = refl
  more_same [] (q ∷ qs) h = absurd (cc)
  more_same (p ∷ ps) [] h = absurd (cc)
  more_same (p ∷ ps) (q ∷ qs) h =
      let (e, more) = first_pair p q ps qs (cc h) in
      ap (λ x. x ∷ ps) e ∙ ap (λ xs. q ∷ xs) (more_same ps qs more)

  not_empty :
      (p : Str × Str) (ps : List (Str × Str))
      → pair_text byte_serialize p ++ more_pairs byte_serialize ps ≢ []
  not_empty p ps h =
      let e = sym (pair_then p (more_pairs byte_serialize ps)) ∙ h in
      go (byte_serialize p.0) (byte_serialize p.1 ++ more_pairs byte_serialize ps) e
    where
      go : (s t : Str) → s ++ b'=' ∷ t ≢ []
      go [] t h = cc h
      go (c ∷ s) t h = cc h

  -- A query string has one reading: two lists of parameters with one query string are one list,
  -- with an encoding that mixes up no two texts and writes neither `&` nor `=`.
  pub build_query_string_same :
      (ps qs : List (Str × Str))
      → build_query_string byte_serialize ps ≡ build_query_string byte_serialize qs
      → ps ≡ qs
  unfolding build_query_string
  build_query_string_same [] [] h = refl
  build_query_string_same [] (q ∷ qs) h = absurd (not_empty q qs (sym h))
  build_query_string_same (p ∷ ps) [] h = absurd (not_empty p ps h)
  build_query_string_same (p ∷ ps) (q ∷ qs) h =
      let (e, more) = first_pair p q ps qs h in
      ap (λ x. x ∷ ps) e ∙ ap (λ xs. q ∷ xs) (more_same ps qs more)

not_snoc : {A : Type 0} (xs : List A) (a : A) (rest : List A) → xs ++ a ∷ rest ≢ []
not_snoc [] a rest h = cc h
not_snoc (x ∷ xs) a rest h = cc h

-- The two parameters that every request ends with.
same_front :
    {A : Type 0} (xs ys : List A) (a b c d : A)
    → xs ++ a ∷ b ∷ [] ≡ ys ++ c ∷ d ∷ []
    → (xs ≡ ys) × (b ≡ d)
same_front [] [] a b c d h = (refl, cc h)
same_front [] (y ∷ []) a b c d h = absurd (cc)
same_front [] (y ∷ z ∷ ys) a b c d h = absurd (not_snoc ys c (d ∷ []) (cc h))
same_front (x ∷ []) [] a b c d h = absurd (cc)
same_front (x ∷ z ∷ xs) [] a b c d h = absurd (not_snoc xs a (b ∷ []) (cc h))
same_front (x ∷ xs) (y ∷ ys) a b c d h =
    let (e, last) = same_front xs ys a b c d (cc h) in (cc, last)

module _ (client : SnaptradeClient) (encoding : IsEncoding client.byte_serialize) where
  -- What a request signs says what it asks for: with such an encoding and a `to_string` of JSON
  -- values and one of numbers that print no two alike, two requests of one client whose signed
  -- texts agree have the same parameters, the same timestamp, the same path to sign and the same
  -- content.
  pub signed_text_same :
      (now now2 : ℕ) (path path2 : Str) (params params2 : List (Str × Str))
      (body body2 : Option Value)
      → ((v w : Value) → client.signer.to_string v ≡ client.signer.to_string w → v ≡ w)
      → ((m n : ℕ) → client.to_string m ≡ client.to_string n → m ≡ n)
      → canonical_request_json client.signer (sign_input client now path params body)
        ≡ canonical_request_json client.signer (sign_input client now2 path2 params2 body2)
      → (params ≡ params2)
        × (now ≡ now2)
        × (full_signing_path path ≡ full_signing_path path2)
        × (content body ≡ content body2)
  signed_text_same now now2 path path2 params params2 body body2 print digits h =
      let (same_content, same_path, same_query) =
        canonical_request_json-Same client.signer (sign_input client now path params body)
          (sign_input client now2 path2 params2 body2) print h in
      let all =
        build_query_string_same client.byte_serialize encoding (all_params client now params)
          (all_params client now2 params2) same_query in
      let (same_params, stamp) =
        same_front params params2 (codes "clientId", client.client_id)
          (codes "timestamp", client.to_string now) (codes "clientId", client.client_id)
          (codes "timestamp", client.to_string now2) all in
      (same_params, digits now now2 (ap (λ p. p.1) stamp), same_path, same_content)
