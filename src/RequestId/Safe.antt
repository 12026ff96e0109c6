-- ===== src/RequestId/Safe.antt =====
-- Every request carries an id that is safe to log and to send on.
use mizan_connect.Base.{
  ℕ, Str, trim, trim_of, is_whitespace, ◌≡◌, refl, true, false, Option, none, some, [], ◌∷◌, every,
  All, arith, Bool-cases, inl, inr,
}
use mizan_connect.RequestId.{is_safe_id_char, is_usable, extract_or_generate}

safe-visible : (c : ℕ) → is_safe_id_char c ≡ true → is_whitespace c ≡ false
unfolding is_safe_id_char is_whitespace
safe-visible c h = ground arith

visible : (s : Str) → every is_safe_id_char s ≡ true → All (λ c. is_whitespace c ≡ false) s
visible [] h = tt
visible (c ∷ s) h = (safe-visible c (ground arith), visible s (ground arith))

trim_usable : (s : Str) → is_usable s ≡ true → trim s ≡ s
trim_usable s h = trim_of s (visible s (ground arith))

-- Whatever the client sends, the id is not empty, has 64 characters at most, and only letters,
-- digits and `-_.`, provided that the UUID drawn is such a text.
pub extract_or_generate_usable :
    (header : Option Str) (generated : Str)
    → is_usable generated ≡ true
    → is_usable (extract_or_generate header generated) ≡ true
unfolding extract_or_generate
extract_or_generate_usable none generated h = h
extract_or_generate_usable (some header) generated h = elim (Bool-cases (is_usable (trim header))) [
  | inl e ↦ rw (e, e) refl
  | inr e ↦ rw e h
]

passes : (s other : Str) → is_usable s ≡ true → extract_or_generate (some s) other ≡ s
unfolding extract_or_generate
passes s other h = rw (trim_usable s h, h) refl

-- An id passes through a chain of services unchanged: the id that one service puts on the request
-- is the id that the next one reads, whatever UUID that one would draw.
pub extract_or_generate_stable :
    (header : Option Str) (generated other : Str)
    → is_usable generated ≡ true
    → extract_or_generate (some (extract_or_generate header generated)) other
      ≡ extract_or_generate header generated
extract_or_generate_stable header generated other h =
    passes (extract_or_generate header generated) other
      (extract_or_generate_usable header generated h)
