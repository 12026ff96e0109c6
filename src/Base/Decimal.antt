-- ===== src/Base/Decimal.antt =====
-- Numbers as text: `str::split`, `str::parse::<i64>` and `format!("{}", n)` of Rust's standard
-- library.
use mathlib.Core.Path.{◌≡◌, refl, ◌∙◌}
use mathlib.Core.Bool.{Bool, true, false, ◌&&◌}
use mathlib.Core.Option.{Option, none, some}
use mathlib.Core.List.{List, [], ◌∷◌, ◌++◌}
use Prim.Native.Nat.{ℕ, zero, suc, ◌+◌, ◌-◌, ◌*◌, ◌/◌, ◌%◌, ◌^◌, ◌<◌}
use native.Mathlib.Omega.{arith}
use native.Mathlib.Nat.{pow-suc}
use mathlib.Core.Logic.{◌⊎◌, inl, inr}
use mizan_connect.Base.Lists.{All}
use mizan_connect.Base.Tests.{Bool-cases, ltb, leb, ◌==◌, if◌then◌else◌}
use mizan_connect.Base.Text.{Str}
use mizan_connect.Base.Int.{ℤ, pos, negsuc}

-- `str::split` on one character: the parts between its occurrences, one at least.
abbrev cons_head : ℕ → List Str → List Str
cons_head c [] = (c ∷ []) ∷ []
cons_head c (part ∷ parts) = (c ∷ part) ∷ parts

unfoldable pub split_on : ℕ → Str → List Str
split_on sep [] = [] ∷ []
split_on sep (c ∷ s) = let rest = split_on sep s in if c == sep then [] ∷ rest else cons_head c rest

-- `splitn(2, sep)` where it gives two parts.
abbrev cons_first : ℕ → Option (Str × Str) → Option (Str × Str)
cons_first c none = none
cons_first c (some (k, v)) = some (c ∷ k, v)

unfoldable pub split_once : ℕ → Str → Option (Str × Str)
split_once sep [] = none
split_once sep (c ∷ s) =
    let rest = split_once sep s in if c == sep then some ([], s) else cons_first c rest

abbrev pub is_digit : ℕ → Bool
is_digit c = leb b'0' c && leb c b'9'

unfoldable pub parse_from : ℕ → Str → Option ℕ
parse_from n [] = some n
parse_from n (c ∷ s) = if is_digit c then parse_from (n * 10 + (c - 48)) s else none

-- The digits of a number, one at least.
abbrev digits : Str → Option ℕ
digits [] = none
digits (c ∷ s) = parse_from 0 (c ∷ s)

abbrev non_negative : Option ℕ → Option ℤ
non_negative none = none
non_negative (some n) = if ltb n (2 ^ 63) then some (pos n) else none

abbrev negative : Option ℕ → Option ℤ
negative none = none
negative (some zero) = some (pos 0)
negative (some (suc n)) = if ltb n (2 ^ 63) then some (negsuc n) else none

unfoldable pub parse_i64 : Str → Option ℤ
unfolding parse_from
parse_i64 [] = none
parse_i64 (c ∷ s) =
    if c == b'-'
    then negative (digits s)
    else if c == b'+'
    then non_negative (digits s)
    else non_negative (digits (c ∷ s))

-- The decimal digits of a number in front of `rest`; an `i64` has at most nineteen of them.
unfoldable pub show_from : ℕ → ℕ → Str → Str
show_from zero n rest = rest
show_from (suc fuel) n rest =
    let more = show_from fuel (n / 10) ((48 + n % 10) ∷ rest) in
    if ltb n 10 then (48 + n) ∷ rest else more

unfoldable pub show_i64 : ℤ → Str
show_i64 (pos n) = show_from 19 n []
show_i64 (negsuc n) = b'-' ∷ show_from 19 (suc n) []

abbrev in_u32 : Option ℕ → Option ℕ
in_u32 none = none
in_u32 (some n) = if ltb n (2 ^ 32) then some n else none

-- `str::parse::<u32>`, which takes a `+`.
unfoldable pub parse_u32 : Str → Option ℕ
unfolding parse_from
parse_u32 [] = none
parse_u32 (c ∷ s) = if c == b'+' then in_u32 (digits s) else in_u32 (digits (c ∷ s))

-- A `u32` has at most ten digits.
unfoldable pub show_u32 : ℕ → Str
unfolding show_from
show_u32 n = show_from 10 n []

-- Reading what was written goes on behind it with the number.
pub parse_from-show_from :
    (fuel n : ℕ) (rest : Str)
    → n < 10 ^ fuel
    → parse_from 0 (show_from fuel n rest) ≡ parse_from n rest
unfolding parse_from show_from
parse_from-show_from zero n rest h = ground arith
parse_from-show_from (suc fuel) n rest h = elim (Bool-cases (ltb n 10)) [
  | inl small ↦ rw small (ground arith)
  | inr large ↦ rw large (
      parse_from-show_from fuel (n / 10) ((48 + n % 10) ∷ rest) (omega (arith, pow-suc 10 fuel))
      ∙ ground arith)
]

-- The first character is a digit.
show_from-cons :
    (fuel m : ℕ) (rest : Str)
    → m < 10 ^ suc fuel
    → (d : ℕ) × (s : Str) × (show_from (suc fuel) m rest ≡ d ∷ s) × (is_digit d ≡ true)
unfolding show_from
show_from-cons zero m rest h = (48 + m, rest, ground arith, ground arith)
show_from-cons (suc fuel) m rest h = elim (Bool-cases (ltb m 10)) [
  | inl small ↦ (48 + m, rest, rw small, ground arith)
  | inr large ↦
      let (d, s, e, digit) =
        show_from-cons fuel (m / 10) ((48 + m % 10) ∷ rest)
          (omega (arith, pow-suc 10 (suc fuel))) in
      (d, s, rw large e, digit)
]

digits-show_from : (fuel n : ℕ) → n < 10 ^ suc fuel → digits (show_from (suc fuel) n []) ≡ some n
digits-show_from fuel n h =
    let (d, s, e, digit) = show_from-cons fuel n [] h in
    rw e (rw (← e) (parse_from-show_from (suc fuel) n [] h ∙ (unfold parse_from in refl)))

-- No digit is a sign.
parse_i64_of_digit :
    (d : ℕ) (s : Str) → is_digit d ≡ true → parse_i64 (d ∷ s) ≡ non_negative (digits (d ∷ s))
unfolding parse_i64
parse_i64_of_digit d s h = ground arith

parse_i64_of_digits :
    (t : Str) {d : ℕ} {s : Str}
    → t ≡ d ∷ s
    → is_digit d ≡ true
    → parse_i64 t ≡ non_negative (digits t)
parse_i64_of_digits t {d} {s} e h = rw e (parse_i64_of_digit d s h)

parse_i64-show_from : (n : ℕ) → n < 2 ^ 63 → parse_i64 (show_from 19 n []) ≡ some (pos n)
parse_i64-show_from n h =
    let (d, s, e, digit) = show_from-cons 18 n [] (omega arith) in
    parse_i64_of_digits (show_from 19 n []) e digit
    ∙ rw (digits-show_from 18 n (omega arith)) (ground arith)

parse_i64-minus :
    (n : ℕ) → n < 2 ^ 63 → parse_i64 (b'-' ∷ show_from 19 (suc n) []) ≡ some (negsuc n)
unfolding parse_i64
parse_i64-minus n h = rw (digits-show_from 18 (suc n) (omega arith)) (ground arith)

-- The values of an `i64`.
abbrev pub InI64 : ℤ → Type 0
InI64 (pos n) = n < 2 ^ 63
InI64 (negsuc n) = n < 2 ^ 63

-- An `i64` that is written in decimal is read back.
pub parse_i64-show_i64 : (z : ℤ) → InI64 z → parse_i64 (show_i64 z) ≡ some z
unfolding show_i64
parse_i64-show_i64 (pos n) h = parse_i64-show_from n h
parse_i64-show_i64 (negsuc n) h = parse_i64-minus n h

pub split_on_none : (sep : ℕ) (s : Str) → All (λ c. (c == sep) ≡ false) s → split_on sep s ≡ s ∷ []
unfolding split_on
split_on_none sep [] h = refl
split_on_none sep (c ∷ s) (e, h) = rw (e, split_on_none sep s h)

pub split_on-append :
    (sep : ℕ) (s t : Str)
    → All (λ c. (c == sep) ≡ false) s
    → split_on sep (s ++ sep ∷ t) ≡ s ∷ split_on sep t
unfolding split_on
split_on-append sep [] t h = ground arith
split_on-append sep (c ∷ s) t (e, h) = rw (e, split_on-append sep s t h)

-- A digit or the sign in front of them.
abbrev pub IsNumeral : ℕ → Type 0
IsNumeral c = (is_digit c ≡ true) ⊎ (c ≡ b'-')

show_from-All :
    (fuel n : ℕ) (rest : Str) → All IsNumeral rest → All IsNumeral (show_from fuel n rest)
unfolding show_from
show_from-All zero n rest h = h
show_from-All (suc fuel) n rest h = elim (Bool-cases (ltb n 10)) [
  | inl small ↦ rw small (inl (ground arith), h)
  | inr large ↦
      rw large (show_from-All fuel (n / 10) ((48 + n % 10) ∷ rest) (inl (ground arith), h))
]

pub show_i64-All : (z : ℤ) → All IsNumeral (show_i64 z)
unfolding show_i64
show_i64-All (pos n) = show_from-All 19 n [] tt
show_i64-All (negsuc n) = (inr refl, show_from-All 19 (suc n) [] tt)

parse_u32_of_digits :
    (t : Str) {d : ℕ} {s : Str} → t ≡ d ∷ s → is_digit d ≡ true → parse_u32 t ≡ in_u32 (digits t)
unfolding parse_u32
parse_u32_of_digits t {d} {s} e h = rw e (ground arith)

pub parse_u32-show_u32 : (n : ℕ) → n < 2 ^ 32 → parse_u32 (show_u32 n) ≡ some n
unfolding show_u32
parse_u32-show_u32 n h =
    let (d, s, e, digit) = show_from-cons 9 n [] (omega arith) in
    parse_u32_of_digits (show_from 10 n []) e digit
    ∙ rw (digits-show_from 9 n (omega arith)) (ground arith)

pub parse_u32_bound : (s : Str) (n : ℕ) → parse_u32 s ≡ some n → n < 2 ^ 32
unfolding parse_u32
parse_u32_bound [] n h = absurd (cc)
parse_u32_bound (c ∷ s) n h = either (c == b'+') h
  where
    bound : (o : Option ℕ) → in_u32 o ≡ some n → n < 2 ^ 32
    bound none k = absurd (cc)
    bound (some m) k = ground arith

    either :
        (b : Bool)
        → (if b then in_u32 (digits s) else in_u32 (digits (c ∷ s))) ≡ some n
        → n < 2 ^ 32
    either true k = bound (digits s) k
    either false k = bound (digits (c ∷ s)) k
