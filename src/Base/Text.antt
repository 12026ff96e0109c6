-- ===== src/Base/Text.antt =====
-- Text as a list of code points, with the `str` methods of Rust's standard library that the
-- program calls.
use Prim.Native.Nat.{ℕ, ◌+◌}
use Prim.Native.Char.{code}
use Prim.Native.String.{String}
use mathlib.Core.Path.{◌≡◌, refl, ap, ◌∙◌}
use mathlib.Core.Logic.{◌↔◌}
use mathlib.Core.Bool.{Bool, true, false, ◌&&◌, ◌||◌}
use mathlib.Core.Option.{Option, none, some}
use mathlib.Core.List.{List, [], ◌∷◌, ◌++◌, map, reverse}
use mathlib.Core.List.{reverse-cons, reverse-reverse}
use native.Mathlib.Omega.{arith}
use mizan_connect.Base.Lists.{All, All-append}
use mizan_connect.Base.Tests.{leb, ◌==◌, if◌then◌else◌}

abbrev pub Str : Type 0
Str = List ℕ

abbrev pub codes : String → Str
codes String.[] = []
codes (String.◌∷◌ c s) = code c ∷ codes s

unfoldable pub str_eq : Str → Str → Bool
str_eq [] [] = true
str_eq [] (d ∷ t) = false
str_eq (c ∷ s) [] = false
str_eq (c ∷ s) (d ∷ t) = c == d && str_eq s t

pub str_eq_iff : (s t : Str) → (str_eq s t ≡ true) ↔ (s ≡ t)
unfolding str_eq
str_eq_iff [] [] = ground arith
str_eq_iff [] (d ∷ t) = ground arith
str_eq_iff (c ∷ s) [] = ground arith
str_eq_iff (c ∷ s) (d ∷ t) = ground (arith, str_eq_iff s t)

pub str_eq_refl : (s : Str) → str_eq s s ≡ true
str_eq_refl s = (str_eq_iff s s).1 refl

pub str_eq_sound : (s t : Str) → str_eq s t ≡ true → s ≡ t
str_eq_sound s t h = (str_eq_iff s t).0 h

-- `str::is_empty`
abbrev pub is_empty : Str → Bool
is_empty [] = true
is_empty (c ∷ s) = false

-- `u8::to_ascii_lowercase`, `str::to_ascii_lowercase`
unfoldable pub lower_char : ℕ → ℕ
lower_char c = if leb b'A' c && leb c b'Z' then c + 32 else c

unfoldable pub to_ascii_lowercase : Str → Str
unfolding lower_char
to_ascii_lowercase s = map lower_char s

-- `char::is_whitespace`: the code points with the property White_Space.
unfoldable pub is_whitespace : ℕ → Bool
is_whitespace c =
    leb 9 c && leb c 13
    || c == 32
    || c == 0x85
    || c == 0xa0
    || c == 0x1680
    || leb 0x2000 c && leb c 0x200a
    || c == 0x2028
    || c == 0x2029
    || c == 0x202f
    || c == 0x205f
    || c == 0x3000

-- `str::trim` and its two halves.
unfoldable pub trim_start : Str → Str
unfolding is_whitespace
trim_start [] = []
trim_start (c ∷ s) = if is_whitespace c then trim_start s else c ∷ s

unfoldable pub trim : Str → Str
unfolding trim_start
trim s = reverse (trim_start (reverse (trim_start s)))

-- `str::strip_prefix`
unfoldable pub strip_prefix : Str → Str → Option Str
strip_prefix [] s = some s
strip_prefix (d ∷ p) [] = none
strip_prefix (d ∷ p) (c ∷ s) = if c == d then strip_prefix p s else none

pub lower_char_idem : (c : ℕ) → lower_char (lower_char c) ≡ lower_char c
unfolding lower_char
lower_char_idem c = ground arith

pub strip_prefix-append : (p s : Str) → strip_prefix p (p ++ s) ≡ some s
unfolding strip_prefix
strip_prefix-append [] s = refl
strip_prefix-append (c ∷ p) s = ground (arith, strip_prefix-append p s)

trim_start_of : (s : Str) → All (λ c. is_whitespace c ≡ false) s → trim_start s ≡ s
unfolding trim_start
trim_start_of [] h = refl
trim_start_of (c ∷ s) (e, h) = rw e

pub All-reverse : (P : ℕ → Type 0) (s : Str) → All P s → All P (reverse s)
All-reverse P [] h = tt
All-reverse P (c ∷ s) (p, h) =
    rw reverse-cons (All-append P (reverse s) (c ∷ []) (All-reverse P s h) (p, tt))

-- A text with no white space is left alone.
pub trim_of : (s : Str) → All (λ c. is_whitespace c ≡ false) s → trim s ≡ s
unfolding trim
trim_of s h =
    ap (λ t. reverse (trim_start (reverse t))) (trim_start_of s h)
    ∙ ap reverse (trim_start_of (reverse s) (All-reverse (λ c. is_whitespace c ≡ false) s h))
    ∙ reverse-reverse s
