-- ===== src/Base/Int.antt =====
-- Signed integers over the native numbers, and the wrap-around of `i64` and `i32`.
use Prim.Native.Nat.{ℕ, suc, ◌+◌, ◌-◌, ◌%◌, ◌^◌, ◌≤◌}
use mathlib.Core.Path.{◌≡◌}
use mathlib.Core.Logic.{◌↔◌}
use mathlib.Core.Bool.{Bool, true, false}
use native.Mathlib.Omega.{arith}
use mizan_connect.Base.Tests.{ltb, leb, ◌==◌, if◌then◌else◌}

-- `negsuc n` is -(n + 1).
pub data ℤ : Type 0 where
  pos : ℕ → ℤ
  negsuc : ℕ → ℤ

abbrev pub pos_part : ℤ → ℕ
pos_part (pos n) = n
pos_part (negsuc n) = 0

abbrev pub neg_part : ℤ → ℕ
neg_part (pos n) = 0
neg_part (negsuc n) = suc n

-- a - b of two numbers, as an integer.
abbrev pub sub_ℕ : ℕ → ℕ → ℤ
sub_ℕ a b = if leb b a then pos (a - b) else negsuc (b - a - 1)

infixl 65 ◌+ℤ◌ ◌-ℤ◌
infix 50 ◌≤ℤ◌
abbrev pub ◌+ℤ◌ : ℤ → ℤ → ℤ
a +ℤ b = sub_ℕ (pos_part a + pos_part b) (neg_part a + neg_part b)

abbrev pub ◌-ℤ◌ : ℤ → ℤ → ℤ
a -ℤ b = sub_ℕ (pos_part a + neg_part b) (neg_part a + pos_part b)

abbrev pub ◌≤ℤ◌ : ℤ → ℤ → Type 0
a ≤ℤ b = pos_part a + neg_part b ≤ pos_part b + neg_part a

abbrev pub ltb_ℤ : ℤ → ℤ → Bool
ltb_ℤ a b = ltb (pos_part a + neg_part b) (pos_part b + neg_part a)

unfoldable pub eq_ℤ : ℤ → ℤ → Bool
eq_ℤ (pos a) (pos b) = a == b
eq_ℤ (pos a) (negsuc b) = false
eq_ℤ (negsuc a) (pos b) = false
eq_ℤ (negsuc a) (negsuc b) = a == b

pub eq_ℤ_iff : (a b : ℤ) → (eq_ℤ a b ≡ true) ↔ (a ≡ b)
unfolding eq_ℤ
eq_ℤ_iff a b = ground arith

-- The bit pattern of `z` in `w` bits, and the signed number that a pattern stands for.
abbrev pub to_bits : ℕ → ℤ → ℕ
to_bits w (pos n) = n % 2 ^ w
to_bits w (negsuc n) = 2 ^ w - 1 - n % 2 ^ w

abbrev pub of_bits : ℕ → ℕ → ℤ
of_bits w u = if ltb u (2 ^ (w - 1)) then pos u else negsuc (2 ^ w - 1 - u)

-- The value that is left of `z` in a signed integer of `w` bits, in a build without overflow
-- checks.
unfoldable pub wrap : ℕ → ℤ → ℤ
wrap w z = of_bits w (to_bits w z)

-- `i64::abs`
unfoldable pub abs_i64 : ℤ → ℤ
unfolding wrap
abs_i64 (pos n) = pos n
abs_i64 (negsuc n) = wrap 64 (pos (suc n))
