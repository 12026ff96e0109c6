-- ===== src/Billing/Signature/Constant.antt =====
-- The comparison in constant time of billing/stripe_client.rs compares.
use Prim.Native.Nat.{bit_or, bit_xor}
use mizan_connect.Base.{
  inl, inr, Bool-cases, ◌≢◌, ℕ, zero, suc, ◌<◌, ◌≡◌, ◌↔◌, refl, ap, Str, Bool, true, false, not,
  ◌&&◌, ◌||◌, if◌then◌else◌, [], ◌∷◌, arith, ltb, ◌==◌, All, length, ◌≢◌, Bool-cases, inl, inr,
}
use mizan_connect.Billing.Signature.{diff_from, choice, subtle_eq}

abbrev pub IsByte : ℕ → Type 0
IsByte x = x < 256

-- The test passes for each of the numbers under a bound, found by running it.
passes : (ℕ → Bool) → ℕ → Bool
passes test zero = true
passes test (suc bound) = if test bound then passes test bound else false

passes_at :
    (test : ℕ → Bool) (bound : ℕ) → passes test bound ≡ true → (x : ℕ) → x < bound → test x ≡ true
unfolding passes
passes_at test zero run x below = absurd (omega arith)
passes_at test (suc bound) run x below = elim (Bool-cases (x == bound)) [
  | inl last ↦ ground arith
  | inr earlier ↦ passes_at test bound (ground arith) x (ground arith)
]

-- What the loop needs of the operations on bytes.
abbrev bits_ok : ℕ → ℕ → Bool
bits_ok x y =
    ltb (bit_xor x y) 256
    && ltb (bit_or x y) 256
    && (not (bit_xor x y == 0) || x == y)
    && (not (x == y) || bit_xor x y == 0)
    && (not (bit_or x y == 0) || x == 0 && y == 0)
    && (not (x == 0 && y == 0) || bit_or x y == 0)

bits_table : passes (λ x. passes (bits_ok x) 256) 256 ≡ true
unfolding passes
bits_table = refl

bits : (x y : ℕ) → IsByte x → IsByte y → bits_ok x y ≡ true
bits x y hx hy =
    passes_at (bits_ok x) 256 (passes_at (λ z. passes (bits_ok z) 256) 256 bits_table x hx) y hy

xor_byte : (x y : ℕ) → IsByte x → IsByte y → IsByte (bit_xor x y)
xor_byte x y hx hy = ground (arith, bits x y)

or_byte : (x y : ℕ) → IsByte x → IsByte y → IsByte (bit_or x y)
or_byte x y hx hy = ground (arith, bits x y)

xor-eq-zero : (x y : ℕ) → IsByte x → IsByte y → (bit_xor x y ≡ 0) ↔ (x ≡ y)
xor-eq-zero x y hx hy = (λ e. ground (arith, bits x y), λ e. ground (arith, bits x y))

or-eq-zero : (x y : ℕ) → IsByte x → IsByte y → (bit_or x y ≡ 0) ↔ ((x ≡ 0) × (y ≡ 0))
or-eq-zero x y hx hy =
    (λ e. (ground (arith, bits x y), ground (arith, bits x y)), λ e. ground (arith, bits x y))

-- The accumulator stays a byte, and is zero in the end exactly when the slices are equal.
diff_from_lem :
    (diff : ℕ) (a b : Str)
    → IsByte diff
    → All IsByte a
    → All IsByte b
    → length a ≡ length b
    → IsByte (diff_from diff a b) × ((diff_from diff a b ≡ 0) ↔ ((diff ≡ 0) × (a ≡ b)))
unfolding diff_from
diff_from_lem diff [] [] h ha hb e = ground arith
diff_from_lem diff [] (y ∷ b) h ha hb e = cc
diff_from_lem diff (x ∷ a) [] h ha hb e = cc
diff_from_lem diff (x ∷ a) (y ∷ b) h (hx, ha) (hy, hb) e = ground (
  arith,
  diff_from_lem (bit_or diff (bit_xor x y)) a b (or_byte diff (bit_xor x y) h (xor_byte x y hx hy))
      ha hb (omega arith),
  or-eq-zero diff (bit_xor x y) h (xor_byte x y hx hy),
  xor-eq-zero x y hx hy,
)

choice_iff : (diff : ℕ) → IsByte diff → (choice diff ≡ 1) ↔ (diff ≡ 0)
unfolding choice
choice_iff diff h = (λ e. omega arith, λ e. omega arith)

length-ne : (a b : Str) → (length a == length b) ≡ false → a ≢ b
length-ne a b h e = let k : length a ≡ length b = ap length e in ground arith

-- On bytes, the comparison that looks at every byte and folds the differences says `true` exactly
-- when the two slices are equal, whatever their lengths.
pub subtle_eq_iff : (a b : Str) → All IsByte a → All IsByte b → (subtle_eq a b ≡ true) ↔ (a ≡ b)
unfolding subtle_eq
subtle_eq_iff a b ha hb = elim (Bool-cases (length a == length b)) [
  | inl e ↦ rw e (
      ground (
        arith,
        diff_from_lem 0 a b (omega arith) ha hb (ground arith),
        choice_iff (diff_from 0 a b),
      ))
  | inr e ↦ rw e (λ h. absurd (cc), λ h. absurd (length-ne a b e h))
]
