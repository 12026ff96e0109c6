-- ===== src/Billing/Credits.antt =====
-- billing/credits.rs: what an AI request costs.
-- `(weighted as f64 / 1000.0).ceil()` is the exact quotient rounded up: `weighted` is below 2^35, a
-- quotient that is no integer is at least 1/1000 from one, and the rounding error is below 2^-20.
use mizan_connect.Base.{ℕ, ◌+◌, ◌-◌, ◌*◌, ◌/◌, ◌^◌, ◌≤◌, ◌<◌, arith, ltb, leb, if◌then◌else◌}

pub data RequestKind : Type 0 where
  simple analysis csv_mapping monthly_report deep_report : RequestKind

unfoldable pub estimated_cost : RequestKind → ℕ
estimated_cost simple = 1
estimated_cost analysis = 5
estimated_cost csv_mapping = 10
estimated_cost monthly_report = 25
estimated_cost deep_report = 50

abbrev pub u32_mod : ℕ
u32_mod = 2 ^ 32

abbrev pub i32_max : ℕ
i32_max = 2 ^ 31 - 1

-- A cast of a non-negative float to `i32` saturates.
abbrev saturate_i32 : ℕ → ℕ
saturate_i32 n = if ltb i32_max n then i32_max else n

-- In `u64`: no sum of two weighted `u32` overflows it.
unfoldable pub weighted : ℕ → ℕ → ℕ
weighted prompt_tokens completion_tokens = prompt_tokens + 3 * completion_tokens

unfoldable pub credits_for_tokens : ℕ → ℕ → ℕ
unfolding weighted
credits_for_tokens prompt_tokens completion_tokens =
    let credits = saturate_i32 ((weighted prompt_tokens completion_tokens + 999) / 1000) in
    if leb 1 credits then credits else 1

-- For token counts that fit `u32` the charge is the least number of credits, at least one, that
-- covers the weighted tokens at a thousand a credit; so it never saturates.
pub credits_for_tokens_least :
    (prompt completion : ℕ)
    → prompt < u32_mod
    → completion < u32_mod
    → (1 ≤ credits_for_tokens prompt completion)
      × (weighted prompt completion ≤ 1000 * credits_for_tokens prompt completion)
      × ((n : ℕ)
          → 1 ≤ n
          → weighted prompt completion ≤ 1000 * n
          → credits_for_tokens prompt completion ≤ n)
      × (credits_for_tokens prompt completion < i32_max)
unfolding credits_for_tokens
credits_for_tokens_least prompt completion p c =
    (ground arith, ground arith, λ n h k. ground arith, ground arith)

-- More tokens of either kind never cost fewer credits.
pub credits_for_tokens_mono :
    (p c p' c' : ℕ) → p ≤ p' → c ≤ c' → credits_for_tokens p c ≤ credits_for_tokens p' c'
unfolding credits_for_tokens
credits_for_tokens_mono p c p' c' hp hc = ground arith
