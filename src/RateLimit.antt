-- ===== src/RateLimit.antt =====
-- snaptrade/rate_limit.rs: the limiter of the `/login-portal` endpoint. The hash map is a function
-- from user ids to the stored vector, `none` for a missing key. Instants are nanoseconds since the
-- Unix epoch, and the instant that `check` and `sweep` read from the clock is an argument.
-- `*t > now - WINDOW` is written `now < t + WINDOW`, since `-` on ℕ stops at 0; the `.max(ZERO)` of
-- `retry_after` is that truncated subtraction.
pub mod Window
pub mod Retry
mod Tests
use mizan_connect.Base.{
  ℕ, ◌+◌, ◌-◌, ◌*◌, Bool, Option, none, some, List, [], ◌∷◌, ◌++◌, ltb, leb, ◌==◌, length, keep,
  if◌then◌else◌,
}

abbrev pub nanos_per_second : ℕ
nanos_per_second = 1_000_000_000

-- WINDOW
abbrev pub window : ℕ
window = 3600 * nanos_per_second

-- MAX_PER_WINDOW
abbrev pub max_per_window : ℕ
max_per_window = 10

abbrev pub LoginPortalLimiter : Type 0
LoginPortalLimiter = ℕ → Option (List ℕ)

-- `LoginPortalLimiter::new`
abbrev pub new : LoginPortalLimiter
new user = none

-- `map.entry(user).or_default()`
abbrev pub slots_of : LoginPortalLimiter → ℕ → List ℕ
slots_of map user = elim (map user) [ none ↦ [] | some slots ↦ slots ]

abbrev pub put : LoginPortalLimiter → ℕ → List ℕ → LoginPortalLimiter
put map user slots other = if user == other then some slots else map other

-- The test of `retain`: the entry lies inside the window that ends at `now`.
abbrev pub fresh : ℕ → ℕ → Bool
fresh now t = ltb now (t + window)

-- `Ok(())`, or `Err(retry_after)`
pub data Verdict : Type 0 where
  allowed : Verdict
  limited : ℕ → Verdict

-- `slots.first().copied().unwrap_or(now)`
abbrev pub oldest : ℕ → List ℕ → ℕ
oldest now [] = now
oldest now (t ∷ slots) = t

abbrev pub decide_on : ℕ → ℕ → LoginPortalLimiter → List ℕ → Verdict × LoginPortalLimiter
decide_on now user map slots =
    if leb max_per_window (length slots)
    then (limited (oldest now slots + window - now), put map user slots)
    else (allowed, put map user (slots ++ now ∷ []))

unfoldable pub check : ℕ → ℕ → LoginPortalLimiter → Verdict × LoginPortalLimiter
check now user map = decide_on now user map (keep (fresh now) (slots_of map user))

-- The entry of one user after `sweep`: `!slots.is_empty()` keeps it.
abbrev pub swept : List ℕ → Option (List ℕ)
swept [] = none
swept (t ∷ slots) = some (t ∷ slots)

unfoldable pub sweep : ℕ → LoginPortalLimiter → LoginPortalLimiter
sweep now map user = elim (map user) [ none ↦ none | some slots ↦ swept (keep (fresh now) slots) ]
