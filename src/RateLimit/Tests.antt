-- ===== src/RateLimit/Tests.antt =====
-- The limiter on concrete runs.
use mizan_connect.Base.{ℕ, ◌+◌, ◌-◌, ◌≤◌, ◌<◌, ◌≡◌, ◌≢◌, refl, List, [], ◌∷◌, arith}
use mizan_connect.RateLimit.{
  LoginPortalLimiter, window, max_per_window, new, allowed, limited, check,
}
use mizan_connect.RateLimit.Window.{
  Event, call, sweeping, count, within_hour, admitted, admitted-le-max_per_window,
}
use mizan_connect.RateLimit.Retry.{IsValid, check_retry_exact, check-IsValid}

abbrev events : List Event
events = call 5 1 ∷ sweeping 6 ∷ call 7 2 ∷ call 8 1 ∷ []

admitted-le-max_per_window_example :
    count (within_hour 4) (admitted 1 new events []) ≤ max_per_window
admitted-le-max_per_window_example =
    admitted-le-max_per_window 1 4 0 events
      (omega arith, (omega arith, (omega arith, (omega arith, tt))))

-- Ten calls of user 1 in the first instants.
abbrev called : ℕ → LoginPortalLimiter → LoginPortalLimiter
called now map = (check now 1 map).1

abbrev early : LoginPortalLimiter
early = called 1 (called 0 (called 0 (called 0 new)))

abbrev middle : LoginPortalLimiter
middle = called 1 (called 1 (called 1 early))

abbrev full : LoginPortalLimiter
full = called 2 (called 2 (called 2 middle))

new-IsValid : IsValid 0 new
new-IsValid = record { few = λ user. omega arith; ascending = λ user. tt }

called-IsValid :
    (now now' : ℕ) (map : LoginPortalLimiter)
    → now ≤ now'
    → IsValid now map
    → IsValid now' (called now' map)
called-IsValid now now' map le v = check-IsValid now now' 1 map le v

early-IsValid : IsValid 1 early
early-IsValid = called-IsValid 0 1 _ (omega arith) (
    called-IsValid 0 0 _ (omega arith)
      (called-IsValid 0 0 _ (omega arith) (called-IsValid 0 0 _ (omega arith) new-IsValid)))

middle-IsValid : IsValid 1 middle
middle-IsValid =
    called-IsValid 1 1 _ (omega arith)
      (called-IsValid 1 1 _ (omega arith) (called-IsValid 1 1 _ (omega arith) early-IsValid))

full-IsValid : IsValid 2 full
full-IsValid =
    called-IsValid 2 2 _ (omega arith)
      (called-IsValid 2 2 _ (omega arith) (called-IsValid 1 2 _ (omega arith) middle-IsValid))

full-check : (check 2 1 full).0 ≡ limited (window - 2)
unfolding check
full-check = refl

check_retry_exact_example :
    (window - 2 ≤ window)
    × ((check (2 + (window - 2)) 1 (check 2 1 full).1).0 ≡ allowed)
    × ((n : ℕ) → 2 ≤ n → n < 2 + (window - 2) → (check n 1 (check 2 1 full).1).0 ≢ allowed)
check_retry_exact_example = check_retry_exact 2 1 full (window - 2) full-IsValid full-check

abbrev one : ℕ
one = 1

abbrev two : ℕ
two = 2

apart : one ≢ two
apart e = omega (arith, e)
