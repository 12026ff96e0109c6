-- ===== src/RateLimit/Window.antt =====
-- The limiter over a whole run: never more than ten admitted calls of a user in an hour.
use mizan_connect.Base.{
  ℕ, ◌+◌, ◌≤◌, ◌<◌, ◌≡◌, refl, Bool, true, ◌&&◌, List, [], ◌∷◌, ◌++◌, arith, inl, inr, ltb, leb,
  ◌==◌, length, keep, Bool-cases, if◌then◌else◌, ap, ◌≢◌, ◌∙◌, length-append,
}
use mizan_connect.RateLimit.{
  LoginPortalLimiter, window, max_per_window, slots_of, fresh, Verdict, allowed, limited, check,
  sweep, decide_on, new,
}

abbrev pub count : (ℕ → Bool) → List ℕ → ℕ
count p xs = length (keep p xs)

-- What happens to the limiter, each with the instant that the clock showed.
pub data Event : Type 0 where
  call : ℕ → ℕ → Event
  sweeping : ℕ → Event

abbrev pub instant : Event → ℕ
instant (call now user) = now
instant (sweeping now) = now

-- The clock does not go back, from `now` on.
abbrev pub IsMonotone : ℕ → List Event → Type 0
IsMonotone now [] = Unit
IsMonotone now (e ∷ events) = (now ≤ instant e) × IsMonotone (instant e) events

abbrev pub after : Event → LoginPortalLimiter → LoginPortalLimiter
after (call now user) map = (check now user map).1
after (sweeping now) map = sweep now map

abbrev pub logged : ℕ → ℕ → ℕ → Verdict → List ℕ → List ℕ
logged user now caller allowed past = if caller == user then now ∷ past else past
logged user now caller (limited d) past = past

abbrev pub log_event : ℕ → LoginPortalLimiter → Event → List ℕ → List ℕ
log_event user map (call now caller) past = logged user now caller (check now caller map).0 past
log_event user map (sweeping now) past = past

-- The instants of the admitted calls of `user`, the newest first, `past` those before the run.
pub admitted : ℕ → LoginPortalLimiter → List Event → List ℕ → List ℕ
admitted user map [] past = past
admitted user map (e ∷ events) past = admitted user (after e map) events (log_event user map e past)

-- Inside the hour that begins behind `start`.
abbrev pub within_hour : ℕ → ℕ → Bool
within_hour start t = ltb start t && leb t (start + window)

-- Each admitted call had fewer than ten admitted ones in the hour before it.
abbrev IsSpaced : List ℕ → Type 0
IsSpaced [] = Unit
IsSpaced (t ∷ past) = (count (fresh t) past < max_per_window) × IsSpaced past

count-le :
    (p q : ℕ → Bool) (xs : List ℕ) → ((x : ℕ) → p x ≡ true → q x ≡ true) → count p xs ≤ count q xs
count-le p q [] h = omega arith
count-le p q (x ∷ xs) h = elim (Bool-cases (p x)) [
  | inl e ↦ rw (e, h x e) (omega (arith, count-le p q xs h))
  | inr e ↦ rw e (ground (arith, count-le p q xs h))
]

within_hour→fresh :
    (start t x : ℕ) → t ≤ start + window → within_hour start x ≡ true → fresh t x ≡ true
within_hour→fresh start t x h e = ground arith

IsSpaced-count :
    (start : ℕ) (past : List ℕ) → IsSpaced past → count (within_hour start) past ≤ max_per_window
IsSpaced-count start [] s = omega arith
IsSpaced-count start (t ∷ past) (few, s) = elim (Bool-cases (within_hour start t)) [
  | inl e ↦ rw e (
      omega (
        arith,
        count-le (within_hour start) (fresh t) past
            (λ x. within_hour→fresh start t x (ground arith)),
      ))
  | inr e ↦ rw e (IsSpaced-count start past s)
]

keep-keep :
    (n n' : ℕ) (xs : List ℕ) → n ≤ n' → keep (fresh n') (keep (fresh n) xs) ≡ keep (fresh n') xs
keep-keep n n' [] h = refl
keep-keep n n' (x ∷ xs) h = ground (arith, keep-keep n n' xs h)

keep-append : (p : ℕ → Bool) (xs ys : List ℕ) → keep p (xs ++ ys) ≡ keep p xs ++ keep p ys
keep-append p [] ys = refl
keep-append p (x ∷ xs) ys = ground (arith, keep-append p xs ys)

-- What a later instant sees of the stored slots of `user` is what it sees of the log.
abbrev Agrees : ℕ → ℕ → LoginPortalLimiter → List ℕ → Type 0
Agrees user now map past =
    (n : ℕ) → now ≤ n → count (fresh n) (slots_of map user) ≡ count (fresh n) past

slots_of-sweep :
    (now user : ℕ) (map : LoginPortalLimiter)
    → slots_of (sweep now map) user ≡ keep (fresh now) (slots_of map user)
unfolding sweep
slots_of-sweep now user map = ground arith

count-append : (p : ℕ → Bool) (xs ys : List ℕ) → count p (xs ++ ys) ≡ count p xs + count p ys
count-append p xs ys = ap length (keep-append p xs ys) ∙ length-append (keep p xs) (keep p ys)

logged-IsSpaced :
    (user now caller : ℕ) (v : Verdict) (past : List ℕ)
    → IsSpaced past
    → (v ≡ allowed → caller ≡ user → count (fresh now) past < max_per_window)
    → IsSpaced (logged user now caller v past)
logged-IsSpaced user now caller allowed past s few = elim (Bool-cases (caller == user)) [
  | inl e ↦ rw (e, IsSpaced) (few refl (ground arith), s)
  | inr e ↦ rw (e, IsSpaced) s
]
logged-IsSpaced user now caller (limited d) past s few = s

-- One call, where `slots` are the caller's slots after `retain`.
module _ (now caller user : ℕ) (map : LoginPortalLimiter) (slots past : List ℕ) where
  abbrev verdict : Verdict
  verdict = (decide_on now caller map slots).0

  abbrev later : LoginPortalLimiter
  later = (decide_on now caller map slots).1

  decide_on-IsSpaced :
      IsSpaced past
      → (caller ≡ user → length slots ≡ count (fresh now) past)
      → IsSpaced (logged user now caller verdict past)
  decide_on-IsSpaced s same =
      logged-IsSpaced user now caller verdict past s
        λ e e'. let h : length slots ≡ count (fresh now) past = same e' in ground arith

  decide_on-agrees :
      (n : ℕ)
      → (caller ≡ user → count (fresh n) slots ≡ count (fresh n) past)
      → (caller ≢ user → count (fresh n) (slots_of map user) ≡ count (fresh n) past)
      → count (fresh n) (slots_of later user)
        ≡ count (fresh n) (logged user now caller verdict past)
  decide_on-agrees n same other = elim (Bool-cases (caller == user)) [
    | inl e ↦
        let h : count (fresh n) slots ≡ count (fresh n) past = same (ground arith) in
        ground (arith, count-append (fresh n) slots (now ∷ []))
    | inr e ↦
        let h : count (fresh n) (slots_of map user) ≡ count (fresh n) past = other (ground arith) in
        ground arith
  ]

module _ (user : ℕ) where
  check-IsSpaced :
      (now now' caller : ℕ) (map : LoginPortalLimiter) (past : List ℕ)
      → now ≤ now'
      → Agrees user now map past
      → IsSpaced past
      → IsSpaced (log_event user map (call now' caller) past)
  unfolding check
  check-IsSpaced now now' caller map past le agree s =
      decide_on-IsSpaced now' caller user map (keep (fresh now') (slots_of map caller)) past s
        λ e. rw e (agree now' le)

  check-Agrees :
      (now now' caller : ℕ) (map : LoginPortalLimiter) (past : List ℕ)
      → now ≤ now'
      → Agrees user now map past
      → Agrees user now' (after (call now' caller) map) (log_event user map (call now' caller) past)
  unfolding check
  check-Agrees now now' caller map past le agree n h =
      decide_on-agrees now' caller user map (keep (fresh now') (slots_of map caller)) past n
        (λ e. rw e (ap length (keep-keep now' n (slots_of map user) h) ∙ agree n (omega arith)))
        (λ _. agree n (omega arith))

  sweep-Agrees :
      (now now' : ℕ) (map : LoginPortalLimiter) (past : List ℕ)
      → now ≤ now'
      → Agrees user now map past
      → Agrees user now' (sweep now' map) past
  sweep-Agrees now now' map past le agree n h =
      ap (λ s. count (fresh n) s) (slots_of-sweep now' user map)
      ∙ ap length (keep-keep now' n (slots_of map user) h)
      ∙ agree n (omega arith)

  admitted-IsSpaced :
      (now : ℕ) (map : LoginPortalLimiter) (events : List Event) (past : List ℕ)
      → IsMonotone now events
      → Agrees user now map past
      → IsSpaced past
      → IsSpaced (admitted user map events past)
  unfolding admitted
  admitted-IsSpaced now map [] past m agree s = s
  admitted-IsSpaced now map (call now' caller ∷ events) past (le, m) agree s =
      admitted-IsSpaced now' (after (call now' caller) map) events
        (log_event user map (call now' caller) past) m
        (check-Agrees now now' caller map past le agree)
        (check-IsSpaced now now' caller map past le agree s)
  admitted-IsSpaced now map (sweeping now' ∷ events) past (le, m) agree s =
      admitted-IsSpaced now' (sweep now' map) events past m
        (sweep-Agrees now now' map past le agree) s

-- In a run from a new limiter, whoever calls and whenever the sweeper runs, on a clock that does
-- not go back: the admitted calls of one user inside any one hour are ten at most.
pub admitted-le-max_per_window :
    (user start now : ℕ) (events : List Event)
    → IsMonotone now events
    → count (within_hour start) (admitted user new events []) ≤ max_per_window
admitted-le-max_per_window user start now events m =
    IsSpaced-count start (admitted user new events [])
      (admitted-IsSpaced user now new events [] m (λ n h. refl) tt)
