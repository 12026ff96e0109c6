-- ===== src/RateLimit/Retry.antt =====
-- What one call of the limiter promises: the delay that a refusal names, and the other users.
use mizan_connect.Base.{
  ℕ, ◌+◌, ◌-◌, ◌≤◌, ◌<◌, ◌≡◌, ◌≢◌, refl, ap, Bool, true, List, [], ◌∷◌, ◌++◌, arith, inl, inr, leb,
  ◌==◌, ==_refl, length, length-append, keep, All, length-keep-le, Bool-cases,
}
use mizan_connect.RateLimit.{
  LoginPortalLimiter, window, max_per_window, slots_of, put, fresh, allowed, limited, decide_on,
  check,
}

-- The slots of every user: at most ten, none of them in the future, the oldest first.
abbrev pub IsAscending : ℕ → List ℕ → Type 0
IsAscending now [] = Unit
IsAscending now (t ∷ slots) = (t ≤ now) × All (λ u. t ≤ u) slots × IsAscending now slots

pub record IsValid (now : ℕ) (map : LoginPortalLimiter) : Type 0 where
  pub few : (user : ℕ) → length (slots_of map user) ≤ max_per_window
  pub ascending : (user : ℕ) → IsAscending now (slots_of map user)

All-keep : (P : ℕ → Type 0) (p : ℕ → Bool) (xs : List ℕ) → All P xs → All P (keep p xs)
All-keep P p [] h = tt
All-keep P p (x ∷ xs) (h, hs) = elim (Bool-cases (p x)) [
  | inl e ↦ rw e (h, All-keep P p xs hs)
  | inr e ↦ rw e (All-keep P p xs hs)
]

IsAscending-keep :
    (now : ℕ) (p : ℕ → Bool) (xs : List ℕ) → IsAscending now xs → IsAscending now (keep p xs)
IsAscending-keep now p [] h = tt
IsAscending-keep now p (x ∷ xs) (le, all, h) = elim (Bool-cases (p x)) [
  | inl e ↦ rw e (le, All-keep (λ u. x ≤ u) p xs all, IsAscending-keep now p xs h)
  | inr e ↦ rw e (IsAscending-keep now p xs h)
]

All-append-one :
    (x now : ℕ) (xs : List ℕ) → x ≤ now → All (λ u. x ≤ u) xs → All (λ u. x ≤ u) (xs ++ now ∷ [])
All-append-one x now [] le h = (le, tt)
All-append-one x now (y ∷ xs) le (h, hs) = (h, All-append-one x now xs le hs)

IsAscending-append :
    (now now' : ℕ) (xs : List ℕ)
    → now ≤ now'
    → IsAscending now xs
    → IsAscending now' (xs ++ now' ∷ [])
IsAscending-append now now' [] le h = (omega arith, tt, tt)
IsAscending-append now now' (x ∷ xs) le (h, all, hs) =
    (omega arith, All-append-one x now' xs (omega arith) all, IsAscending-append now now' xs le hs)

IsAscending-later :
    (now now' : ℕ) (xs : List ℕ) → now ≤ now' → IsAscending now xs → IsAscending now' xs
IsAscending-later now now' [] le h = tt
IsAscending-later now now' (x ∷ xs) le (h, all, hs) =
    (omega arith, all, IsAscending-later now now' xs le hs)

length-keep : (p : ℕ → Bool) (xs : List ℕ) → All (λ x. p x ≡ true) xs → keep p xs ≡ xs
length-keep p [] h = refl
length-keep p (x ∷ xs) (e, h) = rw (e, length-keep p xs h)

all_fresh :
    (n t : ℕ) (xs : List ℕ) → n < t + window → All (λ u. t ≤ u) xs → All (λ u. fresh n u ≡ true) xs
all_fresh n t [] h all = tt
all_fresh n t (x ∷ xs) h (le, all) = (ground arith, all_fresh n t xs h all)

-- A fresh oldest slot: `retain` can only drop slots that have left the window.
head_fresh :
    (now : ℕ) (xs : List ℕ) {t : ℕ} {rest : List ℕ}
    → keep (fresh now) xs ≡ t ∷ rest
    → now < t + window
head_fresh now [] e = cc
head_fresh now (x ∷ xs) e = elim (Bool-cases (fresh now x)) [
  | inl h ↦ ground arith
  | inr h ↦ head_fresh now xs (rw h at e)
]

put_self :
    (map : LoginPortalLimiter) (user : ℕ) (slots : List ℕ)
    → slots_of (put map user slots) user ≡ slots
put_self map user slots = rw (==_refl user, slots_of)

-- The second call when the first one left `t ∷ rest` behind, `limit` slots or fewer.
module _ (map : LoginPortalLimiter) (user t : ℕ) (rest : List ℕ) where
  abbrev full : LoginPortalLimiter
  full = put map user (t ∷ rest)

  admits_at : length (t ∷ rest) ≤ max_per_window → (check (t + window) user full).0 ≡ allowed
  unfolding check
  admits_at few = rw put_self (ground (arith, length-keep-le (fresh (t + window)) rest))

  refuses_before :
      (n : ℕ)
      → max_per_window ≤ length (t ∷ rest)
      → n < t + window
      → All (λ u. t ≤ u) rest
      → (check n user full).0 ≡ limited (t + window - n)
  unfolding check
  refuses_before n many early all =
      rw
        (
          put_self,
          length-keep (fresh n) (t ∷ rest) (all_fresh n t (t ∷ rest) early (omega arith, all)),
        )
        (ground arith)

-- The limiter after a refused call, and the delay that it names.
refusal :
    (now user : ℕ) (map : LoginPortalLimiter) (d : ℕ)
    → (check now user map).0 ≡ limited d
    → (t : ℕ) × (rest : List ℕ) × (keep (fresh now) (slots_of map user) ≡ t ∷ rest)
      × (d ≡ t + window - now)
      × ((check now user map).1 ≡ put map user (t ∷ rest))
      × (max_per_window ≤ length (t ∷ rest))
unfolding check
refusal now user map d h = go (keep (fresh now) (slots_of map user)) refl h
  where
    go :
        (s : List ℕ)
        → keep (fresh now) (slots_of map user) ≡ s
        → (decide_on now user map s).0 ≡ limited d
        → (t : ℕ) × (rest : List ℕ) × (keep (fresh now) (slots_of map user) ≡ t ∷ rest)
          × (d ≡ t + window - now)
          × ((decide_on now user map (keep (fresh now) (slots_of map user))).1
              ≡ put map user (t ∷ rest))
          × (max_per_window ≤ length (t ∷ rest))
    go [] e k = cc
    go (t ∷ rest) e k = elim (Bool-cases (leb max_per_window (length (t ∷ rest)))) [
      | inl big ↦ (t, rest, e, ground arith, rw (e, big), ground arith)
      | inr room ↦ absurd (cc (rw room at k))
    ]

-- A refused call names a delay of at most an hour, and it is exact: if nothing else happens to the
-- limiter, the same user is refused at every instant before `now + d` and admitted at `now + d`.
pub check_retry_exact :
    (now user : ℕ) (map : LoginPortalLimiter) (d : ℕ)
    → IsValid now map
    → (check now user map).0 ≡ limited d
    → (d ≤ window)
      × ((check (now + d) user (check now user map).1).0 ≡ allowed)
      × ((n : ℕ) → now ≤ n → n < now + d → (check n user (check now user map).1).0 ≢ allowed)
check_retry_exact now user map d v h =
    let (t, rest, e, delay, left, many) = refusal now user map d h in
    let early : now < t + window = head_fresh now (slots_of map user) e in
    let asc : IsAscending now (t ∷ rest) =
      rw e at (IsAscending-keep now (fresh now) (slots_of map user) (v.ascending user)) in
    let few : length (t ∷ rest) ≤ max_per_window =
      omega (arith, ap length e, length-keep-le (fresh now) (slots_of map user), v.few user) in
    let at_end : now + d ≡ t + window = omega arith in
    (
      omega arith,
      rw (at_end, left) (admits_at map user t rest few),
      λ n le lt. rw left (λ same. cc (refuses_before map user t rest n many (omega arith) asc.1)),
    )

put_ne :
    (map : LoginPortalLimiter) (user other : ℕ) (slots : List ℕ)
    → user ≢ other
    → slots_of (put map user slots) other ≡ slots_of map other
put_ne map user other slots ne = elim (Bool-cases (user == other)) [
  | inl e ↦ absurd (ne (ground arith))
  | inr e ↦ rw (e, slots_of)
]

-- What a user's call leaves in the slots of `other`.
decide_on-slots :
    (P : List ℕ → Type 0) (now user other : ℕ) (map : LoginPortalLimiter) (slots : List ℕ)
    → (user ≡ other → P slots)
    → (user ≡ other → length slots < max_per_window → P (slots ++ now ∷ []))
    → (user ≢ other → P (slots_of map other))
    → P (slots_of (decide_on now user map slots).1 other)
decide_on-slots P now user other map slots hs ha hm =
    elim (Bool-cases (leb max_per_window (length slots))) [
      | inl big ↦ rw big (elim (Bool-cases (user == other)) [
        | inl e ↦ rw (e, slots_of) (hs (ground arith))
        | inr e ↦ rw (e, slots_of) (hm (ground arith))
      ])
      | inr room ↦ rw room (elim (Bool-cases (user == other)) [
        | inl e ↦ rw (e, slots_of) (ha (ground arith) (ground arith))
        | inr e ↦ rw (e, slots_of) (hm (ground arith))
      ])
    ]

verdict_of_slots :
    (now user : ℕ) (map map' : LoginPortalLimiter) (slots : List ℕ)
    → (decide_on now user map slots).0 ≡ (decide_on now user map' slots).0
verdict_of_slots now user map map' slots = elim (Bool-cases (leb max_per_window (length slots))) [
  | inl big ↦ rw big
  | inr room ↦ rw room
]

-- A call of one user, admitted or refused, changes no later verdict for another user.
pub check_independent :
    (now now' user other : ℕ) (map : LoginPortalLimiter)
    → user ≢ other
    → (check now' other (check now user map).1).0 ≡ (check now' other map).0
unfolding check
check_independent now now' user other map ne =
    decide_on-slots
      (λ s.
        (decide_on now' other (check now user map).1 (keep (fresh now') s)).0
        ≡ (check now' other map).0)
      now user other map (keep (fresh now) (slots_of map user)) (λ e. absurd (ne e))
      (λ e _. absurd (ne e))
      (λ _.
        verdict_of_slots now' other (check now user map).1 map
          (keep (fresh now') (slots_of map other)))

-- Every call on a clock that does not go back keeps the limiter well formed.
pub check-IsValid :
    (now now' user : ℕ) (map : LoginPortalLimiter)
    → now ≤ now'
    → IsValid now map
    → IsValid now' (check now' user map).1
unfolding check
check-IsValid now now' user map le v = record {
  few = λ u.
      decide_on-slots (λ s. length s ≤ max_per_window) now' user u map
        (keep (fresh now') (slots_of map user))
        (λ e. omega (arith, length-keep-le (fresh now') (slots_of map user), v.few user))
        (λ e room.
          omega (arith, length-append (keep (fresh now') (slots_of map user)) (now' ∷ []), room))
        (λ _. v.few u);
  ascending = λ u.
      decide_on-slots (IsAscending now') now' user u map (keep (fresh now') (slots_of map user))
        (λ e.
          IsAscending-later now now' _ le (IsAscending-keep now (fresh now') _ (v.ascending user)))
        (λ e room.
          IsAscending-append now now' _ le (IsAscending-keep now (fresh now') _ (v.ascending user)))
        (λ _. IsAscending-later now now' _ le (v.ascending u));
}
