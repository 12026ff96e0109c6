-- ===== src/Snaptrade/Connections/Paging.antt =====
-- snaptrade/handlers.rs: which page of a broker account's activities SnapTrade is asked for.
use mizan_connect.Base.{
  ℕ, ◌^◌, ◌≤◌, ◌<◌, Str, codes, ◌≡◌, refl, List, ◌∷◌, Option, none, some, arith, parse_u32,
  show_u32, parse_u32-show_u32, parse_u32_bound,
}
use mizan_connect.Snaptrade.Types.{ActivitiesQuery}
use mizan_connect.Snaptrade.Connections.{limit_of, offset_of, activity_params}

limit_of_bounds : (o : Option ℕ) → (1 ≤ limit_of o) × (limit_of o ≤ 100)
unfolding limit_of
limit_of_bounds o = ground arith

offset_of_bound : (o : Option Str) → offset_of o < 2 ^ 32
unfolding offset_of
offset_of_bound none = omega arith
offset_of_bound (some c) = go (parse_u32 c) (parse_u32_bound c)
  where
    go :
        (o : Option ℕ)
        → ((n : ℕ) → o ≡ some n → n < 2 ^ 32)
        → (elim o [ none ↦ 0 | some n ↦ n ]) < 2 ^ 32
    go none h = omega arith
    go (some n) h = h n refl

-- Whatever the client asks for, SnapTrade reads a page of 1 to 100 activities at an offset of 32
-- bits: the query starts with the two decimal numbers, which read back as they are.
pub activity_params_bounds :
    (q : ActivitiesQuery)
    → (n : ℕ) × (m : ℕ) × (rest : List (Str × Str)) × (activity_params q
        ≡ (codes "limit", show_u32 n) ∷ (codes "offset", show_u32 m) ∷ rest)
      × (1 ≤ n)
      × (n ≤ 100)
      × (m < 2 ^ 32)
      × (parse_u32 (show_u32 n) ≡ some n)
      × (parse_u32 (show_u32 m) ≡ some m)
unfolding activity_params
activity_params_bounds q =
    let (low, high) = limit_of_bounds q.limit in
    let offset = offset_of_bound q.cursor in
    (
      limit_of q.limit,
      offset_of q.cursor,
      _,
      refl,
      low,
      high,
      offset,
      parse_u32-show_u32 (limit_of q.limit) (omega (arith, high)),
      parse_u32-show_u32 (offset_of q.cursor) offset,
    )

-- A client that hands the next offset on as its cursor is given that offset, where it has 32 bits.
pub offset_of-show_u32 : (n : ℕ) → n < 2 ^ 32 → offset_of (some (show_u32 n)) ≡ n
unfolding offset_of
offset_of-show_u32 n h = rw (parse_u32-show_u32 n h) refl
