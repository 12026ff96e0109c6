-- ===== src/Billing/AiProxy/Gate.antt =====
-- What `chat` has checked before it opens a stream.
use mizan_connect.Base.{
  ℕ, ◌+◌, ◌≤◌, ℤ, ◌+ℤ◌, ◌≤ℤ◌, pos, wrap, ltb_ℤ, eq_ℤ, eq_ℤ_iff, ◌≡◌, ◌⊎◌, inl, inr, ap, ◌∙◌, subst,
  Str, true, false, not, ◌&&◌, Option, none, some, arith, Bool-cases, codes,
}
use mizan_connect.Error.{ok}
use mizan_connect.Exec.{World, pure, lift, select, ◌>>=◌}
use mizan_connect.Exec.Laws.{select_then, lift_then}
use mizan_connect.Billing.Credits.{RequestKind, estimated_cost, i32_max}
use mizan_connect.Billing.Entitlements.{unlimited}
use mizan_connect.Billing.Tables.{Subscription, BillingDb}
use mizan_connect.Billing.Repository.{active_row, fetch_active}
use mizan_connect.Billing.AiProxy.{
  over_cap, credits_used, entitlements_of, gate, require_key, upstream, kind_or_simple, chat,
}

wrap_small : (n : ℕ) → n ≤ i32_max → wrap 32 (pos n) ≡ pos n
unfolding wrap
wrap_small n h = ground arith

sum_pos : (a b : ℕ) → pos a +ℤ pos b ≡ pos (a + b)
sum_pos a b = ground arith

not_below : (z : ℤ) (n : ℕ) → ltb_ℤ z (pos n) ≡ false → pos n ≤ℤ z
not_below z n h = ground arith

within_cap :
    (monthly : ℤ) (used estimated : ℕ)
    → used + estimated ≤ i32_max
    → over_cap monthly used estimated ≡ false
    → (monthly ≡ unlimited) ⊎ (pos (used + estimated) ≤ℤ monthly)
unfolding over_cap
within_cap monthly used estimated small h = elim (Bool-cases (eq_ℤ monthly unlimited)) [
  | inl e ↦ inl ((eq_ℤ_iff monthly unlimited).0 e)
  | inr e ↦
      let below : (not false && ltb_ℤ monthly (wrap 32 (pos used +ℤ pos estimated))) ≡ false =
        subst (λ b. (not b && ltb_ℤ monthly (wrap 32 (pos used +ℤ pos estimated))) ≡ false) e h in
      let exact = ap (wrap 32) (sum_pos used estimated) ∙ wrap_small (used + estimated) small in
      inr (not_below monthly (used + estimated) (subst (λ z. ltb_ℤ monthly z ≡ false) exact below))
]

gate_passed :
    (kind : RequestKind) (sub : Option Subscription)
    → gate kind sub ≡ ok tt
    → ((entitlements_of sub).managed_ai ≡ true)
      × (over_cap (entitlements_of sub).ai_credits_monthly (credits_used sub) (estimated_cost kind)
          ≡ false)
gate_passed kind sub h = ground arith

-- A stream is opened within the cap only. If `chat` answers with a stream, and the credits used and
-- the estimate together fit `i32`, then the caller's subscription includes managed AI, the credits
-- used and the estimate for the kind of request stay within its monthly credits unless these are
-- unlimited, and no table has changed.
pub chat_within_cap :
    (openai : Option (Option Str)) (user_id : ℕ) (model : Option Str) (kind : Option RequestKind)
    (status : Option ℕ) (w : World BillingDb) (answer : Str × RequestKind)
    → credits_used (active_row user_id w.db) + estimated_cost (kind_or_simple kind) ≤ i32_max
    → (chat openai user_id model kind status w).0 ≡ ok answer
    → ((entitlements_of (active_row user_id w.db)).managed_ai ≡ true)
      × (((entitlements_of (active_row user_id w.db)).ai_credits_monthly ≡ unlimited)
          ⊎ (pos (credits_used (active_row user_id w.db) + estimated_cost (kind_or_simple kind))
              ≤ℤ (entitlements_of (active_row user_id w.db)).ai_credits_monthly))
      × ((chat openai user_id model kind status w).1.db ≡ w.db)
unfolding chat fetch_active
chat_within_cap openai user_id model kind status w answer small h =
    let k = kind_or_simple kind in
    let last = λ (_ : Unit {0}). pure (elim model [ none ↦ codes "gpt-4o-mini" | some m ↦ m ], k) in
    let open_upstream = λ (_ : Unit {0}). lift (upstream status) >>= last in
    let check = λ (sub : Option Subscription). lift (gate k sub) >>= open_upstream in
    let look = λ (_ : Str). select (active_row user_id) >>= check in
    let (_, _, e1, h1) = lift_then (require_key openai) look w answer h in
    let (w2, same, e2, h2) = select_then (active_row user_id) check w answer h1 in
    let (_, passed, e3, h3) =
      lift_then (gate k (active_row user_id w.db)) open_upstream w2 answer h2 in
    let (_, _, e4, h4) = lift_then (upstream status) last w2 answer h3 in
    let (managed, cap) = gate_passed k (active_row user_id w.db) passed in
    (
      managed,
      within_cap (entitlements_of (active_row user_id w.db)).ai_credits_monthly
          (credits_used (active_row user_id w.db)) (estimated_cost k) small cap,
      ap (λ r. r.1.db) (e1 ∙ e2 ∙ e3 ∙ e4) ∙ same,
    )
