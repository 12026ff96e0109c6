-- ===== src/Billing/Webhook/Handled.antt =====
-- What an event that is answered by a success has done to the tables.
use mizan_connect.Base.{
  subst, ℕ, Str, ◌≡◌, refl, sym, ap, ◌∙◌, Bool, true, false, [], ◌∷◌, ◌++◌, arith,
}
use mizan_connect.Error.{ok}
use mizan_connect.Exec.{Action, World, begin, commit, pure, ◌>>=◌, ◌>>◌}
use mizan_connect.Exec.Laws.{begin_db, commit-pure_db, transaction_ok, statement_ok, bind_ok}
use mizan_connect.Billing.Prices.{StripePrices}
use mizan_connect.Billing.Tables.{Schema, BillingDb}
use mizan_connect.Billing.Repository.{try_record_in, try_record_stripe_event, is_recorded}
use mizan_connect.Billing.Webhook.{
  WebhookLib, Envelope, handle_event, handle_new, in_transaction, process,
}

-- The record of a new event.
abbrev pub with_event : Str → Str → BillingDb → BillingDb
with_event id event_type d = record d { stripe_events = d.stripe_events ++ (id, event_type) ∷ [] }

try_record_new :
    (id event_type : Str) (w : World BillingDb) (fresh : Bool)
    → is_recorded id w.db ≡ false
    → (try_record_stripe_event id event_type w).0 ≡ ok fresh
    → (fresh ≡ true)
      × ((try_record_stripe_event id event_type w).1.db ≡ with_event id event_type w.db)
unfolding try_record_stripe_event
try_record_new id event_type w fresh new e =
    let (value, tables) = statement_ok (try_record_in id event_type) w fresh e in
    (flag value, tables ∙ rw new refl)
  where
    flag : (try_record_in id event_type w.db).0 ≡ ok fresh → fresh ≡ true
    flag e = ground arith

module _ (lib : WebhookLib) (schema : Schema) (now : ℕ) where
  abbrev try_new : Envelope lib.Value → Action BillingDb Bool
  try_new env = try_record_stripe_event env.id env.event_type

  -- The world in which the event's handler runs, and what it makes of the tables.
  unfoldable pub Handled : StripePrices → Envelope lib.Value → World BillingDb → BillingDb → Type 0
  Handled prices env w d =
      (w' : World BillingDb) × (w'.db ≡ with_event env.id env.event_type w.db)
      × ((handle_event lib schema now prices env w').0 ≡ ok tt)
      × (d ≡ (handle_event lib schema now prices env w').1.db)

  handle_new-Handled :
      (prices : StripePrices) (env : Envelope lib.Value) (w : World BillingDb) (code : ℕ)
      → (handle_new lib schema now prices env true w).0 ≡ ok code
      → ((handle_event lib schema now prices env w).0 ≡ ok tt)
        × ((handle_new lib schema now prices env true w).1.db
            ≡ (handle_event lib schema now prices env w).1.db)
  handle_new-Handled prices env w code h =
      let (_, done, e) =
        bind_ok (handle_event lib schema now prices env) (λ _. commit >> pure 200) w code h in
      (
        done,
        ap (λ r. r.1.db) e
            ∙ commit-pure_db {A = ℕ} 200 (handle_event lib schema now prices env w).1,
      )

  body-Handled :
      (prices : StripePrices) (env : Envelope lib.Value) (w : World BillingDb) (code : ℕ)
      → is_recorded env.id w.db ≡ false
      → (in_transaction lib schema now prices env w).0 ≡ ok code
      → Handled prices env w (in_transaction lib schema now prices env w).1.db
  unfolding in_transaction Handled
  body-Handled prices env w code new h =
      let rest = λ (_ : Unit {0}). try_new env >>= handle_new lib schema now prices env in
      let (_, begun, e1) = bind_ok begin rest w code h in
      let (fresh, tried, e2) =
        bind_ok (try_new env) (handle_new lib schema now prices env) (begin w).1 code
          (ap (λ r. r.0) (sym e1) ∙ h) in
      let (is_new, tables) =
        try_record_new env.id env.event_type (begin w).1 fresh (rw begin_db new) tried in
      let w' = (try_new env (begin w).1).1 in
      let all = e1 ∙ e2 ∙ ap (λ b. handle_new lib schema now prices env b w') is_new in
      let (done, last) = handle_new-Handled prices env w' code (ap (λ r. r.0) (sym all) ∙ h) in
      (
        w',
        tables ∙ ap (with_event env.id env.event_type) (begin_db w),
        done,
        ap (λ r. r.1.db) all ∙ last,
      )

  -- A new event that is answered by a success has been handled, on the tables that record it.
  pub process-Handled :
      (prices : StripePrices) (env : Envelope lib.Value) (w : World BillingDb) (code : ℕ)
      → is_recorded env.id w.db ≡ false
      → (process lib schema now prices env w).0 ≡ ok code
      → Handled prices env w (process lib schema now prices env w).1.db
  unfolding process
  process-Handled prices env w code new h =
      let (inner, same) = transaction_ok (in_transaction lib schema now prices env) w code h in
      subst (λ r. Handled prices env w r.1.db) (sym same) (body-Handled prices env w code new inner)
