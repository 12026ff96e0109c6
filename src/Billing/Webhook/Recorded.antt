-- ===== src/Billing/Webhook/Recorded.antt =====
-- An event that is recorded in `stripe_events` stays recorded, whatever is delivered.
use mizan_connect.Base.{
  codes, ℕ, ℤ, Str, str_eq, ◌≡◌, Bool, true, false, Option, none, some, List, [], ◌∷◌, ◌++◌, exists,
  arith, inl, inr, Bool-cases,
}
use mizan_connect.Exec.{World, begin, commit, pure, ◌>>◌}
use mizan_connect.Exec.Laws.{
  begin_db, commit-pure_db, transaction_keeps, select_db, statement_keeps, bind_keeps,
}
use mizan_connect.Billing.Prices.{Parsed, parsed, failed, StripePrices}
use mizan_connect.Billing.Tables.{Subscription, Schema, BillingDb, upsert}
use mizan_connect.Billing.Repository.{
  upsert_from_webhook_in, webhook_row, webhook_change, reset_ai_credits_in, try_record_in,
  try_record_stripe_event, is_recorded, upsert_from_webhook, reset_ai_credits,
}
use mizan_connect.Billing.Signature.{Verification, verified, refused, verify_webhook}
use mizan_connect.Billing.Webhook.{
  upsert_of, is_subscription_event, WebhookLib, Envelope, BillingContext, SubscriptionObject,
  InvoiceObject, resolve_user_id, upsert_for, reset_for, on_subscription, on_invoice, handle_event,
  handle_new, in_transaction, process, on_envelope, on_verification, receive_webhook,
}

module _ (lib : WebhookLib) (schema : Schema) (now : ℕ) (id : Str) where
  abbrev pub Recorded : BillingDb → Type 0
  Recorded d = is_recorded id d ≡ true

  Recorded-upsert :
      (target : Subscription → Bool) (row : Subscription) (change : Subscription → Subscription)
      (d : BillingDb)
      → Recorded d
      → Recorded (upsert schema target row change d).1
  unfolding upsert
  Recorded-upsert target row change d h = ground arith

  pub exists-append :
      (es : List (Str × Str)) (e : Str × Str)
      → exists (λ x. str_eq x.0 id) es ≡ true
      → exists (λ x. str_eq x.0 id) (es ++ e ∷ []) ≡ true
  exists-append [] e h = cc
  exists-append (x ∷ es) e h = ground (arith, exists-append es e)

  upsert_for-keeps :
      (prices : StripePrices) (sub : SubscriptionObject) (user : Option ℕ) (w : World BillingDb)
      → Recorded w.db
      → Recorded (upsert_for lib schema now prices sub user w).1.db
  unfolding upsert_from_webhook
  upsert_for-keeps prices sub none w h = h
  upsert_for-keeps prices sub (some user) w h =
      statement_keeps Recorded
        (upsert_from_webhook_in schema now (upsert_of lib schema now prices sub user)) w
        (Recorded-upsert _ (webhook_row now (upsert_of lib schema now prices sub user))
          (webhook_change now (upsert_of lib schema now prices sub user)))
        h

  reset_for-keeps :
      (sub_id : Option Str) (start : Option ℕ) (w : World BillingDb)
      → Recorded w.db
      → Recorded (reset_for lib schema now sub_id start w).1.db
  unfolding reset_ai_credits
  reset_for-keeps (some s) (some p) w h =
      statement_keeps Recorded (reset_ai_credits_in now s p) w (λ d k. k) h
  reset_for-keeps (some s) none w h = h
  reset_for-keeps none p w h = h

  resolve_user_id-keeps :
      (customer : Str) (w : World BillingDb)
      → Recorded w.db
      → Recorded (resolve_user_id customer w).1.db
  unfolding resolve_user_id
  resolve_user_id-keeps customer w h = rw select_db h

  on_subscription-keeps :
      (prices : StripePrices) (p : Parsed SubscriptionObject) (w : World BillingDb)
      → Recorded w.db
      → Recorded (on_subscription lib schema now prices p w).1.db
  unfolding on_subscription
  on_subscription-keeps prices (failed e) w h = h
  on_subscription-keeps prices (parsed sub) w h =
      bind_keeps Recorded (resolve_user_id sub.customer) (upsert_for lib schema now prices sub) w
        (resolve_user_id-keeps sub.customer w h)
        λ user _.
          upsert_for-keeps prices sub user (resolve_user_id sub.customer w).1
            (resolve_user_id-keeps sub.customer w h)

  on_invoice-keeps :
      (p : Parsed InvoiceObject) (w : World BillingDb)
      → Recorded w.db
      → Recorded (on_invoice lib schema now p w).1.db
  unfolding on_invoice
  on_invoice-keeps (failed e) w h = h
  on_invoice-keeps (parsed invoice) w h = reset_for-keeps invoice.subscription _ w h

  pub handle_event-keeps :
      (prices : StripePrices) (env : Envelope lib.Value) (w : World BillingDb)
      → Recorded w.db
      → Recorded (handle_event lib schema now prices env w).1.db
  unfolding handle_event
  handle_event-keeps prices env w h = elim (Bool-cases (is_subscription_event env.event_type)) [
    | inl e ↦ rw e (on_subscription-keeps prices (lib.parse_subscription env.object) w h)
    | inr e ↦ rw e (elim (Bool-cases (str_eq env.event_type (codes "invoice.paid"))) [
      | inl e ↦ rw e (on_invoice-keeps (lib.parse_invoice env.object) w h)
      | inr e ↦ rw e h
    ])
  ]

  pub handle_new-keeps :
      (prices : StripePrices) (env : Envelope lib.Value) (fresh : Bool) (w : World BillingDb)
      → Recorded w.db
      → Recorded (handle_new lib schema now prices env fresh w).1.db
  handle_new-keeps prices env false w h = rw (commit-pure_db {A = ℕ} 200 w) h
  handle_new-keeps prices env true w h =
      bind_keeps Recorded (handle_event lib schema now prices env) (λ _. commit >> pure 200) w
        (handle_event-keeps prices env w h)
        (λ _ _.
          rw (commit-pure_db {A = ℕ} 200 (handle_event lib schema now prices env w).1)
            (handle_event-keeps prices env w h))

  try_record-keeps :
      (event_id event_type : Str) (w : World BillingDb)
      → Recorded w.db
      → Recorded (try_record_stripe_event event_id event_type w).1.db
  unfolding try_record_stripe_event
  try_record-keeps event_id event_type w h =
      statement_keeps Recorded (try_record_in event_id event_type) w
        (λ d k. elim (Bool-cases (is_recorded event_id d)) [
          | inl e ↦ rw e k
          | inr e ↦ rw e (exists-append d.stripe_events (event_id, event_type) k)
        ])
        h

  process-keeps :
      (prices : StripePrices) (env : Envelope lib.Value) (w : World BillingDb)
      → Recorded w.db
      → Recorded (process lib schema now prices env w).1.db
  unfolding process in_transaction
  process-keeps prices env w h =
      let begun : Recorded (begin w).1.db = rw begin_db h in
      let tried : Recorded (try_record_stripe_event env.id env.event_type (begin w).1).1.db =
        try_record-keeps env.id env.event_type (begin w).1 begun in
      transaction_keeps Recorded (in_transaction lib schema now prices env) w h (
        bind_keeps Recorded begin _ w begun (λ _ _.
          bind_keeps Recorded (try_record_stripe_event env.id env.event_type)
            (handle_new lib schema now prices env) (begin w).1 tried
            (λ fresh _. handle_new-keeps prices env fresh _ tried)))

  on_envelope-keeps :
      (prices : StripePrices) (p : Parsed (Envelope lib.Value)) (w : World BillingDb)
      → Recorded w.db
      → Recorded (on_envelope lib schema now prices p w).1.db
  on_envelope-keeps prices (failed m) w h = h
  on_envelope-keeps prices (parsed env) w h = process-keeps prices env w h

  on_verification-keeps :
      (prices : StripePrices) (body : Str) (v : Verification) (w : World BillingDb)
      → Recorded w.db
      → Recorded (on_verification lib schema now prices body v w).1.db
  on_verification-keeps prices body (refused x) w h = h
  on_verification-keeps prices body (verified t) w h =
      on_envelope-keeps prices (lib.parse_envelope body) w h

  -- An event that is recorded stays recorded, whatever is delivered, however it is answered and
  -- whichever statements fail.
  pub receive_webhook-keeps :
      (billing : Option BillingContext) (sig : Option Str) (body : Str) (unix_now : ℤ)
      (w : World BillingDb)
      → Recorded w.db
      → Recorded (receive_webhook lib schema now billing sig body unix_now w).1.db
  unfolding receive_webhook
  receive_webhook-keeps none sig body unix_now w h = h
  receive_webhook-keeps (some b) none body unix_now w h = h
  receive_webhook-keeps (some b) (some sig) body unix_now w h =
      on_verification-keeps b.prices body
        (verify_webhook lib.hmac lib.hex_decode b.webhook_secret sig body unix_now) w h
