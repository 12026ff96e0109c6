-- ===== src/Billing/Webhook/Effects.antt =====
-- What the events do to the subscriptions: an update, a paid invoice, and any other event.
use mizan_connect.Base.{
  ℕ, Str, codes, str_eq, ◌≡◌, refl, sym, ap, ◌∙◌, Bool, true, false, some, exists, update_where,
  arith,
}
use mizan_connect.Error.{ok}
use mizan_connect.Exec.{World}
use mizan_connect.Exec.Laws.{statement_ok, bind_ok, select_value, select_db}
use mizan_connect.Billing.Prices.{parsed, StripePrices}
use mizan_connect.Billing.Tables.{
  Subscription, Schema, BillingDb, upsert, store, column_is, is_unique,
}
use mizan_connect.Billing.Repository.{
  upsert_from_webhook_in, webhook_row, webhook_change, is_recorded, upsert_from_webhook,
  reset_ai_credits, reset_ai_credits_in,
}
use mizan_connect.Billing.Webhook.{
  WebhookLib, Envelope, SubscriptionObject, InvoiceObject, ts, is_subscription_event, upsert_of,
  user_of_customer, resolve_user_id, upsert_for, on_subscription, on_invoice, handle_event, process,
  slug_or_basic, resolve_tier,
}
use mizan_connect.Billing.Webhook.Handled.{Handled, process-Handled, with_event}
use mizan_connect.Billing.Webhook.Refused.{Handled-on_subscription}

-- A successful upsert of a key that has a row updates the rows of the key and nothing else.
upsert_known :
    (schema : Schema) (target : Subscription → Bool) (row : Subscription)
    (change : Subscription → Subscription) (d : BillingDb)
    → exists target d.subscriptions ≡ true
    → (upsert schema target row change d).0 ≡ ok tt
    → ((upsert schema target row change d).1
        ≡ record d { subscriptions = update_where target change d.subscriptions })
      × (is_unique (update_where target change d.subscriptions) ≡ true)
unfolding upsert store
upsert_known schema target row change d known h = ground arith

module _ (lib : WebhookLib) (schema : Schema) (now : ℕ) where
  -- A paid invoice resets the credits. If an `invoice.paid` event that is not recorded yet is
  -- answered by a success, and its invoice names a subscription and a valid start of the period,
  -- then each row of that subscription has used no credits since that start, every other row and
  -- the usage ledger are as before, and the event is recorded.
  pub process-invoice_paid :
      (prices : StripePrices) (env : Envelope lib.Value) (invoice : InvoiceObject) (sub_id : Str)
      (start : ℕ) (w : World BillingDb) (code : ℕ)
      → env.event_type ≡ codes "invoice.paid"
      → lib.parse_invoice env.object ≡ parsed invoice
      → invoice.subscription ≡ some sub_id
      → ts lib schema now invoice.period_start ≡ some start
      → is_recorded env.id w.db ≡ false
      → (process lib schema now prices env w).0 ≡ ok code
      → (process lib schema now prices env w).1.db
        ≡ record (with_event env.id env.event_type w.db) {
          subscriptions =
              update_where
                (λ a. column_is a.stripe_subscription_id sub_id)
                (λ a. record a {
                  ai_credits_used = 0;
                  ai_credits_period_start = some start;
                  updated_at = now;
                })
                w.db.subscriptions;
        }
  unfolding Handled handle_event on_invoice reset_ai_credits str_eq
  process-invoice_paid prices env invoice sub_id start w code kind parse named valid fresh h =
      let (w', tables, done, result) = process-Handled lib schema now prices env w code fresh h in
      let run : (handle_event lib schema now prices env w' ≡ reset_ai_credits now sub_id start w') =
        rw (kind, parse, named, valid) refl in
      let reset =
        statement_ok (reset_ai_credits_in now sub_id start) w' tt
          (ap (λ r. r.0) (sym run) ∙ done) in
      result ∙ ap (λ r. r.1.db) run ∙ reset.1 ∙ rw tables refl

  -- An event of another type is recorded and changes nothing else.
  pub process-other_event :
      (prices : StripePrices) (env : Envelope lib.Value) (w : World BillingDb) (code : ℕ)
      → is_subscription_event env.event_type ≡ false
      → str_eq env.event_type (codes "invoice.paid") ≡ false
      → is_recorded env.id w.db ≡ false
      → (process lib schema now prices env w).0 ≡ ok code
      → (process lib schema now prices env w).1.db ≡ with_event env.id env.event_type w.db
  unfolding Handled handle_event
  process-other_event prices env w code kind invoice fresh h =
      let (w', tables, done, result) = process-Handled lib schema now prices env w code fresh h in
      result ∙ rw (kind, invoice) tables

  on_subscription-known :
      (prices : StripePrices) (sub : SubscriptionObject) (user : ℕ) (w : World BillingDb)
      → user_of_customer sub.customer w.db ≡ some user
      → exists (λ a. column_is a.stripe_subscription_id sub.id) w.db.subscriptions ≡ true
      → (on_subscription lib schema now prices (parsed sub) w).0 ≡ ok tt
      → ((on_subscription lib schema now prices (parsed sub) w).1.db ≡ record w.db {
        subscriptions =
            update_where
              (λ a. column_is a.stripe_subscription_id sub.id)
              (webhook_change now (upsert_of lib schema now prices sub user))
              w.db.subscriptions;
      })
  unfolding on_subscription resolve_user_id upsert_from_webhook
  on_subscription-known prices sub user w known row h =
      let (found, looked, e) =
        bind_ok (resolve_user_id sub.customer) (upsert_for lib schema now prices sub) w tt h in
      let same = select_db (user_of_customer sub.customer) w in
      let is_user = sym (select_value (user_of_customer sub.customer) w found looked) ∙ known in
      let p = upsert_of lib schema now prices sub user in
      let w' = (resolve_user_id sub.customer w).1 in
      let run = e ∙ ap (λ u. upsert_for lib schema now prices sub u w') is_user in
      let (value, tables) =
        statement_ok (upsert_from_webhook_in schema now p) w' tt (ap (λ r. r.0) (sym run) ∙ h) in
      ap (λ r. r.1.db) run
      ∙ tables
      ∙ (upsert_known schema _ (webhook_row now p) (webhook_change now p) w'.db (rw same row)
          value).0
      ∙ rw same refl

  -- An event of a subscription that has a row. If it is not recorded yet, its customer has a row
  -- and it is answered by a success, then the rows of the subscription have the event's tier,
  -- status, period and cancellation flag, every other column and row and the usage ledger are as
  -- before, and the event is recorded.
  pub process-known_subscription :
      (prices : StripePrices) (env : Envelope lib.Value) (sub : SubscriptionObject) (user : ℕ)
      (w : World BillingDb) (code : ℕ)
      → is_subscription_event env.event_type ≡ true
      → lib.parse_subscription env.object ≡ parsed sub
      → is_recorded env.id w.db ≡ false
      → user_of_customer sub.customer w.db ≡ some user
      → exists (λ a. column_is a.stripe_subscription_id sub.id) w.db.subscriptions ≡ true
      → (process lib schema now prices env w).0 ≡ ok code
      → (process lib schema now prices env w).1.db
        ≡ record (with_event env.id env.event_type w.db) {
          subscriptions =
              update_where
                (λ a. column_is a.stripe_subscription_id sub.id)
                (λ a. record a {
                  tier = slug_or_basic (resolve_tier sub prices);
                  status = sub.status;
                  current_period_start = ts lib schema now sub.current_period_start;
                  current_period_end = ts lib schema now sub.current_period_end;
                  cancel_at_period_end = sub.cancel_at_period_end;
                  updated_at = now;
                })
                w.db.subscriptions;
        }
  unfolding user_of_customer
  process-known_subscription prices env sub user w code kind parse fresh known row h =
      let (w', tables, done, result) =
        Handled-on_subscription lib schema now prices env sub w code kind parse fresh h in
      result
      ∙ on_subscription-known prices sub user w' (rw tables known) (rw tables row) done
      ∙ rw tables refl
