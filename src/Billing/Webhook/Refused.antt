-- ===== src/Billing/Webhook/Refused.antt =====
-- Subscription events that the tables never accept.
use mizan_connect.Base.{
  subst, ℕ, Str, ◌≡◌, ◌≢◌, refl, sym, ap, ◌∙◌, Bool, true, false, some, List, [], ◌∷◌, ◌++◌, exists,
  first, ◌||◌, arith, inl, inr, Bool-cases, if◌then◌else◌,
}
use mizan_connect.Error.{other_failure, from_sqlx, ok, err}
use mizan_connect.Exec.{World}
use mizan_connect.Exec.Laws.{statement_ok, statement_fails, bind_ok, select_value, select_db}
use mizan_connect.Billing.Webhook.Handled.{Handled, process-Handled, with_event}
use mizan_connect.Billing.Prices.{parsed, StripePrices}
use mizan_connect.Billing.Tables.{
  Subscription, Schema, current, BillingDb, upsert, store, column_is, is_unique, clash, is_row,
}
use mizan_connect.Billing.Repository.{
  WebhookSubscriptionUpsert, upsert_from_webhook_in, webhook_row, webhook_change, is_recorded,
  upsert_from_webhook,
}
use mizan_connect.Billing.Webhook.{
  WebhookLib, Envelope, SubscriptionObject, is_subscription_event, upsert_of, user_of,
  user_of_customer, resolve_user_id, upsert_for, on_subscription, handle_event, process,
}

-- A write of the current schema names no team, so its row is refused.
upsert_from_webhook_in-current :
    (now : ℕ) (p : WebhookSubscriptionUpsert) (d : BillingDb)
    → (upsert_from_webhook_in current now p d).0 ≡ err (from_sqlx other_failure)
unfolding upsert is_row
upsert_from_webhook_in-current now p d = refl

abbrev has_customer_id : Str → Subscription → Bool
has_customer_id c a = column_is a.stripe_customer_id c

clash_customer :
    (a b : Subscription) (c : Str)
    → b.stripe_customer_id ≡ some c
    → has_customer_id c a ≡ true
    → clash a b ≡ true
unfolding clash
clash_customer a b c e h = rw (e, h) refl

exists_last :
    (f : Subscription → Bool) (rows : List Subscription) (b : Subscription)
    → f b ≡ true
    → exists f (rows ++ b ∷ []) ≡ true
exists_last f [] b h = rw h refl
exists_last f (a ∷ rows) b h = ground (arith, exists_last f rows b h)

-- A second row of a customer breaks the unique index on the customer.
second_customer :
    (rows : List Subscription) (b : Subscription) (c : Str)
    → b.stripe_customer_id ≡ some c
    → exists (has_customer_id c) rows ≡ true
    → is_unique (rows ++ b ∷ []) ≡ false
unfolding is_unique
second_customer [] b c e h = absurd (cc)
second_customer (a ∷ rows) b c e h = elim (Bool-cases (has_customer_id c a)) [
  | inl same ↦ rw (exists_last (clash a) rows b (clash_customer a b c e same)) refl
  | inr other ↦
      let rest =
        second_customer rows b c e
          (subst (λ z. (z || exists (has_customer_id c) rows) ≡ true) other h) in
      ground arith
]

found_exists :
    (c : Str) (rows : List Subscription) (user : ℕ)
    → user_of (first (λ a. column_is a.stripe_customer_id c) rows) ≡ some user
    → exists (has_customer_id c) rows ≡ true
found_exists c [] user h = absurd (cc)
found_exists c (a ∷ rows) user h = elim (Bool-cases (has_customer_id c a)) [
  | inl same ↦ rw same refl
  | inr other ↦ rw other (
      found_exists c rows user (
        subst (λ z. user_of (if z then some a else first (has_customer_id c) rows) ≡ some user)
          other h))
]

-- An insertion that a unique index forbids.
upsert_new :
    (schema : Schema) (target : Subscription → Bool) (row : Subscription)
    (change : Subscription → Subscription) (d : BillingDb)
    → exists target d.subscriptions ≡ false
    → is_unique (d.subscriptions ++ row ∷ []) ≡ false
    → (upsert schema target row change d).0 ≢ ok tt
unfolding upsert store
upsert_new schema target row change d new broken h = ground arith

-- The statement that a subscription event runs, for a customer who has a row already and a
-- subscription that has none: either the row is refused or the index on the customer is broken.
upsert_from_webhook_in-new :
    (schema : Schema) (now : ℕ) (p : WebhookSubscriptionUpsert) (d : BillingDb)
    → exists (has_customer_id p.stripe_customer_id) d.subscriptions ≡ true
    → exists (λ a. column_is a.stripe_subscription_id p.stripe_subscription_id) d.subscriptions
      ≡ false
    → (upsert_from_webhook_in schema now p d).0 ≢ ok tt
upsert_from_webhook_in-new schema now p d customer new h =
    upsert_new schema _ (webhook_row now p) (webhook_change now p) d new
      (second_customer d.subscriptions (webhook_row now p) p.stripe_customer_id refl customer) h

module _ (lib : WebhookLib) (schema : Schema) (now : ℕ) where
  upsert_for-new :
      (prices : StripePrices) (sub : SubscriptionObject) (user : ℕ) (w : World BillingDb)
      → exists (has_customer_id sub.customer) w.db.subscriptions ≡ true
      → exists (λ a. column_is a.stripe_subscription_id sub.id) w.db.subscriptions ≡ false
      → (upsert_for lib schema now prices sub (some user) w).0 ≢ ok tt
  unfolding upsert_from_webhook
  upsert_for-new prices sub user w customer new h =
      upsert_from_webhook_in-new schema now (upsert_of lib schema now prices sub user) w.db customer
        new
        (statement_ok (upsert_from_webhook_in schema now (upsert_of lib schema now prices sub user))
          w tt h).0

  on_subscription-new :
      (prices : StripePrices) (sub : SubscriptionObject) (user : ℕ) (w : World BillingDb)
      → user_of_customer sub.customer w.db ≡ some user
      → exists (λ a. column_is a.stripe_subscription_id sub.id) w.db.subscriptions ≡ false
      → (on_subscription lib schema now prices (parsed sub) w).0 ≢ ok tt
  unfolding on_subscription resolve_user_id user_of_customer
  on_subscription-new prices sub user w known new h =
      let (found, looked, e) =
        bind_ok (resolve_user_id sub.customer) (upsert_for lib schema now prices sub) w tt h in
      let same = select_db (user_of_customer sub.customer) w in
      let is_user = sym (select_value (user_of_customer sub.customer) w found looked) ∙ known in
      let customer = found_exists sub.customer w.db.subscriptions user known in
      upsert_for-new prices sub user (resolve_user_id sub.customer w).1 (rw same customer)
        (rw same new)
        (subst
          (λ u.
            (upsert_for lib schema now prices sub u (resolve_user_id sub.customer w).1).0 ≡ ok tt)
          is_user (ap (λ r. r.0) (sym e) ∙ h))

  -- A handled event of a subscription has run `on_subscription` on the tables that record it.
  pub Handled-on_subscription :
      (prices : StripePrices) (env : Envelope lib.Value) (sub : SubscriptionObject)
      (w : World BillingDb) (code : ℕ)
      → is_subscription_event env.event_type ≡ true
      → lib.parse_subscription env.object ≡ parsed sub
      → is_recorded env.id w.db ≡ false
      → (process lib schema now prices env w).0 ≡ ok code
      → (w' : World BillingDb) × (w'.db ≡ with_event env.id env.event_type w.db)
        × ((on_subscription lib schema now prices (parsed sub) w').0 ≡ ok tt)
        × ((process lib schema now prices env w).1.db
            ≡ (on_subscription lib schema now prices (parsed sub) w').1.db)
  unfolding Handled handle_event
  Handled-on_subscription prices env sub w code kind parse fresh h =
      let (w', tables, done, result) = process-Handled lib schema now prices env w code fresh h in
      let run : (handle_event lib schema now prices env w'
          ≡ on_subscription lib schema now prices (parsed sub) w') =
        rw (kind, parse) refl in
      (w', tables, ap (λ r. r.0) (sym run) ∙ done, result ∙ ap (λ r. r.1.db) run)

  -- The first event of a subscription is never accepted. Whatever the schema: if the customer has
  -- a row (the row of the checkout) and the subscription has none, an event of the subscription
  -- that is not recorded yet is never answered by a success.
  pub process-first_subscription :
      (prices : StripePrices) (env : Envelope lib.Value) (sub : SubscriptionObject) (user : ℕ)
      (w : World BillingDb) (code : ℕ)
      → is_subscription_event env.event_type ≡ true
      → lib.parse_subscription env.object ≡ parsed sub
      → is_recorded env.id w.db ≡ false
      → user_of_customer sub.customer w.db ≡ some user
      → exists (λ a. column_is a.stripe_subscription_id sub.id) w.db.subscriptions ≡ false
      → (process lib schema now prices env w).0 ≢ ok code
  unfolding user_of_customer
  process-first_subscription prices env sub user w code kind parse fresh known new h =
      let (w', tables, done, _) =
        Handled-on_subscription prices env sub w code kind parse fresh h in
      on_subscription-new prices sub user w' (rw tables known) (rw tables new) done

-- No subscription event is ever accepted with every migration of the repository: once `team_id`
-- may not be NULL, an event of a customer who has a row, that is not recorded yet, is never
-- answered by a success, whether its subscription has a row or not.
pub process-current :
    (lib : WebhookLib) (now : ℕ) (prices : StripePrices) (env : Envelope lib.Value)
    (sub : SubscriptionObject) (user : ℕ) (w : World BillingDb) (code : ℕ)
    → is_subscription_event env.event_type ≡ true
    → lib.parse_subscription env.object ≡ parsed sub
    → is_recorded env.id w.db ≡ false
    → user_of_customer sub.customer w.db ≡ some user
    → (process lib current now prices env w).0 ≢ ok code
unfolding user_of_customer on_subscription resolve_user_id upsert_from_webhook
process-current lib now prices env sub user w code kind parse fresh known h =
    let (w', tables, done, _) =
      Handled-on_subscription lib current now prices env sub w code kind parse fresh h in
    let (found, looked, e) =
      bind_ok (resolve_user_id sub.customer) (upsert_for lib current now prices sub) w' tt done in
    let known' : user_of_customer sub.customer w'.db ≡ some user = rw tables known in
    let is_user = sym (select_value (user_of_customer sub.customer) w' found looked) ∙ known' in
    let p = upsert_of lib current now prices sub user in
    let w'' = (resolve_user_id sub.customer w').1 in
    let run = e ∙ ap (λ u. upsert_for lib current now prices sub u w'') is_user in
    statement_fails (upsert_from_webhook_in current now p) w'' (from_sqlx other_failure) tt
      (upsert_from_webhook_in-current now p w''.db) (ap (λ r. r.0) (sym run) ∙ done)
