-- ===== src/Billing/Handlers/Checkout.antt =====
-- What a checkout session is opened for, and who cannot open one.
use mizan_connect.Base.{
  ℕ, Str, codes, ◌≡◌, ◌≢◌, ◌⊎◌, inl, inr, refl, sym, ap, ◌∙◌, subst, Option, none, some,
}
use mizan_connect.Error.{AppError, ok, err, ok_or, other_failure, from_sqlx}
use mizan_connect.Exec.{World, pure, lift, ◌>>=◌}
use mizan_connect.Exec.Laws.{lift_then, select_then, statement_then, bind_ok}
use mizan_connect.Billing.Prices.{
  CheckoutPlan, BillingInterval, Parsed, parsed, failed, parse_plan, parse_interval, lookup,
}
use mizan_connect.Billing.Tables.{Schema, current, BillingDb, upsert, is_row}
use mizan_connect.Billing.Repository.{
  customer_in, fetch_customer_id, upsert_customer_stub, upsert_customer_stub_in,
}
use mizan_connect.Billing.Handlers.{
  Reply, created, rejected, StripeObject, CheckoutContext, CheckoutRequest, session_form, made,
  parsed_or_bad, price_of, configured, create_customer, customer_for, open_session, checkout_of,
  create_checkout_session,
}

some_ok : {A : Type 0} (e : AppError) (o : Option A) (a : A) → ok_or e o ≡ ok a → o ≡ some a
some_ok e none a h = absurd (cc)
some_ok e (some b) a h = ap some (cc h)

parsed_ok : {A : Type 0} (p : Parsed A) (a : A) → parsed_or_bad p ≡ ok a → p ≡ parsed a
parsed_ok (failed m) a h = absurd (cc)
parsed_ok (parsed b) a h = ap parsed (cc h)

made_ok : (r : Reply) (o : StripeObject) → made r ≡ ok o → r ≡ created o
made_ok (rejected e) o h = absurd (cc)
made_ok (created p) o h = ap created (cc h)

module _ (schema : Schema) (now user_id : ℕ) (email : Str) where
  -- How the session's customer came about.
  abbrev pub CustomerOf : BillingDb → Str → BillingDb → Type 0
  CustomerOf d customer d' =
      ((customer_in user_id d ≡ some customer) × (d' ≡ d))
      ⊎ ((customer_in user_id d ≡ none)
          × ((upsert_customer_stub_in schema now user_id customer d).0 ≡ ok tt)
          × (d' ≡ (upsert_customer_stub_in schema now user_id customer d).1))

  customer_for_ok :
      (billing : CheckoutContext) (found : Option Str) (d : BillingDb) (w : World BillingDb)
      (customer : Str)
      → customer_in user_id d ≡ found
      → w.db ≡ d
      → (customer_for schema now billing user_id email found w).0 ≡ ok customer
      → CustomerOf d customer (customer_for schema now billing user_id email found w).1.db
  unfolding upsert_customer_stub
  customer_for_ok billing (some id) d w customer is_found same h =
      inl (is_found ∙ ap some (cc h), same)
  customer_for_ok billing none d w customer is_found same h =
      let answer = λ (c : StripeObject). λ (_ : Unit {0}). pure {D = BillingDb} c.id in
      let write = λ (c : StripeObject). upsert_customer_stub schema now user_id c.id >>= answer c in
      let (c, _, e1, h1) =
        lift_then (made (create_customer billing.stripe email user_id)) write w customer h in
      let (_, w2, r2, s2, e2, h2) =
        statement_then (upsert_customer_stub_in schema now user_id c.id) (answer c) w customer h1 in
      let is : c.id ≡ customer = cc h2 in
      inr (
        is_found,
        subst (λ x. (upsert_customer_stub_in schema now user_id x d).0 ≡ ok tt) is
            (subst (λ x. (upsert_customer_stub_in schema now user_id c.id x).0 ≡ ok tt) same r2),
        ap (λ r. r.1.db) (e1 ∙ e2)
            ∙ s2
            ∙ ap (λ x. (upsert_customer_stub_in schema now user_id c.id x).1) same
            ∙ ap (λ x. (upsert_customer_stub_in schema now user_id x d).1) is,
      )

  checkout_of_ok :
      (billing : CheckoutContext) (price_id : Str) (w : World BillingDb) (url : Str)
      → (checkout_of schema now billing user_id email price_id w).0 ≡ ok url
      → (customer : Str) × (session : StripeObject) × (billing.stripe.post_form
            (codes "/v1/checkout/sessions")
            (session_form billing customer price_id user_id)
          ≡ created session)
        × (url ≡ session.url)
        × CustomerOf w.db customer (checkout_of schema now billing user_id email price_id w).1.db
  unfolding fetch_customer_id
  checkout_of_ok billing price_id w url h =
      let open_it = open_session billing price_id user_id in
      let customers =
        λ (found : Option Str). customer_for schema now billing user_id email found >>= open_it in
      let answer = λ (s : StripeObject). pure {D = BillingDb} s.url in
      let found = customer_in user_id w.db in
      let (w1, same, e1, h1) = select_then (customer_in user_id) customers w url h in
      let (customer, value, e2) =
        bind_ok (customer_for schema now billing user_id email found) open_it w1 url h1 in
      let w2 = (customer_for schema now billing user_id email found w1).1 in
      let (session, made_it, e3, h3) =
        lift_then
          (made (
            billing.stripe.post_form (codes "/v1/checkout/sessions")
              (session_form billing customer price_id user_id)))
          answer w2 url (ap (λ r. r.0) (sym e2) ∙ h1) in
      (
        customer,
        session,
        made_ok _ session made_it,
        sym (cc h3),
        subst (CustomerOf w.db customer) (sym (ap (λ r. r.1.db) (e1 ∙ e2 ∙ e3)))
            (customer_for_ok billing found w.db w1 customer refl same value),
      )

  -- A checkout session is opened for the price of the plan asked for. If the handler answers with a
  -- URL, then billing is configured, the request's plan and interval are read and have a price,
  -- Stripe made a session for that price, and the URL is the session's. The customer of the session
  -- is the one that the tables had, and they are as before, or they had none, and the stub of the
  -- new customer was accepted and is the only change.
  pub create_checkout_session_sound :
      (context : Option CheckoutContext) (req : CheckoutRequest) (w : World BillingDb) (url : Str)
      → (create_checkout_session schema now context user_id email req w).0 ≡ ok url
      → (billing : CheckoutContext) × (plan : CheckoutPlan) × (interval : BillingInterval)
        × (price_id : Str) × (customer : Str) × (session : StripeObject) × (context ≡ some billing)
        × (parse_plan req.plan ≡ parsed plan)
        × (parse_interval req.interval ≡ parsed interval)
        × (lookup billing.prices plan interval ≡ some price_id)
        × (billing.stripe.post_form
              (codes "/v1/checkout/sessions")
              (session_form billing customer price_id user_id)
            ≡ created session)
        × (url ≡ session.url)
        × CustomerOf w.db customer
            (create_checkout_session schema now context user_id email req w).1.db
  unfolding create_checkout_session
  create_checkout_session_sound context req w url h =
      let finish =
        λ (b : CheckoutContext). λ (price : Str). checkout_of schema now b user_id email price in
      let priced = λ (b : CheckoutContext).
        λ (p : CheckoutPlan). λ (i : BillingInterval). lift (price_of b p i) >>= finish b in
      let with_interval = λ (b : CheckoutContext).
        λ (p : CheckoutPlan). lift (parsed_or_bad (parse_interval req.interval)) >>= priced b p in
      let with_plan =
        λ (b : CheckoutContext). lift (parsed_or_bad (parse_plan req.plan)) >>= with_interval b in
      let (b, is_context, e1, h1) = lift_then (configured context) with_plan w url h in
      let (p, is_plan, e2, h2) =
        lift_then (parsed_or_bad (parse_plan req.plan)) (with_interval b) w url h1 in
      let (i, is_interval, e3, h3) =
        lift_then (parsed_or_bad (parse_interval req.interval)) (priced b p) w url h2 in
      let (price, is_price, e4, h4) = lift_then (price_of b p i) (finish b) w url h3 in
      let (customer, session, posted, is_url, tables) = checkout_of_ok b price w url h4 in
      (
        b,
        p,
        i,
        price,
        customer,
        session,
        some_ok _ context b is_context,
        parsed_ok (parse_plan req.plan) p is_plan,
        parsed_ok (parse_interval req.interval) i is_interval,
        some_ok _ (lookup b.prices p i) price is_price,
        posted,
        is_url,
        subst (CustomerOf w.db customer) (sym (ap (λ r. r.1.db) (e1 ∙ e2 ∙ e3 ∙ e4))) tables,
      )

stub-current :
    (now user_id : ℕ) (customer : Str) (d : BillingDb)
    → (upsert_customer_stub_in current now user_id customer d).0 ≡ err (from_sqlx other_failure)
unfolding upsert is_row
stub-current now user_id customer d = refl

-- A first checkout never succeeds with every migration of the repository: once `team_id` may not be
-- NULL, a user whom the tables give no customer is never answered with a session.
pub create_checkout_session-current :
    (now user_id : ℕ) (email : Str) (context : Option CheckoutContext) (req : CheckoutRequest)
    (w : World BillingDb) (url : Str)
    → customer_in user_id w.db ≡ none
    → (create_checkout_session current now context user_id email req w).0 ≢ ok url
create_checkout_session-current now user_id email context req w url no_customer h =
    let (_, _, _, _, customer, _, _, _, _, _, _, _, origin) =
      create_checkout_session_sound current now user_id email context req w url h in
    elim origin [
      | inl known ↦ absurd (cc (no_customer, known.0))
      | inr stub ↦ absurd (cc (stub.1, stub-current now user_id customer w.db))
    ]
