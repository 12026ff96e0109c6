-- ===== src/Billing/Webhook/Delivery.antt =====
-- Deliveries of a webhook: all or nothing, and a second delivery of an event does nothing.
use mizan_connect.Base.{
  subst, ℕ, ℤ, Str, str_eq, str_eq_refl, ◌≡◌, refl, sym, ap, ◌∙◌, Bool, true, false, Option, none,
  some, List, [], ◌∷◌, ◌++◌, exists, arith, inl, inr, Bool-cases,
}
use mizan_connect.Error.{AppError, ok, err}
use mizan_connect.Exec.{Action, World, begin, ◌>>=◌}
use mizan_connect.Exec.Laws.{
  begin_db, commit-pure_db, transaction_keeps, transaction_rollback, statement_keeps, statement_ok,
  bind_ok, bind_keeps, transaction_ok,
}
use mizan_connect.Billing.Prices.{Parsed, parsed, failed, StripePrices}
use mizan_connect.Billing.Tables.{Schema, BillingDb}
use mizan_connect.Billing.Repository.{try_record_in, try_record_stripe_event, is_recorded}
use mizan_connect.Billing.Signature.{Verification, verified, refused, verify_webhook}
use mizan_connect.Billing.Webhook.Recorded.{handle_new-keeps}
use mizan_connect.Billing.Webhook.{
  WebhookLib, Envelope, BillingContext, handle_new, in_transaction, process, on_envelope,
  on_verification, receive_webhook,
}

try_record_seen :
    (id event_type : Str) (w : World BillingDb)
    → is_recorded id w.db ≡ true
    → (try_record_stripe_event id event_type w).1.db ≡ w.db
unfolding try_record_stripe_event
try_record_seen id event_type w h =
    (statement_keeps (λ d. (is_recorded id d ≡ true) × (d ≡ w.db)) (try_record_in id event_type) w
      (λ d k. rw k.0 k) (h, refl)).1

try_record_old :
    (id event_type : Str) (w : World BillingDb) (fresh : Bool)
    → is_recorded id w.db ≡ true
    → (try_record_stripe_event id event_type w).0 ≡ ok fresh
    → fresh ≡ false
unfolding try_record_stripe_event
try_record_old id event_type w fresh h e =
    let k = (statement_ok (try_record_in id event_type) w fresh e).0 in ground arith

is_recorded-append :
    (id event_type : Str) (es : List (Str × Str))
    → exists (λ x. str_eq x.0 id) (es ++ (id, event_type) ∷ []) ≡ true
is_recorded-append id event_type [] = ground (arith, str_eq_refl id)
is_recorded-append id event_type (e ∷ es) = ground (arith, is_recorded-append id event_type es)

-- Whether the event was new or not, a successful statement leaves it recorded.
try_record_records :
    (id event_type : Str) (w : World BillingDb) (fresh : Bool)
    → (try_record_stripe_event id event_type w).0 ≡ ok fresh
    → is_recorded id (try_record_stripe_event id event_type w).1.db ≡ true
unfolding try_record_stripe_event
try_record_records id event_type w fresh e =
    rw ((statement_ok (try_record_in id event_type) w fresh e).1)
      (elim (Bool-cases (is_recorded id w.db)) [
        | inl old ↦ rw old old
        | inr new ↦ rw new (is_recorded-append id event_type w.db.stripe_events)
      ])

module _ (lib : WebhookLib) (schema : Schema) (now : ℕ) where
  abbrev deliver : Option BillingContext → Option Str → Str → ℤ → Action BillingDb ℕ
  deliver = receive_webhook lib schema now

  on_envelope-atomic :
      (prices : StripePrices) (p : Parsed (Envelope lib.Value)) (w : World BillingDb) (e : AppError)
      → (on_envelope lib schema now prices p w).0 ≡ err e
      → (on_envelope lib schema now prices p w).1.db ≡ w.db
  unfolding process
  on_envelope-atomic prices (failed m) w e h = refl
  on_envelope-atomic prices (parsed env) w e h =
      transaction_rollback (in_transaction lib schema now prices env) w e h

  on_verification-atomic :
      (prices : StripePrices) (body : Str) (v : Verification) (w : World BillingDb) (e : AppError)
      → (on_verification lib schema now prices body v w).0 ≡ err e
      → (on_verification lib schema now prices body v w).1.db ≡ w.db
  on_verification-atomic prices body (refused x) w e h = refl
  on_verification-atomic prices body (verified t) w e h =
      on_envelope-atomic prices (lib.parse_envelope body) w e h

  -- A delivery that is answered by an error, whatever the error and wherever it arose, has changed
  -- no table: neither a subscription nor the record of the event.
  pub receive_webhook_atomic :
      (billing : Option BillingContext) (sig : Option Str) (body : Str) (unix_now : ℤ)
      (w : World BillingDb) (e : AppError)
      → (deliver billing sig body unix_now w).0 ≡ err e
      → (deliver billing sig body unix_now w).1.db ≡ w.db
  unfolding receive_webhook
  receive_webhook_atomic none sig body unix_now w e h = refl
  receive_webhook_atomic (some b) none body unix_now w e h = refl
  receive_webhook_atomic (some b) (some sig) body unix_now w e h =
      on_verification-atomic b.prices body
        (verify_webhook lib.hmac lib.hex_decode b.webhook_secret sig body unix_now) w e h

  -- A recorded event: the transaction ends without a write.
  replay_body :
      (prices : StripePrices) (env : Envelope lib.Value) (w : World BillingDb)
      → is_recorded env.id w.db ≡ true
      → (in_transaction lib schema now prices env w).1.db ≡ w.db
  unfolding in_transaction
  replay_body prices env w h =
      bind_keeps (λ d. d ≡ w.db) begin _ w (begin_db w)
        λ _ _.
          let seen : is_recorded env.id (begin w).1.db ≡ true = rw begin_db h in
          let same = try_record_seen env.id env.event_type (begin w).1 seen in
          bind_keeps (λ d. d ≡ w.db) (try_record_stripe_event env.id env.event_type)
            (handle_new lib schema now prices env) (begin w).1 (same ∙ begin_db w)
            λ fresh e.
              rw (try_record_old env.id env.event_type (begin w).1 fresh seen e)
                (commit-pure_db {A = ℕ} 200 _ ∙ same ∙ begin_db w)

  process_replay :
      (prices : StripePrices) (env : Envelope lib.Value) (w : World BillingDb)
      → is_recorded env.id w.db ≡ true
      → (process lib schema now prices env w).1.db ≡ w.db
  unfolding process
  process_replay prices env w h =
      transaction_keeps (λ d. d ≡ w.db) (in_transaction lib schema now prices env) w refl
        (replay_body prices env w h)

  abbrev try_env : Envelope lib.Value → Action BillingDb Bool
  try_env env = try_record_stripe_event env.id env.event_type

  body_records :
      (prices : StripePrices) (env : Envelope lib.Value) (w : World BillingDb) (code : ℕ)
      → (in_transaction lib schema now prices env w).0 ≡ ok code
      → is_recorded env.id (in_transaction lib schema now prices env w).1.db ≡ true
  unfolding in_transaction
  body_records prices env w code h =
      let rest = λ (_ : Unit {0}). try_env env >>= handle_new lib schema now prices env in
      let (_, begun, e1) = bind_ok begin rest w code h in
      let (fresh, tried, e2) =
        bind_ok (try_env env) (handle_new lib schema now prices env) (begin w).1 code
          (ap (λ r. r.0) (sym e1) ∙ h) in
      let recorded = try_record_records env.id env.event_type (begin w).1 fresh tried in
      subst (λ r. is_recorded env.id r.1.db ≡ true) (sym (e1 ∙ e2))
        (handle_new-keeps lib schema now env.id prices env fresh (try_env env (begin w).1).1
          recorded)

  process_records :
      (prices : StripePrices) (env : Envelope lib.Value) (w : World BillingDb) (code : ℕ)
      → (process lib schema now prices env w).0 ≡ ok code
      → is_recorded env.id (process lib schema now prices env w).1.db ≡ true
  unfolding process
  process_records prices env w code h =
      let (inner, same) = transaction_ok (in_transaction lib schema now prices env) w code h in
      subst (λ r. is_recorded env.id r.1.db ≡ true) (sym same)
        (body_records prices env w code inner)

  abbrev id_of : Envelope lib.Value → Parsed (Envelope lib.Value) → Str
  id_of env (failed m) = env.id
  id_of env (parsed x) = x.id

  on_envelope-records :
      (prices : StripePrices) (p : Parsed (Envelope lib.Value)) (env : Envelope lib.Value)
      (w : World BillingDb) (code : ℕ)
      → p ≡ parsed env
      → (on_envelope lib schema now prices p w).0 ≡ ok code
      → is_recorded env.id (on_envelope lib schema now prices p w).1.db ≡ true
  on_envelope-records prices (failed m) env w code e h = absurd (cc)
  on_envelope-records prices (parsed env') env w code e h =
      subst (λ id. is_recorded id (process lib schema now prices env' w).1.db ≡ true)
        (ap (id_of env) e) (process_records prices env' w code h)

  on_envelope-replay :
      (prices : StripePrices) (p : Parsed (Envelope lib.Value)) (env : Envelope lib.Value)
      (w : World BillingDb)
      → p ≡ parsed env
      → is_recorded env.id w.db ≡ true
      → (on_envelope lib schema now prices p w).1.db ≡ w.db
  on_envelope-replay prices (failed m) env w e h = refl
  on_envelope-replay prices (parsed env') env w e h =
      process_replay prices env' w
        (subst (λ id. is_recorded id w.db ≡ true) (ap (id_of env) (sym e)) h)

  -- A delivery of `env` that is answered by a success leaves its event recorded.
  pub receive_webhook_records :
      (billing : Option BillingContext) (sig : Option Str) (body : Str) (unix_now : ℤ)
      (env : Envelope lib.Value) (w : World BillingDb) (code : ℕ)
      → lib.parse_envelope body ≡ parsed env
      → (deliver billing sig body unix_now w).0 ≡ ok code
      → is_recorded env.id (deliver billing sig body unix_now w).1.db ≡ true
  unfolding receive_webhook
  receive_webhook_records none sig body unix_now env w code e h = absurd (cc)
  receive_webhook_records (some b) none body unix_now env w code e h = absurd (cc)
  receive_webhook_records (some b) (some sig) body unix_now env w code e h =
      go (verify_webhook lib.hmac lib.hex_decode b.webhook_secret sig body unix_now) h
    where
      go :
          (v : Verification)
          → (on_verification lib schema now b.prices body v w).0 ≡ ok code
          → is_recorded env.id (on_verification lib schema now b.prices body v w).1.db ≡ true
      go (refused x) h = absurd (cc)
      go (verified t) h = on_envelope-records b.prices (lib.parse_envelope body) env w code e h

  -- A delivery of a recorded event changes no table.
  pub receive_webhook_replay :
      (billing : Option BillingContext) (sig : Option Str) (body : Str) (unix_now : ℤ)
      (env : Envelope lib.Value) (w : World BillingDb)
      → lib.parse_envelope body ≡ parsed env
      → is_recorded env.id w.db ≡ true
      → (deliver billing sig body unix_now w).1.db ≡ w.db
  unfolding receive_webhook
  receive_webhook_replay none sig body unix_now env w e h = refl
  receive_webhook_replay (some b) none body unix_now env w e h = refl
  receive_webhook_replay (some b) (some sig) body unix_now env w e h =
      go (verify_webhook lib.hmac lib.hex_decode b.webhook_secret sig body unix_now)
    where
      go : (v : Verification) → (on_verification lib schema now b.prices body v w).1.db ≡ w.db
      go (refused x) = refl
      go (verified t) = on_envelope-replay b.prices (lib.parse_envelope body) env w e h
