-- ===== src/Billing/Webhook/Once.antt =====
-- An event takes effect once, whatever is delivered in between.
use mizan_connect.Base.{ℕ, ℤ, Str, ◌≡◌, true, Option, List, [], ◌∷◌}
use mizan_connect.Error.{Result, ok}
use mizan_connect.Exec.{World}
use mizan_connect.Billing.Prices.{parsed}
use mizan_connect.Billing.Tables.{Schema, BillingDb}
use mizan_connect.Billing.Repository.{is_recorded}
use mizan_connect.Billing.Webhook.{WebhookLib, Envelope, BillingContext, receive_webhook}
use mizan_connect.Billing.Webhook.Recorded.{receive_webhook-keeps}
use mizan_connect.Billing.Webhook.Delivery.{receive_webhook_records, receive_webhook_replay}

-- A request, with the clocks of the process and of the database when it is handled.
pub record Delivery : Type 0 where
  pub sig : Option Str
  pub body : Str
  pub unix_now : ℤ
  pub now : ℕ

module _ (lib : WebhookLib) (schema : Schema) (billing : Option BillingContext) where
  abbrev pub deliver : Delivery → World BillingDb → Result ℕ × World BillingDb
  deliver x = receive_webhook lib schema x.now billing x.sig x.body x.unix_now

  -- The tables behind deliveries that come one after the other. Each meets its own faults.
  abbrev pub deliver_all : List Delivery → World BillingDb → World BillingDb
  deliver_all [] w = w
  deliver_all (x ∷ xs) w = deliver_all xs (deliver x w).1

  deliver_all-keeps :
      (id : Str) (xs : List Delivery) (w : World BillingDb)
      → is_recorded id w.db ≡ true
      → is_recorded id (deliver_all xs w).db ≡ true
  deliver_all-keeps id [] w h = h
  deliver_all-keeps id (x ∷ xs) w h =
      deliver_all-keeps id xs (deliver x w).1
        (receive_webhook-keeps lib schema x.now id billing x.sig x.body x.unix_now w h)

  -- An event takes effect once. If a delivery of the event `env` is answered by a success, then,
  -- whatever is delivered behind it and whichever statements fail, a later delivery of the same
  -- event, whatever its signature and its answer, leaves every table as it is.
  pub receive_webhook_once :
      (x y : Delivery) (between : List Delivery) (env : Envelope lib.Value) (w : World BillingDb)
      (code : ℕ)
      → lib.parse_envelope x.body ≡ parsed env
      → lib.parse_envelope y.body ≡ parsed env
      → (deliver x w).0 ≡ ok code
      → (deliver y (deliver_all between (deliver x w).1)).1.db
        ≡ (deliver_all between (deliver x w).1).db
  receive_webhook_once x y between env w code px py h =
      receive_webhook_replay lib schema y.now billing y.sig y.body y.unix_now env _ py (
        deliver_all-keeps env.id between (deliver x w).1 (
          receive_webhook_records lib schema x.now billing x.sig x.body x.unix_now env w code px h))
