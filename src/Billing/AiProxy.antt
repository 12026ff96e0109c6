-- ===== src/Billing/AiProxy.antt =====
-- billing/ai_proxy.rs: `POST /v1/ai/chat`. The reply of the AI service is its sequence of chunks,
-- each of them bytes or a failure of the connection, and the client is the sequence of answers to
-- the sends on the channel. JSON and the decoding of bytes are the fields of an `AiLib`.
pub mod Framing
pub mod Cuts
pub mod Lines
pub mod Charge
pub mod Gate
mod Tests
use mizan_connect.Base.{
  zero, suc, ℕ, ℤ, ◌+◌, ◌+ℤ◌, pos, wrap, ltb_ℤ, eq_ℤ, Str, codes, str_eq, strip_prefix, split_once,
  Bool, true, false, not, ◌&&◌, Option, none, some, List, [], ◌∷◌, ◌++◌, length, ◌==◌,
  if◌then◌else◌, leb, suc, exists,
}
use mathlib.Core.List.{reverse}
use mizan_connect.Error.{
  app_error, forbidden, not_implemented, service_unavailable, unprocessable_entity, Result, ok, err,
  ok_or,
}
use mizan_connect.Exec.{Action, pure, raise, lift, transaction, begin, commit, ◌>>=◌, ◌>>◌}
use mizan_connect.Billing.Credits.{
  RequestKind, simple, analysis, csv_mapping, monthly_report, deep_report, estimated_cost,
  credits_for_tokens,
}
use mizan_connect.Billing.Entitlements.{Entitlements, unlimited, entitlements_for}
use mizan_connect.Billing.Tables.{Subscription, Usage, BillingDb}
use mizan_connect.Billing.Repository.{fetch_active, record_usage, add_ai_credits_used}

pub record TokenUsage : Type 0 where
  pub prompt_tokens : ℕ
  pub completion_tokens : ℕ
  pub total_tokens : ℕ

abbrev pub no_usage : TokenUsage
no_usage = record { prompt_tokens = 0; completion_tokens = 0; total_tokens = 0 }

pub record AiLib : Type 0 where
  pub from_utf8_lossy : List ℕ → Str
  -- The member `usage` of a payload, if the payload is JSON and the member is a `TokenUsage`.
  pub usage_in : Str → Option TokenUsage

pub data Chunk : Type 0 where
  bytes : List ℕ → Chunk
  broken : Chunk

-- `run_stream` while it reads: `sent` is what the client got, and `acks` says of each further send
-- whether the client is still there (of those beyond the list, that it is).
pub record Stream : Type 0 where
  pub buf : Str
  pub usage : TokenUsage
  pub sent : List Str
  pub acks : List Bool

pub data Outcome : Type 0 where
  reading : Stream → Outcome
  finished : TokenUsage → List Str → Outcome
  disconnected : List Str → Outcome

abbrev pub after : Outcome → (Stream → Outcome) → Outcome
after (reading o) f = f o
after (finished u sent) f = finished u sent
after (disconnected sent) f = disconnected sent

abbrev ack : List Bool → Bool × List Bool
ack [] = (true, [])
ack (a ∷ acks) = (a, acks)

-- `trim_end_matches('\r')`
abbrev drop_cr : Str → Str
drop_cr [] = []
drop_cr (c ∷ s) = if c == 13 then drop_cr s else c ∷ s

abbrev trim_end_cr : Str → Str
trim_end_cr s = reverse (drop_cr (reverse s))

abbrev usage_or : TokenUsage → Option TokenUsage → TokenUsage
usage_or old none = old
usage_or old (some u) = u

-- `.map(|s| s.ai_credits_used).unwrap_or(0)`, and the two texts of the subscription.
abbrev pub credits_used : Option Subscription → ℕ
credits_used none = 0
credits_used (some s) = s.ai_credits_used

abbrev pub entitlements_of : Option Subscription → Entitlements
entitlements_of none = entitlements_for none none
entitlements_of (some s) = entitlements_for (some s.tier) (some s.status)

-- The cap: the sum is of type `i32`.
unfoldable pub over_cap : ℤ → ℕ → ℕ → Bool
unfolding wrap eq_ℤ
over_cap monthly used estimated =
    not (eq_ℤ monthly unlimited) && ltb_ℤ monthly (wrap 32 (pos used +ℤ pos estimated))

abbrev kind_or_simple : Option RequestKind → RequestKind
kind_or_simple none = simple
kind_or_simple (some k) = k

abbrev pub kind_str : RequestKind → Str
kind_str simple = codes "simple"
kind_str analysis = codes "analysis"
kind_str csv_mapping = codes "csv_mapping"
kind_str monthly_report = codes "monthly_report"
kind_str deep_report = codes "deep_report"

abbrev gate : RequestKind → Option Subscription → Result (Unit {0})
gate kind sub =
    if not (entitlements_of sub).managed_ai
    then err (app_error forbidden (codes "managed Mizan AI requires a subscription"))
    else if over_cap (entitlements_of sub).ai_credits_monthly (credits_used sub)
        (estimated_cost kind)
    then err
        (app_error unprocessable_entity (codes "AI credit cap reached for this billing period"))
    else ok tt

-- `openai` is `none` without billing, and `some none` without a key.
abbrev require_key : Option (Option Str) → Result Str
require_key none = err (app_error not_implemented (codes "billing/AI not configured"))
require_key (some none) =
    err (app_error service_unavailable (codes "managed AI is not configured on this server"))
require_key (some (some key)) = ok key

-- The answer of the service to the opening of the connection: its status, if it is reached.
abbrev upstream : Option ℕ → Result (Unit {0})
upstream none = err (app_error service_unavailable (codes "upstream AI unreachable"))
upstream (some status) =
    if leb 200 status && leb status 299
    then ok tt
    else err (app_error service_unavailable (codes "upstream AI returned an error"))

-- `chat` up to the spawning of the stream. Its value is the model and the kind of the stream.
unfoldable pub chat :
    Option (Option Str)
    → ℕ
    → Option Str
    → Option RequestKind
    → Option ℕ
    → Action BillingDb (Str × RequestKind)
chat openai user_id model kind status = do
  lift (require_key openai)
  sub ← fetch_active user_id
  lift (gate (kind_or_simple kind) sub)
  lift (upstream status)
  pure (elim model [ none ↦ codes "gpt-4o-mini" | some m ↦ m ], kind_or_simple kind)

module _ (lib : AiLib) where
  abbrev forward : Str → Stream → Bool × List Bool → Outcome
  forward payload o (true, acks) = reading (record o {
    usage = usage_or o.usage (lib.usage_in payload);
    sent = o.sent ++ payload ∷ [];
    acks = acks;
  })
  forward payload o (false, acks) = disconnected o.sent

  abbrev terminate : Stream → Bool × List Bool → Outcome
  terminate o (true, acks) = finished o.usage (o.sent ++ codes "[DONE]" ∷ [])
  terminate o (false, acks) = finished o.usage o.sent

  -- `Event::data` panics on a carriage return, which ends the task as a client does that has gone.
  abbrev on_payload : Stream → Option Str → Outcome
  on_payload o none = reading o
  on_payload o (some payload) =
      if str_eq payload (codes "[DONE]")
      then terminate o (ack o.acks)
      else if exists (λ c. c == 13) payload
      then disconnected o.sent
      else forward payload o (ack o.acks)

  -- One line of the reply, without its newline.
  unfoldable pub on_line : Str → Stream → Outcome
  on_line line o = on_payload o (strip_prefix (codes "data: ") (trim_end_cr line))

  abbrev drain_with : (Stream → Outcome) → Stream → Option (Str × Str) → Outcome
  drain_with again o none = reading o
  drain_with again o (some (line, rest)) = after (on_line line (record o { buf = rest })) again

  -- `while let Some(nl) = buf.find('\n')`: each round shortens the buffer, so its length is enough
  -- fuel.
  unfoldable pub drain : ℕ → Stream → Outcome
  drain zero o = reading o
  drain (suc fuel) o = drain_with (drain fuel) o (split_once 10 o.buf)

  unfoldable pub receive : Str → Stream → Outcome
  receive text o = drain (length (o.buf ++ text)) (record o { buf = o.buf ++ text })

  unfoldable pub read_stream : List Chunk → Stream → Outcome
  read_stream [] o = reading o
  read_stream (broken ∷ chunks) o = reading o
  read_stream (bytes b ∷ chunks) o = after (receive (lib.from_utf8_lossy b) o) (read_stream chunks)

  abbrev pub start : List Bool → Stream
  start acks = record { buf = []; usage = no_usage; sent = []; acks = acks }

-- `usage.total_tokens as i32`
abbrev pub usage_row : ℕ → Str → RequestKind → TokenUsage → Usage
usage_row user_id model kind u = record {
  user_id = user_id;
  metric = codes "ai_reply";
  units = wrap 32 (pos u.total_tokens);
  cost_credits = credits_for_tokens u.prompt_tokens u.completion_tokens;
  model = some model;
  kind = some (kind_str kind);
}

unfoldable pub charge : ℕ → ℕ → Str → RequestKind → TokenUsage → Action BillingDb (Unit {0})
charge now user_id model kind u = transaction do
  begin
  record_usage (usage_row user_id model kind u)
  add_ai_credits_used now user_id (credits_for_tokens u.prompt_tokens u.completion_tokens)
  commit

abbrev reconcile : ℕ → ℕ → Str → RequestKind → Outcome → Action BillingDb (Unit {0})
reconcile now user_id model kind (reading o) = pure tt
reconcile now user_id model kind (disconnected sent) = pure tt
reconcile now user_id model kind (finished u sent) = charge now user_id model kind u

-- The errors of the charge are logged only.
unfoldable pub run_stream :
    AiLib → ℕ → ℕ → Str → RequestKind → List Bool → List Chunk → Action BillingDb (Unit {0})
run_stream lib now user_id model kind acks chunks w =
    (ok tt, (reconcile now user_id model kind (read_stream lib chunks (start lib acks)) w).1)
