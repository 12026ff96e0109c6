-- ===== src/Billing/AiProxy/Tests.antt =====
-- The proxy on concrete replies.
use mizan_connect.Base.{
  strip_prefix, split_once, Any, ◌++◌, ◌+◌, ◌≤◌, pos, ◌≤ℤ◌, ◌≡◌, ◌⊎◌, refl, Str, codes, str_eq,
  true, false, Option, none, some, List, [], ◌∷◌, arith, to_ascii_lowercase,
}
use mizan_connect.Error.{ok}
use mizan_connect.Exec.{World, select, statement}
use mizan_connect.Billing.Credits.{simple, analysis, estimated_cost, i32_max}
use mizan_connect.Billing.Entitlements.{unlimited, entitlements_for}
use mizan_connect.Billing.Tables.{Subscription, BillingDb, is_billable}
use mizan_connect.Billing.Repository.{active_row, fetch_active}
use mizan_connect.Billing.AiProxy.{
  on_line, drain, receive, AiLib, Chunk, bytes, TokenUsage, finished, read_stream, start,
  entitlements_of, credits_used, over_cap, chat, run_stream,
}
use mizan_connect.Billing.AiProxy.Lines.{IsDone, ended_lines}
use mizan_connect.Billing.AiProxy.Cuts.{decoded, read_stream_cuts}
use mizan_connect.Billing.AiProxy.Charge.{charged, run_stream_charges}
use mizan_connect.Billing.AiProxy.Gate.{chat_within_cap}

-- Bytes are decoded one by one, and no payload names a usage.
abbrev lib : AiLib
lib = record { from_utf8_lossy = λ b. b; usage_in = λ p. none }

abbrev whole : List Chunk
whole = bytes (codes "data: x") ∷ bytes (10 ∷ codes "data: [DONE]") ∷ bytes (10 ∷ []) ∷ []

abbrev pieces : List Chunk
pieces =
    bytes (codes "da")
    ∷ bytes (codes "ta: x")
    ∷ bytes (10 ∷ codes "data: [DO")
    ∷ bytes (codes "NE]")
    ∷ bytes (10 ∷ [])
    ∷ []

read_stream_cuts_example :
    read_stream lib whole (start lib (true ∷ [])) ≡ read_stream lib pieces (start lib (true ∷ []))
read_stream_cuts_example = read_stream_cuts lib (true ∷ []) whole pieces refl

abbrev row : Subscription
row = record {
  user_id = 7;
  team_id = some 7;
  stripe_customer_id = some (codes "cus");
  stripe_subscription_id = some (codes "sub");
  tier = codes "basic";
  status = codes "active";
  current_period_start = none;
  current_period_end = none;
  cancel_at_period_end = false;
  ai_credits_used = 290;
  ai_credits_period_start = none;
  updated_at = 1;
}

abbrev tables : BillingDb
tables = record { subscriptions = row ∷ []; stripe_events = []; usage_ledger = [] }

abbrev world : World BillingDb
world = record { db = tables; faults = [] }

run_stream_charges_example :
    ((run_stream lib 3 7 (codes "gpt-4o-mini") simple (true ∷ []) whole world).1.db ≡ tables)
    ⊎ (Any IsDone (ended_lines [] (decoded lib whole))
        × ((u : TokenUsage) × (sent : List Str) × (read_stream lib whole (start lib (true ∷ []))
              ≡ finished u sent)
            × ((run_stream lib 3 7 (codes "gpt-4o-mini") simple (true ∷ []) whole world).1.db
                ≡ charged 3 7 (codes "gpt-4o-mini") simple u tables)))
run_stream_charges_example =
    run_stream_charges 3 7 (codes "gpt-4o-mini") simple lib (true ∷ []) whole world

-- A payload with a carriage return ends the task, and nothing is charged.
panicked :
    (run_stream lib 3 7 [] simple []
      (bytes (codes "data: x" ++ 13 ∷ codes "y" ++ 10 ∷ codes "data: [DONE]" ++ 10 ∷ []) ∷ [])
      world).1.db
    ≡ tables
unfolding run_stream read_stream receive drain split_once on_line strip_prefix str_eq
panicked = refl

abbrev key : Option (Option Str)
key = some (some (codes "k"))

found_row : active_row 7 tables ≡ some row
unfolding active_row is_billable str_eq
found_row = refl

small : credits_used (active_row 7 tables) + estimated_cost analysis ≤ i32_max
unfolding active_row is_billable str_eq estimated_cost
small = omega arith

opened : (chat key 7 none (some analysis) (some 200) world).0 ≡ ok (codes "gpt-4o-mini", analysis)
unfolding chat fetch_active select statement active_row is_billable str_eq estimated_cost over_cap
    entitlements_for to_ascii_lowercase
opened = refl

chat_within_cap_example :
    ((entitlements_of (active_row 7 tables)).managed_ai ≡ true)
    × (((entitlements_of (active_row 7 tables)).ai_credits_monthly ≡ unlimited)
        ⊎ (pos (credits_used (active_row 7 tables) + estimated_cost analysis)
            ≤ℤ (entitlements_of (active_row 7 tables)).ai_credits_monthly))
    × ((chat key 7 none (some analysis) (some 200) world).1.db ≡ tables)
chat_within_cap_example =
    chat_within_cap key 7 none (some analysis) (some 200) world (codes "gpt-4o-mini", analysis)
      small opened
