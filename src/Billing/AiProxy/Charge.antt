-- ===== src/Billing/AiProxy/Charge.antt =====
-- Who may ask, and when a reply is charged.
use mizan_connect.Base.{
  ◌==◌, ◌&&◌, ◌+◌, wrap, pos, codes, some, Any, ℕ, ◌≡◌, ◌⊎◌, inl, inr, refl, ap, ◌∙◌, Str, Bool,
  List, [], ◌∷◌, ◌++◌, arith, update_where,
}
use mizan_connect.Error.{Result, ok, err}
use mizan_connect.Exec.{World, select, statement, begin, commit, ◌>>=◌}
use mizan_connect.Exec.Laws.{
  select_then, statement_then, transaction_ok, transaction_rollback, commit_db,
}
use mizan_connect.Billing.Credits.{RequestKind, credits_for_tokens}
use mizan_connect.Billing.Tables.{Usage, BillingDb, is_billable}
use mizan_connect.Billing.Repository.{
  record_usage, record_usage_in, add_ai_credits_used, add_ai_credits_used_in, is_billable_of,
  charge_row,
}
use mizan_connect.Billing.AiProxy.Cuts.{decoded}
use mizan_connect.Billing.AiProxy.Lines.{IsDone, ended_lines, read_stream-finished}
use mizan_connect.Billing.AiProxy.{
  AiLib, TokenUsage, Outcome, reading, finished, disconnected, Chunk, read_stream, start, usage_row,
  charge, reconcile, run_stream, kind_str,
}

record_usage_done :
    (u : Usage) (d : BillingDb)
    → (record_usage_in u d).0 ≡ ok tt
    → (record_usage_in u d).1 ≡ record d { usage_ledger = d.usage_ledger ++ u ∷ [] }
record_usage_done u d h = ground arith

add_credits_done :
    (now user_id credits total : ℕ) (d : BillingDb)
    → (add_ai_credits_used_in now user_id credits d).0 ≡ ok total
    → (add_ai_credits_used_in now user_id credits d).1 ≡ record d {
      subscriptions =
          update_where (is_billable_of user_id) (charge_row now credits) d.subscriptions;
    }
add_credits_done now user_id credits total d h = ground arith

-- The row of the ledger for one reply.
abbrev ledger_row : ℕ → Str → RequestKind → TokenUsage → Usage
ledger_row user_id model kind u = record {
  user_id = user_id;
  metric = codes "ai_reply";
  units = wrap 32 (pos u.total_tokens);
  cost_credits = credits_for_tokens u.prompt_tokens u.completion_tokens;
  model = some model;
  kind = some (kind_str kind);
}

-- The tables with one reply charged: a row of the ledger, and the same credits on the counter of the
-- user's billable subscriptions.
abbrev pub charged : ℕ → ℕ → Str → RequestKind → TokenUsage → BillingDb → BillingDb
charged now user_id model kind u d = record d {
  usage_ledger = d.usage_ledger ++ ledger_row user_id model kind u ∷ [];
  subscriptions =
      update_where (λ a. a.user_id == user_id && is_billable a.status)
        (λ a. record a {
          ai_credits_used =
              a.ai_credits_used + credits_for_tokens u.prompt_tokens u.completion_tokens;
          updated_at = now;
        })
        d.subscriptions;
}

module _ (now user_id : ℕ) (model : Str) (kind : RequestKind) (u : TokenUsage) where
  charge_done :
      (w : World BillingDb)
      → (charge now user_id model kind u w).0 ≡ ok tt
      → (charge now user_id model kind u w).1.db ≡ charged now user_id model kind u w.db
  unfolding charge begin record_usage add_ai_credits_used
  charge_done w h =
      let row = usage_row user_id model kind u in
      let credits = credits_for_tokens u.prompt_tokens u.completion_tokens in
      let bump = λ (_ : Unit {0}).
        statement (add_ai_credits_used_in now user_id credits) >>= λ (_ : ℕ). commit in
      let ledger = λ (_ : Unit {0}). statement (record_usage_in row) >>= bump in
      let (inner, same) = transaction_ok (select (λ _. tt) >>= ledger) w tt h in
      let (w1, s1, e1, h1) = select_then (λ _. tt) ledger w tt inner in
      let (_, w2, r2, s2, e2, h2) = statement_then (record_usage_in row) bump w1 tt h1 in
      let (total, w3, r3, s3, e3, h3) =
        statement_then (add_ai_credits_used_in now user_id credits) (λ (_ : ℕ). commit) w2 tt h2 in
      ap (λ r. r.1.db) (same ∙ e1 ∙ e2 ∙ e3)
      ∙ commit_db w3
      ∙ s3
      ∙ add_credits_done now user_id credits total w2.db r3
      ∙ ap {A = BillingDb} {B = BillingDb}
          (λ d. record d {
            subscriptions =
                update_where (is_billable_of user_id) (charge_row now credits) d.subscriptions;
          })
          (s2
            ∙ record_usage_done row w1.db r2
            ∙ ap {A = BillingDb} {B = BillingDb}
                (λ d. record d { usage_ledger = d.usage_ledger ++ row ∷ [] }) s1)

  -- All or nothing.
  charge_atomic :
      (w : World BillingDb)
      → ((charge now user_id model kind u w).1.db ≡ w.db)
        ⊎ ((charge now user_id model kind u w).1.db ≡ charged now user_id model kind u w.db)
  unfolding charge
  charge_atomic w = go (charge now user_id model kind u w).0 refl
    where
      go :
          (r : Result (Unit {0}))
          → (charge now user_id model kind u w).0 ≡ r
          → ((charge now user_id model kind u w).1.db ≡ w.db)
            ⊎ ((charge now user_id model kind u w).1.db ≡ charged now user_id model kind u w.db)
      go (ok t) e = inr (charge_done w e)
      go (err x) e = inl (transaction_rollback _ w x e)

module _ (now user_id : ℕ) (model : Str) (kind : RequestKind) where
  reconcile_cases :
      (x : Outcome) (w : World BillingDb)
      → ((reconcile now user_id model kind x w).1.db ≡ w.db)
        ⊎ ((u : TokenUsage) × (sent : List Str) × (x ≡ finished u sent)
            × ((reconcile now user_id model kind x w).1.db ≡ charged now user_id model kind u w.db))
  reconcile_cases (reading o) w = inl refl
  reconcile_cases (disconnected sent) w = inl refl
  reconcile_cases (finished u sent) w = elim (charge_atomic now user_id model kind u w) [
    | inl same ↦ inl same
    | inr done ↦ inr (u, sent, refl, done)
  ]

  -- A reply is charged at most once, as a whole, and only behind the end marker. However the stream
  -- is cut, wherever the client goes away and whichever statement fails, `run_stream` leaves the tables
  -- as they are, or the text of the chunks has a whole line `data: ` with `DONE` in brackets, and for
  -- the usage that was read the tables have one more row of the ledger, with the credits that the
  -- tokens cost, and the same credits more on the counter of the user's billable subscriptions.
  pub run_stream_charges :
      (lib : AiLib) (acks : List Bool) (chunks : List Chunk) (w : World BillingDb)
      → ((run_stream lib now user_id model kind acks chunks w).1.db ≡ w.db)
        ⊎ (Any IsDone (ended_lines [] (decoded lib chunks))
            × ((u : TokenUsage) × (sent : List Str) × (read_stream lib chunks (start lib acks)
                  ≡ finished u sent)
                × ((run_stream lib now user_id model kind acks chunks w).1.db
                    ≡ charged now user_id model kind u w.db)))
  unfolding run_stream
  run_stream_charges lib acks chunks w =
      elim (reconcile_cases (read_stream lib chunks (start lib acks)) w) [
        | inl same ↦ inl same
        | inr (u, sent, is, done) ↦
            inr (read_stream-finished lib acks chunks u sent is, (u, sent, is, done))
      ]
