-- ===== src/Snaptrade/Router/Quiet.antt =====
-- The steps and handlers of snaptrade/handlers.rs that write no row of `broker_connections`.
use mizan_connect.Base.{
  ℕ, Str, ◌≡◌, inl, inr, refl, ap, ◌∙◌, List, Option, none, some, Bool-cases, arith,
}
use mizan_connect.Error.{Result, ok, err}
use mizan_connect.Exec.{Action, World, pure, lift, select, ◌>>=◌}
use mizan_connect.Exec.Laws.{bind_keeps, select_db}
use mizan_connect.Audit.{AuditEvent}
use mizan_connect.Snaptrade.Types.{ActivitiesQuery}
use mizan_connect.Snaptrade.Errors.{Answer}
use mizan_connect.Snaptrade.Repository.{
  BrokerDb, StoredConnection, Sent, record_event, fetch_active_for_user,
  fetch_by_authorization_id_for_user,
}
use mizan_connect.Snaptrade.Actions.{BrokerState, Draw, note, ask, record_failure, or_recorded}
use mizan_connect.Snaptrade.Actions.Laws.{record_event_rows}
use mizan_connect.Snaptrade.Portal.{limit, reuse, open_portal}
use mizan_connect.Snaptrade.Callback.{none_new}
use mizan_connect.Snaptrade.Connections.{
  connections_of, accounts_of, list_connections, list_user_accounts, holdings_for, activities_for,
  refresh_connection, remove_linked, remove_upstream,
}

abbrev pub rows_of : World BrokerDb → List StoredConnection
rows_of w = w.db.broker_connections

-- An action that writes no row of `broker_connections`.
abbrev pub Quiet : {A : Type 0} → Action BrokerDb A → Type 0
Quiet m = (w : World BrokerDb) → rows_of (m w).1 ≡ rows_of w

pub bind-Quiet :
    {A B : Type 0} (m : Action BrokerDb A) (f : A → Action BrokerDb B)
    → Quiet m
    → ((a : A) → Quiet (f a))
    → Quiet (m >>= f)
bind-Quiet m f q k w =
    bind_keeps (λ d. d.broker_connections ≡ rows_of w) m f w (q w) (λ a _. k a (m w).1 ∙ q w)

pub lift-Quiet :
    {A B : Type 0} (r : Result A) (f : A → Action BrokerDb B)
    → ((a : A) → Quiet (f a))
    → Quiet (lift r >>= f)
lift-Quiet r f k = bind-Quiet (lift r) f (λ w. refl) k

pub select-Quiet :
    {A B : Type 0} (g : BrokerDb → A) (f : A → Action BrokerDb B)
    → ((a : A) → Quiet (f a))
    → Quiet (select g >>= f)
select-Quiet g f k = bind-Quiet (select g) f (λ w. ap (λ d. d.broker_connections) (select_db g w)) k

pub row-Quiet : {A : Type 0} (g : BrokerDb → A) → Quiet (select g)
row-Quiet g w = ap (λ d. d.broker_connections) (select_db g w)

pub note-Quiet : (s : Sent) → Quiet (note s)
unfolding note
note-Quiet s w = refl

pub ask-Quiet : {A : Type 0} (s : Sent) (answer : Answer A) → Quiet (ask s answer)
unfolding ask note
ask-Quiet s answer w = refl

pub or_recorded-Quiet :
    {A : Type 0} (user_id : Option ℕ) (code : Str) (r : Result A)
    → Quiet (or_recorded user_id code r)
unfolding or_recorded record_failure
or_recorded-Quiet user_id code (ok a) w = refl
or_recorded-Quiet user_id code (err e) w = refl

pub record_event-Quiet : (e : AuditEvent) → Quiet (record_event e)
record_event-Quiet e w = (record_event_rows e w).0

pub limit-Quiet : (now user_id : ℕ) → Quiet (limit now user_id)
unfolding limit
limit-Quiet now user_id w = refl

pub pure-Quiet : {A : Type 0} (a : A) → Quiet (pure {D = BrokerDb} a)
pure-Quiet a w = refl

pub ruleset quiet = (
  bind-Quiet, lift-Quiet, select-Quiet, ask-Quiet, record_event-Quiet, or_recorded-Quiet,
  pure-Quiet,
)

module _ (state : BrokerState) (draw : Draw) (user_id : ℕ) where
  connections-Quiet :
      (found : Option StoredConnection) → Quiet (connections_of state draw user_id found)
  connections-Quiet none = search quiet
  connections-Quiet (some row) = search quiet

  pub list_connections-Quiet : Quiet (list_connections state draw user_id)
  unfolding list_connections fetch_active_for_user
  list_connections-Quiet = search (quiet, connections-Quiet)

  accounts-Quiet : (found : Option StoredConnection) → Quiet (accounts_of state draw user_id found)
  accounts-Quiet none = search quiet
  accounts-Quiet (some row) = search quiet

  pub list_user_accounts-Quiet : Quiet (list_user_accounts state draw user_id)
  unfolding list_user_accounts fetch_active_for_user
  list_user_accounts-Quiet = search (quiet, accounts-Quiet)

  pub holdings-Quiet : (account_id : Str) → Quiet (holdings_for state draw user_id account_id)
  unfolding holdings_for fetch_active_for_user
  holdings-Quiet account_id = search quiet

  pub activities-Quiet :
      (account_id : Str) (q : ActivitiesQuery)
      → Quiet (activities_for state draw user_id account_id q)
  unfolding activities_for fetch_active_for_user
  activities-Quiet account_id q = search quiet

  pub refresh-Quiet : (id : Str) → Quiet (refresh_connection state draw user_id id)
  unfolding refresh_connection fetch_by_authorization_id_for_user
  refresh-Quiet id = search quiet depth 8

  linked-Quiet :
      (row : StoredConnection) (auth_id : Option Str)
      → Quiet (remove_linked state draw user_id row auth_id)
  linked-Quiet row none = search quiet
  linked-Quiet row (some auth_id) = search quiet

  pub upstream-Quiet : (row : StoredConnection) → Quiet (remove_upstream state draw user_id row)
  upstream-Quiet row w = elim (Bool-cases row.disabled) [
    | inl e ↦ ground arith
    | inr e ↦ ground (arith, linked-Quiet row row.snaptrade_authorization_id w)
  ]

  pub reuse-Quiet : (row : StoredConnection) → Quiet (reuse state draw user_id row)
  reuse-Quiet row = search quiet

  pub open-Quiet : (pair : Str × Str) → Quiet (open_portal state draw user_id pair)
  open-Quiet pair = search quiet

pub none_new-Quiet : (user_id : ℕ) (row : StoredConnection) → Quiet (none_new user_id row)
unfolding record_failure
none_new-Quiet user_id row w = ground arith
