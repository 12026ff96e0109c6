-- ===== src/Snaptrade/Router/Leads.antt =====
-- snaptrade/handlers.rs: what an action leads to from known rows of `broker_connections`.
use mizan_connect.Base.{
  true, ◌≡◌, inl, inr, refl, sym, ap, ◌∙◌, subst, List, [], ◌∷◌, Option, none, some, Bool-cases,
}
use mizan_connect.Error.{SqlError, Result, ok, err}
use mizan_connect.Exec.{Action, World, lift, statement, select, ◌>>=◌}
use mizan_connect.Exec.Laws.{bind_keeps, select_db, select_value}
use mizan_connect.Snaptrade.Repository.{BrokerDb, StoredConnection, rows_unique, store_rows}
use mizan_connect.Snaptrade.Router.Quiet.{rows_of, Quiet}

pub store_rows_keeps :
    {A : Type 0} (P : List StoredConnection → Type 0) (a : A) (rows : List StoredConnection)
    (d : BrokerDb)
    → P d.broker_connections
    → (rows_unique rows ≡ true → P rows)
    → P (store_rows a rows d).1.broker_connections
store_rows_keeps P a rows d old new = elim (Bool-cases (rows_unique rows)) [
  | inl e ↦ rw e (new e)
  | inr e ↦ rw e old
]

-- A statement on rows that are known.
on_rows :
    {A : Type 0} (P : List StoredConnection → Type 0) (f : BrokerDb → Result A × BrokerDb)
    (w : World BrokerDb) (rows : List StoredConnection)
    → rows_of w ≡ rows
    → ((d : BrokerDb) → d.broker_connections ≡ rows → P (f d).1.broker_connections)
    → P rows
    → P (rows_of (statement f w).1)
unfolding statement
on_rows P f w rows e step old = go w.faults
  where
    go :
        (faults : List (Option SqlError))
        → P (rows_of (statement f (record w { faults = faults })).1)
    go [] = step w.db e
    go (none ∷ rest) = step w.db e
    go (some x ∷ rest) = subst P (sym e) old

-- An action leads from these rows to rows with `P`.
abbrev pub Leads :
    {A : Type 0}
    → (List StoredConnection → Type 0)
    → List StoredConnection
    → Action BrokerDb A
    → Type 0
Leads P rows m = (w : World BrokerDb) → rows_of w ≡ rows → P (rows_of (m w).1)

module _ (P : List StoredConnection → Type 0) (rows : List StoredConnection) where
  pub Leads-Quiet : {A : Type 0} (m : Action BrokerDb A) → P rows → Quiet m → Leads P rows m
  Leads-Quiet m old q w e = subst P (sym (q w ∙ e)) old

  -- Behind a quiet action the rows are the known ones.
  pub Leads-bind :
      {A B : Type 0} (m : Action BrokerDb A) (f : A → Action BrokerDb B)
      → P rows
      → Quiet m
      → ((a : A) → Leads P rows (f a))
      → Leads P rows (m >>= f)
  Leads-bind m f old q step w e =
      bind_keeps (λ d. P d.broker_connections) m f w (subst P (sym (q w ∙ e)) old)
        (λ a _. step a (m w).1 (q w ∙ e))

  pub Leads-then :
      {A B : Type 0} (m : Action BrokerDb A) (f : A → Action BrokerDb B)
      → Leads P rows m
      → ((a : A) → Quiet (f a))
      → Leads P rows (m >>= f)
  Leads-then m f step q w e =
      bind_keeps (λ d. P d.broker_connections) m f w (step w e)
        (λ a _. subst P (sym (q a (m w).1)) (step w e))

  pub Leads-statement :
      {A : Type 0} (f : BrokerDb → Result A × BrokerDb)
      → P rows
      → ((d : BrokerDb) → d.broker_connections ≡ rows → P (f d).1.broker_connections)
      → Leads P rows (statement f)
  Leads-statement f old step w e = on_rows P f w rows e step old

  -- A query goes on with what it has read from the rows.
  pub Leads-select :
      {A B : Type 0} (g : BrokerDb → A) (f : A → Action BrokerDb B)
      → P rows
      → ((d : BrokerDb) → d.broker_connections ≡ rows → Leads P rows (f (g d)))
      → Leads P rows (select g >>= f)
  Leads-select g f old step w e =
      let same = ap (λ d. d.broker_connections) (select_db g w) ∙ e in
      bind_keeps (λ d. P d.broker_connections) (select g) f w (subst P (sym same) old)
        (λ a h.
          subst (λ x. P (rows_of (f x (select g w).1).1)) (select_value g w a h)
            (step w.db e (select g w).1 same))

  pub Leads-lift :
      {A B : Type 0} (r : Result A) (f : A → Action BrokerDb B)
      → P rows
      → ((a : A) → r ≡ ok a → Leads P rows (f a))
      → Leads P rows (lift r >>= f)
  Leads-lift (ok a) f old step = step a refl
  Leads-lift (err x) f old step = λ w e. subst P (sym e) old
