-- ===== src/Exec/Laws.antt =====
-- Laws of transactions and statements.
use mizan_connect.Base.{◌≡◌, ◌≢◌, refl, sym, ap, ◌∙◌, List, [], ◌∷◌, Option, none, some, arith}
use mizan_connect.Error.{AppError, SqlError, Result, ok, err}
use mizan_connect.Exec.{
  World, Action, statement_on, statement, select, transaction, settle, continue, ◌>>=◌, ◌>>◌, begin,
  commit, pure, lift,
}

module _ {D A : Type 0} where
  -- Whatever the body did, a transaction that fails leaves the tables as they were.
  pub transaction_rollback :
      (body : Action D A) (w : World D) (e : AppError)
      → (transaction body w).0 ≡ err e
      → (transaction body w).1.db ≡ w.db
  unfolding transaction
  transaction_rollback body w e h = ground arith

  -- A query changes no table.
  pub select_db : (f : D → A) (w : World D) → (select f w).1.db ≡ w.db
  unfolding select
  select_db f w = ground arith

  -- A query that succeeds returns what is in the tables.
  pub select_value : (f : D → A) (w : World D) (a : A) → (select f w).0 ≡ ok a → f w.db ≡ a
  unfolding select
  select_value f w a h = ground arith

  -- What a statement's function keeps, the statement keeps, also when it fails.
  pub statement_keeps :
      (P : D → Type 0) (f : D → Result A × D) (w : World D)
      → ((d : D) → P d → P (f d).1)
      → P w.db
      → P (statement f w).1.db
  unfolding statement
  statement_keeps P f w keep h = go w.faults
    where
      go : (faults : List (Option SqlError)) → P (statement_on f w.db faults).1.db
      go [] = keep w.db h
      go (none ∷ rest) = keep w.db h
      go (some e ∷ rest) = h

  -- A statement that succeeds is the success of its function on the tables as they stand.
  pub statement_ok :
      (f : D → Result A × D) (w : World D) (a : A)
      → (statement f w).0 ≡ ok a
      → ((f w.db).0 ≡ ok a) × ((statement f w).1.db ≡ (f w.db).1)
  unfolding statement
  statement_ok f w a h = go w.faults h
    where
      go :
          (faults : List (Option SqlError))
          → (statement_on f w.db faults).0 ≡ ok a
          → ((f w.db).0 ≡ ok a) × ((statement_on f w.db faults).1.db ≡ (f w.db).1)
      go [] h = (h, refl)
      go (none ∷ rest) h = (h, refl)
      go (some e ∷ rest) h = absurd (cc)

  -- A statement whose function fails on the tables as they stand never succeeds.
  pub statement_fails :
      (f : D → Result A × D) (w : World D) (e : AppError) (a : A)
      → (f w.db).0 ≡ err e
      → (statement f w).0 ≢ ok a
  statement_fails f w e a h k = cc (h, (statement_ok f w a k).0)

module _ {D A B : Type 0} where
  -- Inversion of a successful sequence.
  pub bind_ok :
      (m : Action D A) (f : A → Action D B) (w : World D) (b : B)
      → ((m >>= f) w).0 ≡ ok b
      → (a : A) × ((m w).0 ≡ ok a) × ((m >>= f) w ≡ f a (m w).1)
  bind_ok m f w b h = go (m w) h
    where
      go :
          (r : Result A × World D)
          → (continue r.0 f r.1).0 ≡ ok b
          → (a : A) × (r.0 ≡ ok a) × (continue r.0 f r.1 ≡ f a r.1)
      go (ok a, w') h = (a, refl, refl)
      go (err e, w') h = absurd (cc)

  -- A sequence whose first action is known to run.
  pub bind_runs :
      (m : Action D A) (f : A → Action D B) (w w' : World D) (a : A)
      → m w ≡ (ok a, w')
      → (m >>= f) w ≡ f a w'
  bind_runs m f w w' a e = ap (λ r. continue r.0 f r.1) e

  -- A property of the tables that holds behind the first action, and that the second keeps where
  -- the first has succeeded.
  pub bind_keeps :
      (P : D → Type 0) (m : Action D A) (f : A → Action D B) (w : World D)
      → P (m w).1.db
      → ((a : A) → (m w).0 ≡ ok a → P (f a (m w).1).1.db)
      → P ((m >>= f) w).1.db
  bind_keeps P m f w h keep = go (m w) h keep
    where
      go :
          (r : Result A × World D)
          → P r.1.db
          → ((a : A) → r.0 ≡ ok a → P (f a r.1).1.db)
          → P (continue r.0 f r.1).1.db
      go (ok a, w') h keep = keep a refl
      go (err e, w') h keep = h

  -- Inversion of a successful sequence that starts with a query: it goes on with the rows.
  pub select_then :
      (g : D → A) (f : A → Action D B) (w : World D) (b : B)
      → ((select g >>= f) w).0 ≡ ok b
      → (w' : World D) × (w'.db ≡ w.db)
        × ((select g >>= f) w ≡ f (g w.db) w')
        × ((f (g w.db) w').0 ≡ ok b)
  select_then g f w b h =
      let (a, value, e) = bind_ok (select g) f w b h in
      let run = e ∙ ap (λ x. f x (select g w).1) (sym (select_value g w a value)) in
      ((select g w).1, select_db g w, run, ap (λ r. r.0) (sym run) ∙ h)

  -- The same for a step that uses no tables.
  pub lift_then :
      (r : Result A) (f : A → Action D B) (w : World D) (b : B)
      → ((lift r >>= f) w).0 ≡ ok b
      → (a : A) × (r ≡ ok a) × ((lift r >>= f) w ≡ f a w) × ((f a w).0 ≡ ok b)
  lift_then r f w b h =
      let (a, value, e) = bind_ok (lift r) f w b h in (a, value, e, ap (λ r. r.0) (sym e) ∙ h)

  -- The same for a statement that writes.
  pub statement_then :
      (g : D → Result A × D) (f : A → Action D B) (w : World D) (b : B)
      → ((statement g >>= f) w).0 ≡ ok b
      → (a : A) × (w' : World D) × ((g w.db).0 ≡ ok a)
        × (w'.db ≡ (g w.db).1)
        × ((statement g >>= f) w ≡ f a w')
        × ((f a w').0 ≡ ok b)
  statement_then g f w b h =
      let (a, value, e) = bind_ok (statement g) f w b h in
      let (inner, tables) = statement_ok g w a value in
      (a, (statement g w).1, inner, tables, e, ap (λ r. r.0) (sym e) ∙ h)

module _ {D A : Type 0} where
  pub transaction_keeps :
      (P : D → Type 0) (body : Action D A) (w : World D)
      → P w.db
      → P (body w).1.db
      → P (transaction body w).1.db
  unfolding transaction
  transaction_keeps P body w old new = go (body w) new
    where
      go : (r : Result A × World D) → P r.1.db → P (settle w.db r).1.db
      go (ok a, w') new = new
      go (err e, w') new = old

  -- A transaction that succeeds is its body.
  pub transaction_ok :
      (body : Action D A) (w : World D) (a : A)
      → (transaction body w).0 ≡ ok a
      → ((body w).0 ≡ ok a) × (transaction body w ≡ body w)
  unfolding transaction
  transaction_ok body w a h = go (body w) h
    where
      go : (r : Result A × World D) → (settle w.db r).0 ≡ ok a → (r.0 ≡ ok a) × (settle w.db r ≡ r)
      go (ok b, w') h = (h, refl)
      go (err e, w') h = absurd (cc)

module _ {D : Type 0} where
  pub begin_db : (w : World D) → (begin w).1.db ≡ w.db
  unfolding begin
  begin_db w = select_db (λ _. tt) w

  pub commit_db : (w : World D) → (commit w).1.db ≡ w.db
  unfolding commit
  commit_db w = select_db (λ _. tt) w

  -- The end of a transaction's body.
  pub commit-pure_db : {A : Type 0} (a : A) (w : World D) → ((commit >> pure a) w).1.db ≡ w.db
  commit-pure_db a w =
      bind_keeps (λ d. d ≡ w.db) commit (λ _. pure a) w (commit_db w) (λ _ _. commit_db w)
