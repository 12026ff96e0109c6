-- ===== src/Exec.antt =====
-- Code that talks to the database: an action on the tables `D` and on a schedule of faults.
-- Each statement, `begin` and `commit` takes one entry of the schedule: `some e` makes it fail with
-- `e` and no effect, `none` (and the end of the schedule) lets it run. So a theorem about every
-- world covers a lost connection at every point.
pub mod Laws
use mizan_connect.Base.{Option, none, some, List, [], ◌∷◌}
use mizan_connect.Error.{AppError, SqlError, from_sqlx, Result, ok, err}

pub record World (D : Type 0) : Type 0 where
  pub db : D
  pub faults : List (Option SqlError)

abbrev pub Action : Type 0 → Type 0 → Type 0
Action D A = World D → Result A × World D

module _ {D A : Type 0} where
  abbrev pub pure : A → Action D A
  pure a w = (ok a, w)

  abbrev pub raise : AppError → Action D A
  raise e w = (err e, w)

  abbrev pub lift : Result A → Action D A
  lift r w = (r, w)

  -- A statement: it reads the tables and returns its rows and the new tables, or it fails.
  abbrev statement_on : (D → Result A × D) → D → List (Option SqlError) → Result A × World D
  statement_on f d [] = let (r, d') = f d in (r, record { db = d'; faults = [] })
  statement_on f d (none ∷ rest) = let (r, d') = f d in (r, record { db = d'; faults = rest })
  statement_on f d (some e ∷ rest) = (err (from_sqlx e), record { db = d; faults = rest })

  unfoldable pub statement : (D → Result A × D) → Action D A
  statement f w = statement_on f w.db w.faults

  -- A `SELECT`.
  unfoldable pub select : (D → A) → Action D A
  unfolding statement
  select f = statement (λ d. (ok (f d), d))

  -- A transaction that ends in an error is dropped, which rolls it back.
  abbrev settle : D → Result A × World D → Result A × World D
  settle old (ok a, w) = (ok a, w)
  settle old (err e, w) = (err e, record w { db = old })

  unfoldable pub transaction : Action D A → Action D A
  transaction body w = settle w.db (body w)

module _ {D A B : Type 0} where
  infixl 5 ◌>>=◌ ◌>>◌
  abbrev continue : Result A → (A → Action D B) → Action D B
  continue (ok a) f w = f a w
  continue (err e) f w = (err e, w)

  abbrev pub ◌>>=◌ : Action D A → (A → Action D B) → Action D B
  ◌>>=◌ m f w = let (r, w') = m w in continue r f w'

  abbrev pub ◌>>◌ : Action D A → Action D B → Action D B
  m >> k = m >>= λ _. k

-- `pool.begin()` and `tx.commit()`: they can fail, and write nothing themselves.
unfoldable pub begin : {D : Type 0} → Action D (Unit {0})
unfolding select
begin = select (λ _. tt)

unfoldable pub commit : {D : Type 0} → Action D (Unit {0})
unfolding select
commit = select (λ _. tt)
