-- ===== src/Snaptrade/Repository/Unique.antt =====
-- snaptrade/repository.rs: the indexes of `broker_connections`. A deletion needs no check, and a row
-- has its id for itself.
use mizan_connect.Base.{
  ℕ, Bool, true, false, ◌≡◌, ◌≢◌, refl, List, [], ◌∷◌, some, first, exists, update_where, All,
  Bool-cases, inl, inr, ◌==◌, if◌then◌else◌, arith, subst,
}
use mizan_connect.Error.{ok}
use mizan_connect.Snaptrade.Repository.{
  BrokerDb, store_rows, StoredConnection, row_clash, rows_unique, deleted_row,
}

-- No two rows of one user.
abbrev pub OneEach : List StoredConnection → Type 0
OneEach [] = Unit
OneEach (a ∷ rows) = All (λ b. b.user_id ≢ a.user_id) rows × OneEach rows

-- A write that succeeds has written.
pub store_rows_ok :
    {A : Type 0} (a b : A) (rows : List StoredConnection) (d : BrokerDb)
    → (store_rows a rows d).0 ≡ ok b
    → (store_rows a rows d).1 ≡ record d { broker_connections = rows }
store_rows_ok a b rows d h = ground arith

module _ (q : StoredConnection → Bool) (now : ℕ) where
  abbrev deleted : StoredConnection → StoredConnection
  deleted a = if q a then deleted_row now a else a

  row_clash-deleted :
      (a b : StoredConnection) → row_clash a b ≡ false → row_clash (deleted a) (deleted b) ≡ false
  unfolding row_clash
  row_clash-deleted a b h = ground arith

  exists-deleted :
      (a : StoredConnection) (rows : List StoredConnection)
      → exists (row_clash a) rows ≡ false
      → exists (row_clash (deleted a)) (update_where q (deleted_row now) rows) ≡ false
  exists-deleted a [] h = refl
  exists-deleted a (b ∷ rows) h = ground (arith, row_clash-deleted a b, exists-deleted a rows)

  -- A soft delete violates no index.
  pub rows_unique-deleted :
      (rows : List StoredConnection)
      → rows_unique rows ≡ true
      → rows_unique (update_where q (deleted_row now) rows) ≡ true
  unfolding rows_unique
  rows_unique-deleted [] h = refl
  rows_unique-deleted (a ∷ rows) h = ground (arith, exists-deleted a rows, rows_unique-deleted rows)

exists_at :
    (c p : StoredConnection → Bool) (rows : List StoredConnection) (row : StoredConnection)
    → first p rows ≡ some row
    → exists c rows ≡ false
    → c row ≡ false
exists_at c p [] row h k = absurd (cc)
exists_at c p (a ∷ rows) row h k = elim (Bool-cases (p a)) [
  | inl e ↦ ground arith
  | inr e ↦ ground (arith, exists_at c p rows row)
]

none_like :
    (p : StoredConnection → Bool) (a : StoredConnection) (rows : List StoredConnection)
    → exists (row_clash a) rows ≡ false
    → All (λ b. (b.id == a.id) ≡ true → p b ≡ true) rows
unfolding row_clash
none_like p a [] h = tt
none_like p a (b ∷ rows) h = ground (arith, none_like p a rows)

clash_id : (a b : StoredConnection) → row_clash a b ≡ false → (a.id == b.id) ≢ true
unfolding row_clash
clash_id a b h = ground arith

unique_cons :
    (a : StoredConnection) (rows : List StoredConnection)
    → rows_unique (a ∷ rows) ≡ true
    → (exists (row_clash a) rows ≡ false) × (rows_unique rows ≡ true)
unfolding rows_unique
unique_cons a rows h = ground arith

first_here :
    (p : StoredConnection → Bool) (a : StoredConnection) (rows : List StoredConnection)
    (row : StoredConnection)
    → p a ≡ true
    → first p (a ∷ rows) ≡ some row
    → a ≡ row
first_here p a rows row e h = ground arith

first_later :
    (p : StoredConnection → Bool) (a : StoredConnection) (rows : List StoredConnection)
    (row : StoredConnection)
    → p a ≡ false
    → first p (a ∷ rows) ≡ some row
    → first p rows ≡ some row
first_later p a rows row e h = ground arith

-- In a table with unique ids a row that a query has found is the only one with its id.
pub first_same_id :
    (p : StoredConnection → Bool) (rows : List StoredConnection) (row : StoredConnection)
    → rows_unique rows ≡ true
    → first p rows ≡ some row
    → All (λ b. (b.id == row.id) ≡ true → p b ≡ true) rows
first_same_id p [] row u h = tt
first_same_id p (a ∷ rows) row u h =
    let (free, rest) = unique_cons a rows u in
    elim (Bool-cases (p a)) [
      | inl e ↦ (
        λ _. e,
        subst (λ (r : StoredConnection). All (λ b. (b.id == r.id) ≡ true → p b ≡ true) rows)
            (first_here p a rows row e h) (none_like p a rows free),
      )
      | inr e ↦
          let found = first_later p a rows row e h in
          (
            λ same. absurd (clash_id a row (exists_at (row_clash a) p rows row found free) same),
            first_same_id p rows row rest found,
          )
    ]
