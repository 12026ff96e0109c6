-- ===== src/Snaptrade/Router/Users.antt =====
-- snaptrade/handlers.rs: whom the rows of `broker_connections` belong to. The table allows several
-- rows of a user; the handlers never make a second one.
use mizan_connect.Base.{
  ℕ, Bool, ◌≡◌, ◌≢◌, refl, sym, List, [], ◌∷◌, ◌++◌, none, keep, update_where, All, All-append,
  if◌then◌else◌, arith, subst,
}
use mizan_connect.Exec.{World}
use mizan_connect.Snaptrade.Repository.{
  BrokerDb, StoredConnection, newest, owned_by, pending_row, has_id, completed_row, row_of,
  deleted_row,
}
use mizan_connect.Snaptrade.Repository.Unique.{OneEach}
use mizan_connect.Snaptrade.Actions.{BrokerState, Draw}
use mizan_connect.Snaptrade.Router.{Call, handle_all}
use mizan_connect.Snaptrade.Router.Quiet.{rows_of}
use mizan_connect.Snaptrade.Router.Keeps.{IsKept, handle_all_keeps}

newest-none :
    (user_id : ℕ) (rows : List StoredConnection)
    → newest (keep (owned_by user_id) rows) ≡ none
    → All (λ b. user_id ≢ b.user_id) rows
unfolding newest
newest-none user_id [] h = tt
newest-none user_id (a ∷ rows) h = ground (arith, newest-none user_id rows)

OneEach-snoc :
    (rows : List StoredConnection) (a : StoredConnection)
    → OneEach rows
    → All (λ b. a.user_id ≢ b.user_id) rows
    → OneEach (rows ++ a ∷ [])
OneEach-snoc [] a h k = (tt, tt)
OneEach-snoc (b ∷ rows) a (h, one) (n, k) =
    (All-append (λ c. c.user_id ≢ b.user_id) rows (a ∷ []) h (n, tt), OneEach-snoc rows a one k)

module _ (p : StoredConnection → Bool) (f : StoredConnection → StoredConnection)
    (same : (a : StoredConnection) → (f a).user_id ≡ a.user_id) where
  All-update_where :
      (u : ℕ) (rows : List StoredConnection)
      → All (λ b. b.user_id ≢ u) rows
      → All (λ b. b.user_id ≢ u) (update_where p f rows)
  All-update_where u [] h = tt
  All-update_where u (a ∷ rows) (n, h) = ground (arith, same a, All-update_where u rows h)

  OneEach-update_where :
      (rows : List StoredConnection) → OneEach rows → OneEach (update_where p f rows)
  OneEach-update_where [] h = tt
  OneEach-update_where (a ∷ rows) (h, one) =
      let user : (if p a then f a else a).user_id ≡ a.user_id = ground (arith, same a) in
      (
        subst (λ u. All (λ b. b.user_id ≢ u) (update_where p f rows)) (sym user)
            (All-update_where a.user_id rows h),
        OneEach-update_where rows one,
      )

OneEach-IsKept : IsKept OneEach
OneEach-IsKept = record {
  by_insert = λ rows id now user_id uid blob absent unique one.
      OneEach-snoc rows (pending_row id now user_id uid blob) one (newest-none user_id rows absent);
  by_completion = λ rows id now auth slug name unique one.
      OneEach-update_where (has_id id) (completed_row now auth slug name) (λ a. refl) rows one;
  by_deletion = λ rows now user_id auth row found one.
      OneEach-update_where (row_of user_id row.id) (deleted_row now) (λ a. refl) rows one;
}

-- However the requests follow one another and whatever fails, a user has one row at most: the
-- handlers keep more than the index, which allows many inactive rows.
pub handle_all-OneEach :
    (state : BrokerState) (calls : List (Draw × Call)) (w : World BrokerDb)
    → OneEach (rows_of w)
    → OneEach (rows_of (handle_all state calls w))
handle_all-OneEach state calls w one = handle_all_keeps OneEach OneEach-IsKept state calls w one
