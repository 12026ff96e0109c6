-- ===== src/Snaptrade/Router/Lifecycle.antt =====
-- snaptrade/handlers.rs: the life of a connection, as a transition system that the handlers refine.
use mizan_connect.Base.{
  ℕ, Str, Bool, true, false, ◌≡◌, ◌≢◌, refl, sym, List, [], ◌∷◌, ◌++◌, Option, none, update_where,
  All, ◌==◌, if◌then◌else◌, arith, subst, All-append,
}
use mizan_connect.Exec.{World}
use mizan_connect.Snaptrade.Repository.{
  BrokerDb, StoredConnection, rows_unique, pending_row, has_id, completed_row, linked_to, row_of,
  deleted_row,
}
use mizan_connect.Snaptrade.Repository.Unique.{rows_unique-deleted, first_same_id}
use mizan_connect.Snaptrade.Actions.{BrokerState, Draw}
use mizan_connect.Snaptrade.Router.{Call, handle_all}
use mizan_connect.Snaptrade.Router.Quiet.{rows_of}
use mizan_connect.Snaptrade.Router.Keeps.{IsKept, handle_all_keeps}

-- Registered and never linked; linked to a broker; removed by the user.
pub data Stage : Type 0 where
  pending linked removed : Stage

unfoldable pub stage : StoredConnection → Stage
stage a = if a.disabled then removed else if a.is_active then linked else pending

-- What may become of one connection: a callback links it, also again after a removal; a removal is
-- of a linked one. No way leads back to `pending`, and none from `pending` to `removed`.
pub data Edge : Stage → Stage → Type 0 where
  stay : {s : Stage} → Edge s s
  link : {s : Stage} → Edge s linked
  remove : Edge linked removed

-- One step of all connections: each follows an edge, and a new one is pending.
pub data Step : List Stage → List Stage → Type 0 where
  end : Step [] []
  open_new : Step [] (pending ∷ [])
  each : {s t : Stage} {xs ys : List Stage} → Edge s t → Step xs ys → Step (s ∷ xs) (t ∷ ys)

pub data Run (start : List Stage) : List Stage → Type 0 where
  here : Run start start
  next : {xs ys : List Stage} → Run start xs → Step xs ys → Run start ys

abbrev pub stages : List StoredConnection → List Stage
stages [] = []
stages (a ∷ rows) = stage a ∷ stages rows

-- A pending row has no authorization, and a removed one is not active.
pub record IsRow (a : StoredConnection) : Type 0 where
  pub pending_unlinked : stage a ≡ pending → a.snaptrade_authorization_id ≡ none
  pub removed_inactive : a.disabled ≡ true → a.is_active ≡ false

abbrev pub IsTable : List StoredConnection → Type 0
IsTable rows = (rows_unique rows ≡ true) × All IsRow rows

same-Step : (xs : List Stage) → Step xs xs
same-Step [] = end
same-Step (s ∷ xs) = each stay (same-Step xs)

snoc-Step :
    (rows : List StoredConnection) (a : StoredConnection)
    → stage a ≡ pending
    → Step (stages rows) (stages (rows ++ a ∷ []))
snoc-Step [] a h = subst (λ s. Step [] (s ∷ [])) (sym h) open_new
snoc-Step (b ∷ rows) a h = each stay (snoc-Step rows a h)

All-update_where :
    (q : StoredConnection → Bool) (f : StoredConnection → StoredConnection)
    (rows : List StoredConnection)
    → ((a : StoredConnection) → IsRow (f a))
    → All IsRow rows
    → All IsRow (update_where q f rows)
All-update_where q f [] new h = tt
All-update_where q f (a ∷ rows) new (old, h) = (go (q a), All-update_where q f rows new h)
  where
    go : (b : Bool) → IsRow (if b then f a else a)
    go true = new a
    go false = old

pending-IsRow : (id now user_id : ℕ) (uid blob : Str) → IsRow (pending_row id now user_id uid blob)
unfolding stage
pending-IsRow id now user_id uid blob = record {
  pending_unlinked = λ h. refl;
  removed_inactive = λ h. absurd (cc);
}

completed-IsRow :
    (now : ℕ) (auth : Str) (slug name : Option Str) (a : StoredConnection)
    → IsRow (completed_row now auth slug name a)
unfolding stage
completed-IsRow now auth slug name a = record {
  pending_unlinked = λ h. absurd (cc);
  removed_inactive = λ h. absurd (cc);
}

deleted-IsRow : (now : ℕ) (a : StoredConnection) → IsRow (deleted_row now a)
unfolding stage
deleted-IsRow now a = record { pending_unlinked = λ h. absurd (cc); removed_inactive = λ h. refl }

complete-Step :
    (id now : ℕ) (auth : Str) (slug name : Option Str) (rows : List StoredConnection)
    → Step (stages rows) (stages (update_where (has_id id) (completed_row now auth slug name) rows))
unfolding stage
complete-Step id now auth slug name [] = end
complete-Step id now auth slug name (a ∷ rows) =
    each (go (has_id id a)) (complete-Step id now auth slug name rows)
  where
    go : (b : Bool) → Edge (stage a) (stage (if b then completed_row now auth slug name a else a))
    go true = link
    go false = stay

remove-Edge : (s : Stage) → s ≢ pending → Edge s removed
remove-Edge pending h = absurd (h refl)
remove-Edge linked h = remove
remove-Edge removed h = stay

-- A row that is found by its authorization has one, so it is not pending.
linked_to-stage :
    (user_id : ℕ) (authorization_id : Str) (a : StoredConnection)
    → IsRow a
    → linked_to user_id authorization_id a ≡ true
    → stage a ≢ pending
linked_to-stage user_id authorization_id a row found is_pending =
    none_linked (row.pending_unlinked is_pending) found
  where
    none_linked : a.snaptrade_authorization_id ≡ none → linked_to user_id authorization_id a ≢ true
    none_linked e h = ground arith

remove-Step :
    (now user_id id : ℕ) (authorization_id : Str) (rows : List StoredConnection)
    → All IsRow rows
    → All (λ b. (b.id == id) ≡ true → linked_to user_id authorization_id b ≡ true) rows
    → Step (stages rows) (stages (update_where (row_of user_id id) (deleted_row now) rows))
unfolding stage
remove-Step now user_id id authorization_id [] h k = end
remove-Step now user_id id authorization_id (a ∷ rows) (row, h) (found, k) =
    each (go (row_of user_id id a) same) (remove-Step now user_id id authorization_id rows h k)
  where
    same : row_of user_id id a ≡ true → linked_to user_id authorization_id a ≡ true
    same e = found (ground arith)

    go :
        (b : Bool)
        → (b ≡ true → linked_to user_id authorization_id a ≡ true)
        → Edge (stage a) (stage (if b then deleted_row now a else a))
    go true is = remove-Edge (stage a) (linked_to-stage user_id authorization_id a row (is refl))
    go false is = stay

module _ (start : List Stage) where
  abbrev Reached : List StoredConnection → Type 0
  Reached rows = IsTable rows × Run start (stages rows)

  Reached-IsKept : IsKept Reached
  Reached-IsKept = record {
    by_insert = λ rows id now user_id uid blob absent unique ((u, all), run).
        let a = pending_row id now user_id uid blob in
        (
          (unique, All-append IsRow rows (a ∷ []) all (pending-IsRow id now user_id uid blob, tt)),
          next run (snoc-Step rows a (unfold stage in refl)),
        );
    by_completion = λ rows id now auth slug name unique ((u, all), run). (
      (unique, All-update_where (has_id id) _ rows (completed-IsRow now auth slug name) all),
      next run (complete-Step id now auth slug name rows),
    );
    by_deletion = λ rows now user_id auth row found ((u, all), run). (
      (
        rows_unique-deleted (row_of user_id row.id) now rows u,
        All-update_where (row_of user_id row.id) _ rows (deleted-IsRow now) all,
      ),
      next run (
          remove-Step now user_id row.id auth rows all
            (first_same_id (linked_to user_id auth) rows row u found)),
    );
  }

-- The handlers refine the life of a connection: from a table that respects its indexes, where a
-- pending row has no authorization and a removed one is inactive, every sequence of requests,
-- whatever fails in it, leads to such a table, and along the edges of the transition system.
pub handle_all-Run :
    (state : BrokerState) (calls : List (Draw × Call)) (w : World BrokerDb)
    → IsTable (rows_of w)
    → IsTable (rows_of (handle_all state calls w))
      × Run (stages (rows_of w)) (stages (rows_of (handle_all state calls w)))
handle_all-Run state calls w table =
    handle_all_keeps (Reached (stages (rows_of w))) (Reached-IsKept (stages (rows_of w))) state
      calls w (table, here)
