-- ===== src/Snaptrade/Router/Keeps.antt =====
-- An invariant of the rows of `broker_connections` is kept by every handler of snaptrade/handlers.rs
-- once the three statements that write the table keep it.
use mizan_connect.Base.{
  ℕ, Str, true, ◌≡◌, refl, sym, ap, ◌∙◌, subst, List, [], ◌∷◌, ◌++◌, Option, none, some, keep,
  first, update_where,
}
use mizan_connect.Error.{ok_or}
use mizan_connect.Exec.{World, ◌>>=◌}
use mizan_connect.Snaptrade.Types.{StAuthorization}
use mizan_connect.Snaptrade.Repository.{
  BrokerDb, StoredConnection, fetch_any_for_user, any_row, fetch_by_authorization_id_for_user,
  newest, owned_by, rows_unique, pending_row, insert_pending, insert_pending_in, has_id,
  completed_row, mark_completed, mark_completed_in, linked_to, row_of, deleted_row, soft_delete,
  soft_delete_in,
}
use mizan_connect.Snaptrade.Actions.{BrokerState, Draw}
use mizan_connect.Snaptrade.Portal.{register, reuse, pair_for, open_portal, limit, login_portal}
use mizan_connect.Snaptrade.Callback.{CallbackQuery, complete, snaptrade_callback, none_new}
use mizan_connect.Snaptrade.Connections.{
  delete_connection, remove_upstream, remove_row, remove_found, record_removal, missing_connection,
}
use mizan_connect.Snaptrade.Actions.Laws.{some_ok}
use mizan_connect.Snaptrade.Router.{
  Call, portal, callback, connections, accounts, holdings, activities, refresh_one, delete_one,
  handle, handle_all,
}
use mizan_connect.Snaptrade.Router.Quiet.{
  rows_of, quiet, none_new-Quiet, limit-Quiet, reuse-Quiet, open-Quiet, upstream-Quiet,
  list_connections-Quiet, list_user_accounts-Quiet, holdings-Quiet, activities-Quiet, refresh-Quiet,
  row-Quiet, note-Quiet,
}
use mizan_connect.Snaptrade.Router.Leads.{
  store_rows_keeps, Leads, Leads-Quiet, Leads-bind, Leads-then, Leads-statement, Leads-select,
  Leads-lift,
}

-- What each statement that writes the table keeps, with what the handler knows where it runs it.
pub record IsKept (P : List StoredConnection → Type 0) : Type 0 where
  pub by_insert :
      (rows : List StoredConnection) (id now user_id : ℕ) (uid blob : Str)
      → newest (keep (owned_by user_id) rows) ≡ none
      → rows_unique (rows ++ pending_row id now user_id uid blob ∷ []) ≡ true
      → P rows
      → P (rows ++ pending_row id now user_id uid blob ∷ [])
  pub by_completion :
      (rows : List StoredConnection) (id now : ℕ) (authorization_id : Str) (slug name : Option Str)
      → rows_unique (update_where (has_id id) (completed_row now authorization_id slug name) rows)
        ≡ true
      → P rows
      → P (update_where (has_id id) (completed_row now authorization_id slug name) rows)
  pub by_deletion :
      (rows : List StoredConnection) (now user_id : ℕ) (authorization_id : Str)
      (row : StoredConnection)
      → first (linked_to user_id authorization_id) rows ≡ some row
      → P rows
      → P (update_where (row_of user_id row.id) (deleted_row now) rows)

module _ (P : List StoredConnection → Type 0) (kept : IsKept P) (state : BrokerState)
    (draw : Draw) where
  Leads-insert :
      (rows : List StoredConnection) (id now user_id : ℕ) (uid blob : Str)
      → newest (keep (owned_by user_id) rows) ≡ none
      → P rows
      → Leads P rows (insert_pending id now user_id uid blob)
  unfolding insert_pending
  Leads-insert rows id now user_id uid blob absent old =
      Leads-statement P rows (insert_pending_in (pending_row id now user_id uid blob)) old (λ d e.
        store_rows_keeps P id (d.broker_connections ++ pending_row id now user_id uid blob ∷ []) d
          (subst P (sym e) old)
          (λ u.
            subst (λ r. P (r ++ pending_row id now user_id uid blob ∷ [])) (sym e)
              (kept.by_insert rows id now user_id uid blob absent
                (subst (λ r. rows_unique (r ++ pending_row id now user_id uid blob ∷ []) ≡ true) e
                  u)
                old)))

  register_keeps :
      (user_id : ℕ) (rows : List StoredConnection)
      → newest (keep (owned_by user_id) rows) ≡ none
      → P rows
      → Leads P rows (register state draw user_id)
  unfolding register
  register_keeps user_id rows absent old =
      search (quiet, Leads-bind, Leads-then, Leads-insert) depth 8

  pair_keeps :
      (user_id : ℕ) (rows : List StoredConnection) (found : Option StoredConnection)
      → newest (keep (owned_by user_id) rows) ≡ found
      → P rows
      → Leads P rows (pair_for state draw user_id found)
  unfolding pair_for
  pair_keeps user_id rows none absent old = register_keeps user_id rows absent old
  pair_keeps user_id rows (some row) present old =
      Leads-Quiet P rows (reuse state draw user_id row) old (reuse-Quiet state draw user_id row)

  portal_keeps :
      (user_id : ℕ) (rows : List StoredConnection)
      → P rows
      → Leads P rows (login_portal state draw user_id)
  unfolding login_portal fetch_any_for_user
  portal_keeps user_id rows old =
      Leads-bind P rows (limit draw.checked_at user_id) _ old (limit-Quiet draw.checked_at user_id)
        (λ _. Leads-select P rows (any_row user_id) _ old (λ d e.
          Leads-then P rows (pair_for state draw user_id (any_row user_id d))
            (open_portal state draw user_id)
            (pair_keeps user_id rows (any_row user_id d)
              (ap (λ r. newest (keep (owned_by user_id) r)) (sym e)) old)
            (open-Quiet state draw user_id)))

  Leads-complete :
      (rows : List StoredConnection) (id now : ℕ) (auth : Str) (slug name : Option Str)
      → P rows
      → Leads P rows (mark_completed now id auth slug name)
  unfolding mark_completed
  Leads-complete rows id now auth slug name old =
      let f = update_where (has_id id) (completed_row now auth slug name) in
      Leads-statement P rows (mark_completed_in now id auth slug name) old (λ d e.
        store_rows_keeps P tt (f d.broker_connections) d (subst P (sym e) old) (λ u.
          subst (λ r. P (f r)) (sym e)
            (kept.by_completion rows id now auth slug name
              (subst (λ r. rows_unique (f r) ≡ true) e u) old)))

  complete_keeps :
      (user_id : ℕ) (row : StoredConnection) (chosen : Option StAuthorization)
      (rows : List StoredConnection)
      → P rows
      → Leads P rows (complete state draw user_id row chosen)
  complete_keeps user_id row none rows old =
      Leads-Quiet P rows (none_new user_id row) old (none_new-Quiet user_id row)
  complete_keeps user_id row (some auth) rows old =
      search (quiet, Leads-then, Leads-complete) depth 8

  callback_keeps :
      (q : CallbackQuery) (rows : List StoredConnection)
      → P rows
      → Leads P rows (snaptrade_callback state draw q)
  unfolding snaptrade_callback fetch_any_for_user
  callback_keeps q rows old =
      search (quiet, row-Quiet, note-Quiet, Leads-bind, complete_keeps) depth 12

  Leads-delete :
      (user_id : ℕ) (authorization_id : Str) (rows : List StoredConnection) (row : StoredConnection)
      → first (linked_to user_id authorization_id) rows ≡ some row
      → P rows
      → Leads P rows (soft_delete draw.row_at user_id row.id)
  unfolding soft_delete
  Leads-delete user_id authorization_id rows row found old =
      Leads-statement P rows (soft_delete_in draw.row_at user_id row.id) old (λ d e.
        subst (λ r. P (update_where (row_of user_id row.id) (deleted_row draw.row_at) r)) (sym e)
          (kept.by_deletion rows draw.row_at user_id authorization_id row found old))

  row_keeps :
      (user_id : ℕ) (authorization_id : Str) (rows : List StoredConnection) (row : StoredConnection)
      → first (linked_to user_id authorization_id) rows ≡ some row
      → P rows
      → Leads P rows (remove_row state draw user_id row)
  row_keeps user_id authorization_id rows row found old =
      let end = record_removal state draw user_id row in
      Leads-bind P rows (remove_upstream state draw user_id row)
        (λ _. soft_delete draw.row_at user_id row.id >>= end) old
        (upstream-Quiet state draw user_id row)
        (λ _.
          Leads-then P rows (soft_delete draw.row_at user_id row.id) end
            (Leads-delete user_id authorization_id rows row found old) (λ n. search quiet))

  delete_keeps :
      (user_id : ℕ) (authorization_id : Str) (rows : List StoredConnection)
      → P rows
      → Leads P rows (delete_connection state draw user_id authorization_id)
  unfolding delete_connection fetch_by_authorization_id_for_user
  delete_keeps user_id authorization_id rows old =
      let find = first (linked_to user_id authorization_id) in
      Leads-select P rows (λ d. find d.broker_connections) (remove_found state draw user_id) old
        (λ d e.
          Leads-lift P rows (ok_or missing_connection (find d.broker_connections))
            (remove_row state draw user_id) old
            (λ row found.
              row_keeps user_id authorization_id rows row
                (ap find (sym e) ∙ some_ok missing_connection (find d.broker_connections) row found)
                old))

  pub handle_keeps :
      (call : Call) (w : World BrokerDb) → P (rows_of w) → P (rows_of (handle state draw call w))
  unfolding handle
  handle_keeps (portal user_id) w old = portal_keeps user_id (rows_of w) old w refl
  handle_keeps (callback q) w old = callback_keeps q (rows_of w) old w refl
  handle_keeps (connections user_id) w old =
      subst P (sym (list_connections-Quiet state draw user_id w)) old
  handle_keeps (accounts user_id) w old =
      subst P (sym (list_user_accounts-Quiet state draw user_id w)) old
  handle_keeps (holdings user_id id) w old =
      subst P (sym (holdings-Quiet state draw user_id id w)) old
  handle_keeps (activities user_id id q) w old =
      subst P (sym (activities-Quiet state draw user_id id q w)) old
  handle_keeps (refresh_one user_id id) w old =
      subst P (sym (refresh-Quiet state draw user_id id w)) old
  handle_keeps (delete_one user_id id) w old = delete_keeps user_id id (rows_of w) old w refl

pub handle_all_keeps :
    (P : List StoredConnection → Type 0) (kept : IsKept P) (state : BrokerState)
    (calls : List (Draw × Call)) (w : World BrokerDb)
    → P (rows_of w)
    → P (rows_of (handle_all state calls w))
unfolding handle_all
handle_all_keeps P kept state [] w old = old
handle_all_keeps P kept state ((draw, call) ∷ calls) w old =
    handle_all_keeps P kept state calls (handle state draw call w)
      (handle_keeps P kept state draw call w old)
