-- ===== src/Snaptrade/Connections/Removal.antt =====
-- snaptrade/handlers.rs: the removal of a connection, once and again.
use mizan_connect.Base.{
  ℕ, Str, Bool, true, ◌≡◌, refl, sym, ap, ◌∙◌, List, [], ◌∷◌, some, first, update_where, arith,
}
use mizan_connect.Error.{ok, ok_or}
use mizan_connect.Exec.{World, pure, statement, select, ◌>>=◌}
use mizan_connect.Exec.Laws.{bind_ok, lift_then, select_then, statement_then}
use mizan_connect.Audit.{insert_event}
use mizan_connect.Snaptrade.Repository.{
  BrokerDb, StoredConnection, linked_to, row_of, deleted_row, fetch_by_authorization_id_for_user,
  soft_delete, soft_delete_in, record_event,
}
use mizan_connect.Snaptrade.Actions.{BrokerState, Draw}
use mizan_connect.Snaptrade.Actions.Laws.{some_ok, audited_then, record_event_rows}
use mizan_connect.Snaptrade.Connections.{
  delete_connection, missing_connection, disconnect_event, remove_upstream, remove_row,
  remove_found, record_removal,
}
use mizan_connect.Snaptrade.Router.Quiet.{upstream-Quiet}

-- The row that the query finds stays the one that it finds, as removed.
first_deleted :
    (now user_id id : ℕ) (authorization_id : Str) (rows : List StoredConnection)
    (row : StoredConnection)
    → first (linked_to user_id authorization_id) rows ≡ some row
    → row.id ≡ id
    → first
        (linked_to user_id authorization_id)
        (update_where (row_of user_id id) (deleted_row now) rows)
      ≡ some (deleted_row now row)
first_deleted now user_id id authorization_id [] row h e = absurd (cc)
first_deleted now user_id id authorization_id (a ∷ rows) row h e =
    ground (arith, first_deleted now user_id id authorization_id rows row)

module _ (state : BrokerState) (draw : Draw) (user_id : ℕ) where
  delete_connection_ok :
      (authorization_id : Str) (w : World BrokerDb) (b : Bool)
      → (delete_connection state draw user_id authorization_id w).0 ≡ ok b
      → (row : StoredConnection) × (first
            (linked_to user_id authorization_id)
            w.db.broker_connections
          ≡ some row)
        × ((delete_connection state draw user_id authorization_id w).1.db.broker_connections
            ≡ update_where
                (row_of user_id row.id)
                (deleted_row draw.row_at)
                w.db.broker_connections)
  unfolding delete_connection fetch_by_authorization_id_for_user soft_delete
  delete_connection_ok authorization_id w b h =
      let find =
        λ (d : BrokerDb). first (linked_to user_id authorization_id) d.broker_connections in
      let end = record_removal state draw user_id in
      let (w2, same, e1, h1) = select_then find (remove_found state draw user_id) w b h in
      let (row, found, e2, h2) =
        lift_then (ok_or missing_connection (find w.db)) (remove_row state draw user_id) w2 b h1 in
      let delete_it = λ (_ : Unit {0}). soft_delete draw.row_at user_id row.id >>= end row in
      let (_, _, e3) = bind_ok (remove_upstream state draw user_id row) delete_it w2 b h2 in
      let w3 = (remove_upstream state draw user_id row w2).1 in
      let (n, w4, _, gone, e4, h4) =
        statement_then (soft_delete_in draw.row_at user_id row.id) (end row) w3 b
          (ap (λ r. r.0) (sym e3) ∙ h2) in
      let event = disconnect_event user_id row.snaptrade_authorization_id in
      let e5 = audited_then event (λ _. pure {D = BrokerDb} true) w4 in
      (
        row,
        some_ok missing_connection (find w.db) row found,
        ap (λ r. r.1.db.broker_connections) (e1 ∙ e2 ∙ e3 ∙ e4 ∙ e5)
            ∙ (record_event_rows event w4).0
            ∙ ap (λ d. d.broker_connections) gone
            ∙ ap (update_where (row_of user_id row.id) (deleted_row draw.row_at))
                (upstream-Quiet state draw user_id row w2 ∙ ap (λ d. d.broker_connections) same),
      )

  -- A removed row and no fault: the statements run, and nothing goes upstream.
  delete_removed :
      (authorization_id : Str) (d : BrokerDb) (row : StoredConnection)
      → first (linked_to user_id authorization_id) d.broker_connections ≡ some row
      → row.disabled ≡ true
      → delete_connection state draw user_id authorization_id (record { db = d; faults = [] }) ≡ (
        ok true,
        record {
          db = record d {
            broker_connections =
                update_where (row_of user_id row.id) (deleted_row draw.row_at) d.broker_connections;
            audit_log =
                insert_event (disconnect_event user_id row.snaptrade_authorization_id) d.audit_log;
          };
          faults = [];
        },
      )
  unfolding delete_connection fetch_by_authorization_id_for_user select statement soft_delete
      record_event
  delete_removed authorization_id d row found disabled = ground arith

-- A removal that is answered has made the row inactive, and a second one, with no fault, is answered
-- the same, sends nothing to SnapTrade, and writes the event of the removal once more.
pub delete_connection_twice :
    (state : BrokerState) (draw draw2 : Draw) (user_id : ℕ) (authorization_id : Str)
    (w : World BrokerDb) (b : Bool) (d : BrokerDb)
    → (delete_connection state draw user_id authorization_id w).0 ≡ ok b
    → d.broker_connections
      ≡ (delete_connection state draw user_id authorization_id w).1.db.broker_connections
    → (row : StoredConnection) × (first (linked_to user_id authorization_id) d.broker_connections
        ≡ some (deleted_row draw.row_at row))
      × (delete_connection state draw2 user_id authorization_id (record { db = d; faults = [] }) ≡ (
        ok true,
        record {
          db = record d {
            broker_connections =
                update_where
                  (row_of user_id row.id)
                  (deleted_row draw2.row_at)
                  d.broker_connections;
            audit_log =
                insert_event (disconnect_event user_id row.snaptrade_authorization_id) d.audit_log;
          };
          faults = [];
        },
      ))
delete_connection_twice state draw draw2 user_id authorization_id w b d h same =
    let (row, found, rows) = delete_connection_ok state draw user_id authorization_id w b h in
    let again =
      ap (first (linked_to user_id authorization_id)) (same ∙ rows)
      ∙ first_deleted draw.row_at user_id row.id authorization_id w.db.broker_connections row found
          refl in
    (
      row,
      again,
      delete_removed state draw2 user_id authorization_id d (deleted_row draw.row_at row) again
          refl,
    )
