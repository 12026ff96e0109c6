-- ===== src/Snaptrade/Tests.antt =====
-- Runs of the handlers of snaptrade/ with a server that always answers the same.
use mizan_connect.Snaptrade.Errors.{answer_or}
use mizan_connect.Snaptrade.Encryption.{decrypt, encrypt}
use mizan_connect.Base.{
  ◌==◌, ◌&&◌, ◌≢◌, ap, arith, inl, inr, first, str_eq, ℕ, Str, codes, ◌≡◌, refl, Option, none, some,
  List, [], ◌∷◌, true, false, ◌++◌, first, ◌↔◌, All, update_where,
}
use mizan_connect.Error.{ok}
use mizan_connect.Json.{null}
use mizan_connect.Exec.{select, World}
use mizan_connect.Snaptrade.Encryption.Tests.{tag, toy, toy-IsCipher, key, nonce}
use mizan_connect.Snaptrade.Types.{StAuthorization, ActivitiesQuery}
use mizan_connect.Snaptrade.Client.{
  remove_authorization, list_authorizations, login_user, register_user, Wire, SnaptradeClient,
  replied,
}
use mizan_connect.Snaptrade.StateToken.{issue, StateClaims, Jwt, issuer, verify}
use mizan_connect.Snaptrade.Repository.{
  soft_delete, fetch_by_authorization_id_for_user, mark_completed, insert_pending, record_event,
  fetch_any_for_user, StoredConnection, BrokerDb, newest, rows_unique, any_row, linked_to,
  deleted_row, row_of,
}
use mizan_connect.Snaptrade.Actions.{note, or_recorded, outcome_or, ask, BrokerState, Draw}
use mizan_connect.Snaptrade.Callback.Newest.{
  IsNewest, pick_newest_authorization-IsNewest, pick_newest_authorization_replay,
}
use mizan_connect.Snaptrade.Callback.Effect.{
  IsNamed, with_authorization, Resolved, snaptrade_callback_ok,
}
use mizan_connect.Snaptrade.Callback.Links.{Linked, snaptrade_callback_links}
use mizan_connect.Snaptrade.Connections.{delete_connection, disconnect_event}
use mizan_connect.Audit.{insert_event}
use mizan_connect.Snaptrade.Connections.Removal.{delete_connection_twice}
use mizan_connect.Snaptrade.Portal.{login_portal}
use mizan_connect.Snaptrade.Portal.Once.{Fresh, login_portal_reuses}
use mizan_connect.Snaptrade.Portal.Opened.{Opened}
use mizan_connect.Snaptrade.Callback.{
  CallbackQuery, snaptrade_callback, success_html, pick_newest_authorization,
}
use mizan_connect.Snaptrade.Router.{Call, portal, callback, delete_one, handle_all}
use mizan_connect.Snaptrade.Router.Quiet.{rows_of}
use mizan_connect.Snaptrade.Router.Users.{handle_all-OneEach}
use mizan_connect.Snaptrade.Router.Lifecycle.{IsTable, Run, stages, handle_all-Run}
use mizan_connect.Snaptrade.Repository.Unique.{OneEach}

abbrev auth_of : Str → Str → StAuthorization
auth_of id created = record {
  id = id;
  name = none;
  auth_type = none;
  disabled = false;
  created_date = some created;
  updated_date = none;
  brokerage = none;
}

abbrev old_auth : StAuthorization
old_auth = auth_of (1 ∷ []) (10 ∷ [])

abbrev new_auth : StAuthorization
new_auth = auth_of (2 ∷ []) (20 ∷ [])

abbrev wire : Wire
wire = record {
  register_response = λ s. some (record { user_id = 7 ∷ []; user_secret = 104 ∷ 105 ∷ [] });
  login_response = λ s. some (record { redirect_uri = 9 ∷ [] });
  authorizations = λ s. some (old_auth ∷ new_auth ∷ []);
  accounts = λ s. some [];
  value = λ s. some null;
}

-- No digest: the runs below read no signature.
abbrev client : SnaptradeClient
client = record {
  base_url = [];
  client_id = [];
  consumer_key = [];
  signer = record { to_string = λ v. []; hmac_sha256 = λ k s. s; base64 = λ s. s };
  wire = wire;
  byte_serialize = λ s. s;
  to_string = λ n. n ∷ [];
  from_utf8_lossy = λ s. s;
  send = λ r. replied 200 (1 ∷ []);
}

abbrev claims_in : ℕ → Str → Option StateClaims
claims_in now [] = none
claims_in now (sub ∷ _) = some (record { sub = sub; nonce = 0; iss = issuer; exp = now; iat = now })

abbrev first_number : Str → Option ℕ
first_number [] = none
first_number (n ∷ _) = some n

-- A token is the list of its numbers.
abbrev tokens : Jwt
tokens = record {
  encode = λ secret c. some (c.sub ∷ c.nonce ∷ c.iat ∷ c.exp ∷ []);
  decode = λ secret v now token. claims_in now token;
}

abbrev state : BrokerState
state = record {
  snaptrade = client;
  cipher = toy;
  key = key;
  jwt = tokens;
  state_secret = [];
  redirect_with = λ token. some token;
  parse_rfc3339 = first_number;
  uuid_text = λ n. n ∷ [];
}

abbrev draw_at : ℕ → ℕ → Draw
draw_at now id = record {
  checked_at = now;
  asked_at = now;
  row_at = now;
  token_at = now;
  answered_at = now;
  row_id = id;
  token_nonce = 5;
  cipher_nonce = nonce;
}

abbrev draw : Draw
draw = draw_at 1000 1

abbrev draw2 : Draw
draw2 = draw_at 2000 2

abbrev empty : BrokerDb
empty = record {
  broker_connections = [];
  audit_log = record { next_id = 1; rows = [] };
  sent = [];
  spawned = [];
  limiter = λ user. none;
}

abbrev world : World BrokerDb
world = record { db = empty; faults = [] }

abbrev query : CallbackQuery
query = record { state = some (3 ∷ []); user_id = some (7 ∷ []) }

-- The user 3 opens a portal, links a broker, and removes the link.
abbrev calls : List (Draw × Call)
calls = (draw, portal 3) ∷ (draw2, callback query) ∷ (draw2, delete_one 3 (2 ∷ [])) ∷ []

handle_all-OneEach_example : OneEach (rows_of (handle_all state calls world))
handle_all-OneEach_example = handle_all-OneEach state calls world tt

handle_all-Run_example :
    IsTable (rows_of (handle_all state calls world))
    × Run (stages (rows_of world)) (stages (rows_of (handle_all state calls world)))
unfolding rows_unique
handle_all-Run_example = handle_all-Run state calls world (refl, tt)

login_portal_reuses_example :
    (pair : Str × Str) × (blob : Str) × (redirect : Str) × Fresh state draw 3 pair blob redirect
      empty
      (login_portal state draw 3 world).1.db
    × Opened state draw2 3 pair
        (login_portal state draw 3 world).1.db
        (login_portal state draw2 3 (login_portal state draw 3 world).1).1.db
        (record { url = 9 ∷ []; expires_at = 300000002000 })
unfolding login_portal newest fetch_any_for_user select ask register_user record_event outcome_or
    encrypt insert_pending rows_unique issue login_user decrypt
login_portal_reuses_example =
    login_portal_reuses state draw draw2 3 world (login_portal state draw 3 world).1
      (record { url = 9 ∷ []; expires_at = 300000001000 })
      (record { url = 9 ∷ []; expires_at = 300000002000 }) toy-IsCipher refl refl refl refl refl

abbrev asked : ActivitiesQuery
asked = record { cursor = some (codes "40"); limit = some 1000; start_date = none; end_date = none }

abbrev linked_row : StoredConnection
linked_row = record {
  id = 1;
  user_id = 3;
  snaptrade_user_id = 7 ∷ [];
  snaptrade_user_secret_encrypted = nonce ++ 104 ∷ 105 ∷ tag;
  snaptrade_authorization_id = some (1 ∷ []);
  broker_slug = none;
  institution_name = none;
  is_active = true;
  disabled = false;
  created_at = 1000;
  updated_at = 1000;
}

abbrev linked_table : BrokerDb
linked_table = record empty { broker_connections = linked_row ∷ [] }

abbrev linked_world : World BrokerDb
linked_world = record { db = linked_table; faults = [] }

pick_newest_authorization-IsNewest_example :
    IsNewest first_number none (old_auth ∷ new_auth ∷ []) new_auth
unfolding pick_newest_authorization
pick_newest_authorization-IsNewest_example =
    pick_newest_authorization-IsNewest first_number none (old_auth ∷ new_auth ∷ []) new_auth refl

-- The newer authorization is on the row, and the replay picks the older one.
replay_picks_older :
    pick_newest_authorization first_number (old_auth ∷ new_auth ∷ []) (some (2 ∷ []))
    ≡ some old_auth
unfolding pick_newest_authorization str_eq
replay_picks_older = refl

pick_newest_authorization_replay_example :
    (pick_newest_authorization first_number (old_auth ∷ new_auth ∷ []) (some (2 ∷ [])) ≡ none)
    ↔ All (λ b. b.id ≡ 2 ∷ []) (old_auth ∷ new_auth ∷ [])
pick_newest_authorization_replay_example =
    pick_newest_authorization_replay first_number (2 ∷ []) (old_auth ∷ new_auth ∷ [])

named : IsNamed query.user_id (7 ∷ [])
named returned e = cc e

two_is_new : ◌≢◌ {A = Option Str} (some (1 ∷ [])) (some (2 ∷ []))
two_is_new e = omega (arith, ap first_of e)
  where
    first_of : Option Str → ℕ
    first_of none = 0
    first_of (some []) = 0
    first_of (some (n ∷ s)) = n

snaptrade_callback_ok_example :
    (token : Str) × (claims : StateClaims) × (row : StoredConnection) × (query.state ≡ some token)
    × (verify tokens [] 0 token ≡ ok claims)
    × (any_row claims.sub linked_table ≡ some row)
    × IsNamed query.user_id row.snaptrade_user_id
    × Resolved state draw2 row linked_table
        (snaptrade_callback state draw2 query linked_world).1.db
        success_html
unfolding snaptrade_callback or_recorded verify fetch_any_for_user select str_eq outcome_or decrypt
    note answer_or list_authorizations pick_newest_authorization mark_completed rows_unique
    record_event
snaptrade_callback_ok_example =
    snaptrade_callback_ok state draw2 query linked_world success_html refl

snaptrade_callback_links_example :
    (a : StAuthorization) × IsNewest first_number (some (1 ∷ [])) (old_auth ∷ new_auth ∷ []) a
    × Linked 2000 linked_row a linked_table (snaptrade_callback state draw2 query linked_world)
    × (first
          (λ b. b.user_id == 3 && b.is_active)
          (snaptrade_callback state draw2 query linked_world).1.db.broker_connections
        ≡ some (with_authorization 2000 a linked_row))
unfolding rows_unique verify newest decrypt list_authorizations
snaptrade_callback_links_example =
    snaptrade_callback_links state draw2 query (3 ∷ [])
      (record { sub = 3; nonce = 0; iss = issuer; exp = 0; iat = 0 }) linked_row (104 ∷ 105 ∷ [])
      (old_auth ∷ new_auth ∷ []) linked_table refl (tt, tt) refl refl refl named refl refl
      (inr (inl two_is_new))

-- The tables behind a removal.
abbrev after_removal : BrokerDb
after_removal = (delete_connection state draw 3 (1 ∷ []) linked_world).1.db

delete_connection_twice_example :
    (row : StoredConnection) × (first (linked_to 3 (1 ∷ [])) after_removal.broker_connections
      ≡ some (deleted_row 1000 row))
    × (delete_connection state draw2 3 (1 ∷ []) (record { db = after_removal; faults = [] }) ≡ (
      ok true,
      record {
        db = record after_removal {
          broker_connections =
              update_where (row_of 3 row.id) (deleted_row 2000) after_removal.broker_connections;
          audit_log =
              insert_event
                (disconnect_event 3 row.snaptrade_authorization_id)
                after_removal.audit_log;
        };
        faults = [];
      },
    ))
unfolding delete_connection fetch_by_authorization_id_for_user select str_eq outcome_or decrypt ask
    remove_authorization soft_delete record_event
delete_connection_twice_example =
    delete_connection_twice state draw draw2 3 (1 ∷ []) linked_world true after_removal refl refl
