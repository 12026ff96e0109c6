-- ===== src/Snaptrade/Router.antt =====
-- snaptrade/mod.rs: the routes of the broker integration, each with its handler.
pub mod Quiet
pub mod Leads
pub mod Keeps
pub mod Users
pub mod Lifecycle
use mizan_connect.Base.{ℕ, Str, List, [], ◌∷◌}
use mizan_connect.Error.{Result}
use mizan_connect.Exec.{Action, World}
use mizan_connect.Snaptrade.Types.{ActivitiesQuery}
use mizan_connect.Snaptrade.Repository.{BrokerDb}
use mizan_connect.Snaptrade.Actions.{BrokerState, Draw}
use mizan_connect.Snaptrade.Portal.{login_portal}
use mizan_connect.Snaptrade.Callback.{CallbackQuery, snaptrade_callback}
use mizan_connect.Snaptrade.Connections.{
  list_connections, list_user_accounts, holdings_for, activities_for, refresh_connection,
  delete_connection,
}

-- A request: the user that the extractor has found, and the path and the query.
pub data Call : Type 0 where
  portal : ℕ → Call
  callback : CallbackQuery → Call
  connections accounts : ℕ → Call
  holdings : ℕ → Str → Call
  activities : ℕ → Str → ActivitiesQuery → Call
  refresh_one delete_one : ℕ → Str → Call

abbrev world_of : {A : Type 0} → Result A × World BrokerDb → World BrokerDb
world_of r = r.1

-- What a request leaves behind.
unfoldable pub handle : BrokerState → Draw → Call → World BrokerDb → World BrokerDb
handle state draw (portal user_id) w = world_of (login_portal state draw user_id w)
handle state draw (callback q) w = world_of (snaptrade_callback state draw q w)
handle state draw (connections user_id) w = world_of (list_connections state draw user_id w)
handle state draw (accounts user_id) w = world_of (list_user_accounts state draw user_id w)
handle state draw (holdings user_id id) w = world_of (holdings_for state draw user_id id w)
handle state draw (activities user_id id q) w = world_of (activities_for state draw user_id id q w)
handle state draw (refresh_one user_id id) w = world_of (refresh_connection state draw user_id id w)
handle state draw (delete_one user_id id) w = world_of (delete_connection state draw user_id id w)

-- Requests one after another, each with its draws.
unfoldable pub handle_all : BrokerState → List (Draw × Call) → World BrokerDb → World BrokerDb
unfolding handle
handle_all state [] w = w
handle_all state ((draw, call) ∷ calls) w = handle_all state calls (handle state draw call w)
