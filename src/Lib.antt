-- ===== src/Lib.antt =====
-- Mizan Connect: the service behind the Mizan desktop app, an HTTP server over a Postgres database
-- that sells subscriptions through Stripe, meters a proxy to an AI service, connects brokers through
-- SnapTrade and manages teams.
--
-- A handler is an action on the tables and on a schedule of faults (Exec.antt): each statement,
-- `begin` and `commit` takes one entry of the schedule and either runs or fails without effect, and
-- a transaction that ends in an error is rolled back. The handlers of one component share the record
-- of its tables; error.rs gives every failure its code and status. Statements of other requests
-- between two statements of one request are not modelled, except that sequences of whole requests are.
--
-- Files, and the code they stand for:
--   Error.antt            src/error.rs: ErrorCode, AppError, From<sqlx::Error>
--   RateLimit.antt        src/snaptrade/rate_limit.rs: the limiter of the login portal
--   Billing/Credits       src/billing/credits.rs
--   Billing/Entitlements  src/billing/entitlements.rs
--   Billing/Prices        src/billing/prices.rs
--   Billing/Tables        migrations/0001, 0003 and 0005: subscriptions, usage_ledger, stripe_events
--   Billing/Repository    src/billing/repository.rs, one function for each statement
--   Billing/Signature     StripeClient::verify_webhook of src/billing/stripe_client.rs
--   Billing/Webhook       src/billing/webhook.rs: receive_webhook and its helpers
--   Billing/AiProxy       src/billing/ai_proxy.rs: chat and run_stream
--   Billing/Handlers      src/billing/handlers.rs and the requests of src/billing/stripe_client.rs
--   Teams/Model           src/teams/model.rs and src/users/model.rs
--   Teams/Tables          migrations/0001, 0005 and 0006: users, teams, team_members, team_invites
--   Teams/Repository      src/teams/repository.rs and src/users/repository.rs
--   Teams/Handlers        src/teams/handlers.rs
--   Teams/Invites         src/teams/invites.rs
--   RequestId             src/middleware/request_id.rs: extract_or_generate
--   Snaptrade/Encryption  src/snaptrade/encryption.rs
--   Snaptrade/StateToken  src/snaptrade/state_token.rs
--   Snaptrade/Signing     src/snaptrade/signing.rs
--   Snaptrade/Client      src/snaptrade/client.rs, one function for each request
--   Snaptrade/Errors, Types  src/snaptrade/errors.rs and types.rs
--   Snaptrade/Repository  src/snaptrade/repository.rs, migrations/0001 and 0002: broker_connections
--   Snaptrade/Actions, Portal, Callback, Connections  src/snaptrade/handlers.rs
--   Snaptrade/Router      src/snaptrade/mod.rs: requests one after another; Lifecycle is the
--                         transition system of a connection that the handlers refine
--   Billing/Reports       src/billing/reports.rs and migrations/0004; Jobs src/billing/reports_cron.rs
--   Config                src/config.rs: Sections and Load
--   Auth/Jwks, Token, Extractor  src/auth/jwks.rs, supabase_jwt.rs, extractor.rs and upsert.rs
--   Users                 src/users/handlers.rs
--   Audit, Json           src/audit/repository.rs; JSON values
--   Base, Exec            shared names, lists, text, integers of a fixed width; actions
-- A file Tests.antt runs its component on concrete inputs.
--
-- Representation: text and bytes are lists of numbers, UUIDs are numbers, instants are nanoseconds
-- since the Unix epoch (seconds where the code has seconds). Signed integers wrap at their width as a
-- build without overflow checks does. Code of crates is a parameter: AES-GCM, HMAC, hex decoding,
-- JSON, JWT, base64, the exchange with SnapTrade, UUIDs, UTF-8, Unicode lower case, the validation of an address, the e-mail service, the formats of
-- instants.
--
-- Bounds and fuel: `drain`, the search for newlines in a buffer, has the length of the buffer as its
-- fuel, and each round removes a newline at least; `show_from`, which writes a number in decimal, has
-- fuel 19, and no `i64` has more digits. Everything else is structural.
--
-- A handler of the broker integration reads its clocks and random numbers from a `Draw`; the requests
-- that it sends to SnapTrade are kept in order in `sent`, and the audit events that it starts and does
-- not await in `spawned`. A fetch of the keys of Supabase is an argument, its answer.
--
-- Not modelled: the HTTP layer and routing, logging, start-up and shutdown, the scheduler of the
-- monthly jobs, the health handlers, the HTTP exchange with Stripe, the list of plans for display,
-- `build_prompt`, which only tests call, and two requests that run between each other's statements.
pub mod Base
pub mod Error
pub mod Audit
pub mod Exec
pub mod Json
pub mod Auth
pub mod Config
pub mod RateLimit
pub mod Billing
pub mod Teams
pub mod RequestId
pub mod Snaptrade
pub mod Users
