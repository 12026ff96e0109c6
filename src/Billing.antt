-- ===== src/Billing.antt =====
-- src/billing: subscriptions, their entitlements and prices, and the tables behind them.
pub mod Credits
pub mod Entitlements
pub mod Prices
pub mod Tables
pub mod Repository
pub mod Signature
pub mod Webhook
pub mod AiProxy
pub mod Handlers
pub mod Reports
mod Tests
