-- ===== src/Snaptrade.antt =====
-- snaptrade/: the connection of brokers through SnapTrade.
pub mod Encryption
pub mod Types
pub mod Errors
pub mod Signing
pub mod Client
pub mod StateToken
pub mod Repository
pub mod Actions
pub mod Portal
pub mod Callback
pub mod Connections
pub mod Router
mod Tests
