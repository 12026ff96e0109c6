-- ===== src/Teams.antt =====
-- teams/: teams, their members, and the invitations to them.
pub mod Model
pub mod Tables
pub mod Repository
pub mod Handlers
pub mod Invites
mod Tests
