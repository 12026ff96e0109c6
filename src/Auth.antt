-- ===== src/Auth.antt =====
-- auth/: who sends a request.
pub mod Jwks
pub mod Token
pub mod Extractor
mod Tests
