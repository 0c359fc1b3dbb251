-- ===== src/Api.antt =====
-- The HTTP server: api/ of the repository.
pub mod AuthLimiter
pub mod ApiKeys
pub mod Auth
pub mod Workflow
pub mod Templates
pub mod Idempotency
mod Tests
