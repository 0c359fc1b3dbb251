-- ===== src/Sdk.antt =====
-- The TypeScript SDK (sdk/src).
pub mod Platform
pub mod Types
pub mod Convert
pub mod Requests
pub mod Abi
pub mod Client
pub mod Freighter
pub mod Poll
mod Tests
