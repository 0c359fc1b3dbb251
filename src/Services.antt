-- ===== src/Services.antt =====
-- The services beside the contracts: services/ of the repository.
pub mod Balance
pub mod Periods
pub mod Snapshot
pub mod Migration
pub mod Indexer
pub mod Notification
mod Tests
