-- ===== src/Demo.antt =====
-- The logic of the demonstration app (demo/src).
pub mod Counter
pub mod Employer
pub mod Stats
pub mod Toasts
pub mod Templates
pub mod Csv
pub mod Employee
pub mod PayStream
pub mod History
pub mod Balance
pub mod Auth
pub mod Validation
mod Tests
