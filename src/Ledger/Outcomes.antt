-- ===== src/Ledger/Outcomes.antt =====
-- What the operations of the ledger do, on success and on failure.
pub mod Insert
pub mod Reverse
pub mod Returns
pub mod Close
pub mod Complete
pub mod Tick
pub mod Pending
pub mod Ensured
pub mod Credit
pub mod Share
mod Tests
mod ShareTests
