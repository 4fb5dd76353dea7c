-- ===== src/Ledger.antt =====
-- The fund accounting of internal/ledger: one module for each group of its functions, and under it
-- what they guarantee.
pub mod Post
pub mod Accounts
pub mod Reverse
pub mod Transfer
pub mod Reconcile
pub mod Books
pub mod Effects
pub mod Outcomes
pub mod Session
pub mod Statements
pub mod Reports
pub mod Fundraisers
pub mod Storefront
pub mod Orders
mod Tests
