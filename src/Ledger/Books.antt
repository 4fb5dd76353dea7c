-- ===== src/Ledger/Books.antt =====
-- Every operation of the ledger keeps the books, whichever of its statements fail.
pub mod Recorded
pub mod Accounts
pub mod Approvals
pub mod Reconciliations
pub mod Fundraising
