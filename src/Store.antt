-- ===== src/Store.antt =====
-- The tables of internal/db/migrations that hold the unit's books, and the statements that the
-- ledger and approval packages send to them through a pool of connections.
pub mod Logins
pub mod Fundraising
pub mod Mailings
pub mod Rows
pub mod Sums
pub mod Sql
pub mod Triple
pub mod Reads
pub mod Keeps
pub mod Calm
pub mod Post
pub mod Books
