-- ===== src/WasteBalances.antt =====
-- The waste balance of an accreditation: an event-sourced ledger (src/waste-balances).
pub mod Schema
pub mod ClosingBalance
pub mod Commands
pub mod Repository
pub mod CurrentBalance
pub mod Service
pub mod Chain
pub mod Slots
pub mod Folding
pub mod Decisions
pub mod Appending
pub mod Writes
pub mod Concurrency
pub mod Submissions
pub mod Accounts
pub mod Cover
mod Tests
pub mod Examples
