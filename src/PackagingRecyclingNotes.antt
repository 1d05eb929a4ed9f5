-- ===== src/PackagingRecyclingNotes.antt =====
-- Packaging recycling notes (PRNs): their statuses, their projection from the ledger, their store
-- and the update of a status (src/packaging-recycling-notes).
pub mod Model
pub mod Projection
pub mod Store
pub mod Numbers
pub mod BalanceEffects
pub mod Issuance
pub mod UpdateStatus
pub mod Reading
pub mod Lifecycle
pub mod Tables
pub mod History
pub mod Catchup
pub mod CommandEvents
pub mod Recovery
pub mod Persisting
pub mod Applying
pub mod Progress
pub mod Notices
mod Tests
