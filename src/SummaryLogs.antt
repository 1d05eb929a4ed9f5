-- ===== src/SummaryLogs.antt =====
-- Summary logs: their statuses and their store (src/domain/summary-logs, src/repositories).
pub mod Status
pub mod Store
pub mod Failure
pub mod Exclusion
pub mod Settled
mod Tests
