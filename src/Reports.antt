-- ===== src/Reports.antt =====
-- Code: src/reports/domain, which says what the reporting periods are, which reports fill them and
-- what an operator sees of them.
pub mod Calendar
pub mod ReportStatus
pub mod Periods
pub mod Model
pub mod Stale
pub mod PeriodicReports
pub mod Store
pub mod Flagging
pub mod Service
pub mod Routes
pub mod Lifecycle
pub mod Calendars
pub mod Submitted
pub mod Merging
pub mod Compliance
mod Tests
