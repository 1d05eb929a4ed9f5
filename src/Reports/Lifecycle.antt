-- ===== src/Reports/Lifecycle.antt =====
-- What holds of the reports as the handlers of src/reports/routes run one after another.
pub mod Invariant
pub mod Writes
pub mod Ends
pub mod Created
pub mod Handlers
pub mod Flags
pub mod Restated
pub mod Steps
mod Tests
