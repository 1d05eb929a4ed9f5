-- ===== src/Organisations.antt =====
-- Organisations, their registrations and accreditations: the statuses (src/domain/organisations).
pub mod Model
pub mod Status
pub mod History
mod Tests
