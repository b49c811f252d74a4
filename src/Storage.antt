-- ===== src/Storage.antt =====
-- backend/internal/storage: the repository of analyses, sessions and findings.
pub mod Tables
pub mod Analyses
pub mod Sessions
pub mod Loads
pub mod Rows
pub mod Statements
pub mod Isolation
pub mod Unique
pub mod WellFormed
pub mod Willing
pub mod Stored
pub mod RoundTrip
