-- ===== src/Analysis/Pipeline.antt =====
-- The pipeline of backend/internal/analysis/service.go: from the streams of a capture to the stored
-- sessions, their findings and the summary of the analysis.
pub mod World
pub mod Build
pub mod Merge
pub mod Tally
pub mod Run
pub mod Ends
pub mod Keeps
pub mod Settled
pub mod Bounds
pub mod Live
pub mod Report
