-- ===== src/Analysis.antt =====
-- backend/internal/analysis: the scores of a session, the router over the AI providers and the queue
-- in front of them.
pub mod Scores
pub mod Router
pub mod Queue
pub mod Rating
pub mod Exposure
pub mod Failover
pub mod Backpressure
pub mod Pipeline
