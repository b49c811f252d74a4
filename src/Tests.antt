-- ===== src/Tests.antt =====
-- Runs of the code's definitions on small inputs.
pub mod Streams
pub mod Assessment
pub mod Capture
pub mod Messages
pub mod Storage
pub mod Pipeline
pub mod Api
