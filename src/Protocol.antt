-- ===== src/Protocol.antt =====
-- backend/internal/protocol: which mail protocol a stream speaks, and what its lines say of STARTTLS.
pub mod Detector
pub mod Lines
pub mod Timeline
pub mod Selection
pub mod Progress
pub mod Drain
pub mod Redaction
