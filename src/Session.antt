-- ===== src/Session.antt =====
-- backend/internal/session/reassembler.go: connections and their payloads.
pub mod Keys
pub mod Reassembler
pub mod Payloads
pub mod Callbacks
pub mod Liveness
