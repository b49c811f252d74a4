-- ===== src/Streams.antt =====
-- parser/internal/reassembly/stream.go: what is read of one direction of a mail connection.
pub mod Ports
pub mod Run
pub mod Total
