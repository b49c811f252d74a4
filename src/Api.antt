-- ===== src/Api.antt =====
-- backend/internal/api/handlers.go: what the HTTP handlers answer. gin, the reading of a request's body
-- and the encoding of an answer's are not part of the repository: a handler is a function of the values
-- that it reads, and its answer is a value.
pub mod Response
pub mod Queries
pub mod Summary
pub mod Packets
pub mod Dashboard
pub mod Label
pub mod Report
pub mod Html
pub mod Sockets
