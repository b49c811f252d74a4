-- ===== src/Handshake.antt =====
-- parser/internal/tlsparser/handshake.go, the parser of TLS handshake records, with the types of
-- parser/internal/models/session.go that it fills.
pub mod Names
pub mod Types
pub mod Hello
pub mod Certificates
pub mod Records
pub mod RoundTrip
pub mod Framing
pub mod Loops
pub mod Total
pub mod Secrecy
