-- ===== src/Inspect.antt =====
-- backend/internal/tlsinspect/inspector.go: what is made of the fields that TShark prints.
pub mod Values
pub mod Aggregate
pub mod Grease
pub mod PerStream
pub mod Secrecy
