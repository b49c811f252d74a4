-- ===== src/Risk.antt =====
-- backend/internal/risk: the classification of cipher suites and the rules that make findings.
pub mod Cipher
pub mod Policy
pub mod Findings
pub mod Engine
pub mod Coverage
pub mod Reports
