-- ===== src/Audit.antt =====
-- internal/audit: the hash-chained audit log, its writer and its verifier.
pub mod Event
pub mod Chain
pub mod Writer
pub mod Evidence
