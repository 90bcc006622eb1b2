-- ===== src/Records.antt =====
-- audit_log.py and sentinelgrc.py: append-only files of hash-chained records.
pub mod ChainFile
pub mod AuditLog
pub mod Control
pub mod Ledger
pub mod Tests
