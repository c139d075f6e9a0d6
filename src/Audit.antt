-- ===== src/Audit.antt =====
-- results_aggregator/ and tools/verify_audit.py: the audit log.
pub mod Ledger
pub mod Verify
pub mod Aggregator
