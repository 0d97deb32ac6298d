-- ===== src/Scripts.antt =====
-- scripts: the tools that an operator runs on the ledger and the audit log.
pub mod Reconcile
pub mod Purge
pub mod Bench
