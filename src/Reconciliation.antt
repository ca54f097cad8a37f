-- ===== src/Reconciliation.antt =====
-- app/domain/reconciliation: the matcher and the run.
pub mod Matcher
pub mod Services
pub mod CsvLoader
pub mod Rows
pub mod Settled
pub mod Stored
