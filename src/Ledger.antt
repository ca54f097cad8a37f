-- ===== src/Ledger.antt =====
-- app/domain/ledger: the double-entry rules and the posting of an entry.
pub mod Invariants
pub mod Services
pub mod Conservation
pub mod Atomicity
pub mod Alone
pub mod Balances
