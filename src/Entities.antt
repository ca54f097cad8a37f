-- ===== src/Entities.antt =====
-- The value types of app/domain: one child for each package's entities, and the exceptions.
-- Identifiers (UUIDs) are only compared, so they are numbers. An amount of money is a whole number
-- of cents (the columns are `Numeric(18, 2)`), a rate a whole number of 10^-8 (`Numeric(18, 8)`).
pub mod Ledger
pub mod Payments
pub mod Webhooks
pub mod Reconciliation
pub mod Errors
pub mod Results
