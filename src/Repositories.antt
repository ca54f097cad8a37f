-- ===== src/Repositories.antt =====
-- app/infra/db/repositories: each method as an action of statements over the tables.
pub mod Ledger
pub mod Payments
pub mod Webhooks
pub mod Idempotency
pub mod Fx
pub mod Reconciliation
