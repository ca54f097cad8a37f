-- ===== src/Reconciliation/Stored.antt =====
-- What a run of the reconciliation stores.
use instant_payment_ledger_a.Prelude.{List}
