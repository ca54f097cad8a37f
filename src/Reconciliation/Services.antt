-- ===== src/Reconciliation/Services.antt =====
-- app/domain/reconciliation/services.py.
use instant_payment_ledger_a.Prelude.{ℕ, String, List}
use instant_payment_ledger_a.Entities.Reconciliation.{SettlementRecord, ReconciliationResult}
use instant_payment_ledger_a.Database.Session.{Action, pure, commit, transaction, ◌>>=◌, ◌>>◌}
use instant_payment_ledger_a.Repositories.Reconciliation.{
  load_settlement_records, list_settled_payments, record_run,
}
use instant_payment_ledger_a.Reconciliation.Matcher.{match_payments}

unfoldable pub run_reconciliation :
    (ℕ → String) → ℕ → List SettlementRecord → ℕ → ℕ → Action (ℕ × ReconciliationResult)
unfolding match_payments
run_reconciliation str batch_id settlement_records window_start window_end = transaction do
  load_settlement_records batch_id settlement_records
  ledger_payments ← list_settled_payments str window_start window_end
  let result = match_payments ledger_payments settlement_records
  run_id ← record_run batch_id result
  commit
  pure (run_id, result)
