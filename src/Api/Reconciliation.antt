-- ===== src/Api/Reconciliation.antt =====
-- app/api/v1/reconciliation.py and app/workers/reconciliation_job.py. The batch's identifier, drawn by
-- the caller, and the time of day are arguments; times are whole seconds.
use instant_payment_ledger_a.Prelude.{ℕ, ◌-◌, ◌*◌, String, Option, none, some, List, [], ◌∷◌}
use instant_payment_ledger_a.Entities.Errors.{
  Error, missing_columns, invalid_row, no_data_rows, reconciliation_run_not_found,
}
use instant_payment_ledger_a.Entities.Reconciliation.{
  ReconciliationBreak, ReconciliationResult, break_count,
}
use instant_payment_ledger_a.Database.Session.{Action, pure, lift, transaction, ◌>>=◌}
use instant_payment_ledger_a.Repositories.Reconciliation.{get_run, list_breaks_for_run}
use instant_payment_ledger_a.Reconciliation.Services.{run_reconciliation}
use instant_payment_ledger_a.Reconciliation.CsvLoader.{Csv, parse_settlement_csv}
use instant_payment_ledger_a.Api.{Endpoint, endpoint}

pub record ReconciliationRunResponse : Type 0 where
  pub id : ℕ
  pub batch_id : ℕ
  pub matched_count : ℕ
  pub break_count : ℕ
  pub status : String
  pub breaks : List ReconciliationBreak

-- `window_end - timedelta(hours=window_hours)`
abbrev pub window_start : ℕ → ℕ → ℕ
window_start window_end window_hours = window_end - window_hours * 3600

-- `except SettlementCsvError`; the run itself raises no such error.
unfoldable pub run_status : Error → Option ℕ
run_status missing_columns = some 400
run_status (invalid_row line) = some 400
run_status no_data_rows = some 400
run_status _ = none

abbrev pub run_response : ℕ → ℕ × ReconciliationResult → ReconciliationRunResponse
run_response batch_id (run_id, result) = record {
  id = run_id;
  batch_id = batch_id;
  matched_count = result.matched_count;
  break_count = break_count result;
  status = "completed";
  breaks = result.breaks;
}

-- Parse the file, and reconcile it with the last hours.
unfoldable pub reconcile_file :
    Csv → (ℕ → String) → ℕ → ℕ → ℕ → String → Action (ℕ × ReconciliationResult)
unfolding parse_settlement_csv run_reconciliation
reconcile_file csv str batch_id window_end window_hours content = do
  records ← lift (parse_settlement_csv csv content)
  run_reconciliation str batch_id records (window_start window_end window_hours) window_end

unfoldable pub run_reconciliation_endpoint :
    Csv → (ℕ → String) → ℕ → ℕ → ℕ → String → Endpoint ReconciliationRunResponse
unfolding endpoint run_status reconcile_file
run_reconciliation_endpoint csv str batch_id window_end window_hours body =
    endpoint 201 run_status (do
      outcome ← reconcile_file csv str batch_id window_end window_hours body
      pure (run_response batch_id outcome))

unfoldable pub get_run_status : Error → Option ℕ
get_run_status (reconciliation_run_not_found i) = some 404
get_run_status _ = none

unfoldable pub get_reconciliation_run : ℕ → Endpoint ReconciliationRunResponse
unfolding endpoint get_run_status
get_reconciliation_run run_id = endpoint 200 get_run_status (
    transaction do
      run ← get_run run_id
      breaks ← list_breaks_for_run run_id
      pure (record {
        id = run.id;
        batch_id = run.batch_id;
        matched_count = run.matched_count;
        break_count = run.break_count;
        status = run.status;
        breaks = breaks;
      }))

-- `1 if result.breaks else 0`
abbrev pub exit_code : List ReconciliationBreak → ℕ
exit_code [] = 0
exit_code (b ∷ bs) = 1

-- `_run` of the worker, on a file's content; an error ends the process.
unfoldable pub run_job : Csv → (ℕ → String) → ℕ → ℕ → ℕ → String → Action ℕ
unfolding reconcile_file
run_job csv str batch_id window_end window_hours content = do
  (run_id, result) ← reconcile_file csv str batch_id window_end window_hours content
  pure (exit_code result.breaks)
