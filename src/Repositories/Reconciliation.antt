-- ===== src/Repositories/Reconciliation.antt =====
-- app/infra/db/repositories/reconciliation_repository.py. `str(uuid)` is a parameter.
use instant_payment_ledger_a.Prelude.{
  ℕ, ◌+◌, String, Bool, ◌&&◌, Option, none, some, List, [], ◌∷◌, ◌++◌, map, ◌==◌, leb, ltb, str_eq,
  if◌then◌else◌,
}
use instant_payment_ledger_a.Entities.Payments.{PaymentStatus, Payment, same_status}
use instant_payment_ledger_a.Entities.Reconciliation.{
  SettlementRecord, LedgerSettledPayment, ReconciliationBreak, ReconciliationResult, break_count,
}
use instant_payment_ledger_a.Entities.Errors.{ok, err, reconciliation_run_not_found}
use instant_payment_ledger_a.Database.Tables.{
  PaymentStatusHistoryRow, SettlementFileRow, ReconciliationRunRow, ReconciliationBreakRow,
}
use instant_payment_ledger_a.Database.Session.{Action, statement, query, execute}
use instant_payment_ledger_a.Repositories.Ledger.{fresh}
use instant_payment_ledger_a.Repositories.Payments.{find_payment}

-- `row.end_to_end_id or str(row.id)`: an empty text counts as none.
abbrev pub reference : (ℕ → String) → Payment → String
reference str p = elim p.end_to_end_id [
  | none ↦ str p.id
  | some e ↦ if str_eq e "" then str p.id else e
]

abbrev pub settled_payment : (ℕ → String) → Payment → LedgerSettledPayment
settled_payment str p = record {
  payment_id = p.id;
  external_ref = reference str p;
  amount = p.amount;
  currency = p.currency;
}

abbrev pub in_window : ℕ → ℕ → PaymentStatusHistoryRow → Bool
in_window start end h =
    same_status h.to_status PaymentStatus.settled
    && leb start h.transitioned_at
    && ltb h.transitioned_at end

abbrev pub join_row :
    (ℕ → String) → Option Payment → List LedgerSettledPayment → List LedgerSettledPayment
join_row str none rest = rest
join_row str (some p) rest = settled_payment str p ∷ rest

-- The join of the payments with their transitions to `settled` in the window.
unfoldable pub settled_in :
    (ℕ → String) → ℕ → ℕ → List Payment → List PaymentStatusHistoryRow → List LedgerSettledPayment
unfolding find_payment
settled_in str start end payments [] = []
settled_in str start end payments (h ∷ hs) =
    let rest = settled_in str start end payments hs in
    if in_window start end h then join_row str (find_payment h.payment_id payments) rest else rest

unfoldable pub list_settled_payments : (ℕ → String) → ℕ → ℕ → Action (List LedgerSettledPayment)
unfolding settled_in
list_settled_payments str window_start window_end =
    query λ db. ok (settled_in str window_start window_end db.payments db.payment_status_history)

unfoldable pub load_settlement_records : ℕ → List SettlementRecord → Action (Unit {0})
load_settlement_records batch_id records =
    execute
      λ db. record db { settlement_file_records = map row records ++ db.settlement_file_records }
  where
    row : SettlementRecord → SettlementFileRow
    row r = record { batch_id = batch_id; settlement = r }

abbrev pub break_row : ℕ → ReconciliationBreak → ReconciliationBreakRow
break_row run_id b = record { run_id = run_id; break_row = b }

abbrev pub run_row : ℕ → ℕ → ReconciliationResult → ReconciliationRunRow
run_row run_id batch_id result = record {
  id = run_id;
  batch_id = batch_id;
  matched_count = result.matched_count;
  break_count = break_count result;
  status = "completed";
}

unfoldable pub record_run : ℕ → ReconciliationResult → Action ℕ
record_run batch_id result = statement λ db. (
  ok (fresh db),
  record db {
    reconciliation_runs = run_row (fresh db) batch_id result ∷ db.reconciliation_runs;
    reconciliation_breaks = map (break_row (fresh db)) result.breaks ++ db.reconciliation_breaks;
    draws = db.draws + 1;
  },
)

unfoldable pub find_run : ℕ → List ReconciliationRunRow → Option ReconciliationRunRow
find_run i [] = none
find_run i (r ∷ rs) = if r.id == i then some r else find_run i rs

unfoldable pub get_run : ℕ → Action ReconciliationRunRow
unfolding find_run
get_run run_id = query λ db. elim (find_run run_id db.reconciliation_runs) [
  | none ↦ err (reconciliation_run_not_found run_id)
  | some row ↦ ok row
]

unfoldable pub breaks_of : ℕ → List ReconciliationBreakRow → List ReconciliationBreak
breaks_of run_id [] = []
breaks_of run_id (r ∷ rs) =
    let rest = breaks_of run_id rs in if r.run_id == run_id then r.break_row ∷ rest else rest

unfoldable pub list_breaks_for_run : ℕ → Action (List ReconciliationBreak)
unfolding breaks_of
list_breaks_for_run run_id = query λ db. ok (breaks_of run_id db.reconciliation_breaks)
