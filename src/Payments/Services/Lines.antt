-- ===== src/Payments/Services/Lines.antt =====
-- app/domain/payments/services.py, lines 292 to 296 and 357 to 422: the lines that settle or reverse a
-- payment.
pub mod Net
use instant_payment_ledger_a.Prelude.{
  ℕ, String, ℤ, Option, none, some, List, [], ◌∷◌, str_eq, if◌then◌else◌,
}
use instant_payment_ledger_a.Entities.Ledger.{Direction, Account, JournalLine, FxRate}
use instant_payment_ledger_a.Entities.Payments.{Payment}
use instant_payment_ledger_a.Database.Session.{Action, pure, ◌>>=◌, ◌>>◌}
use instant_payment_ledger_a.Repositories.Ledger.{get_account, get_account_by_number}
use instant_payment_ledger_a.Repositories.Payments.{set_fx_details}
use instant_payment_ledger_a.Repositories.Fx.{get_latest_rate}
use instant_payment_ledger_a.Fx.{convert_amount}

abbrev pub fx_suspense_account_number : String
fx_suspense_account_number = "FX-SUSPENSE"

-- `BuildLinesResult`; the overrides are empty, or a rate's identifier and the creditor's amount.
pub record BuildLinesResult : Type 0 where
  pub entry_type : String
  pub lines : List JournalLine
  pub field_overrides : Option (ℕ × ℤ)

abbrev pub BuildLines : Type 0
BuildLines = Payment → Action BuildLinesResult

abbrev pub line : ℕ → Direction → ℤ → String → JournalLine
line account_id direction amount currency = record {
  account_id = account_id;
  direction = direction;
  amount = amount;
  currency = currency;
}

-- One currency, from the first account to the second.
abbrev pub transfer_lines : ℕ → ℕ → ℤ → String → List JournalLine
transfer_lines from to amount currency =
    line from Direction.debit amount currency ∷ line to Direction.credit amount currency ∷ []

-- Two currency-balanced pairs through the suspense account.
abbrev pub fx_lines : Payment → ℕ → String → String → ℤ → List JournalLine
fx_lines payment suspense debtor_currency creditor_currency creditor_amount =
    line payment.debtor_account_id Direction.debit payment.amount debtor_currency
    ∷ line suspense Direction.credit payment.amount debtor_currency
    ∷ line suspense Direction.debit creditor_amount creditor_currency
    ∷ line payment.creditor_account_id Direction.credit creditor_amount creditor_currency
    ∷ []

abbrev pub fx_reversal_lines : Payment → ℕ → String → String → ℤ → List JournalLine
fx_reversal_lines payment suspense debtor_currency creditor_currency creditor_amount =
    line suspense Direction.debit payment.amount debtor_currency
    ∷ line payment.debtor_account_id Direction.credit payment.amount debtor_currency
    ∷ line payment.creditor_account_id Direction.debit creditor_amount creditor_currency
    ∷ line suspense Direction.credit creditor_amount creditor_currency
    ∷ []

-- The rest of `_settlement_lines` where the currencies differ.
unfoldable pub fx_settlement : Payment → Account → Account → Action BuildLinesResult
fx_settlement payment debtor creditor = do
  rate ← get_latest_rate debtor.currency creditor.currency
  let creditor_amount = convert_amount payment.amount rate.rate
  suspense ← get_account_by_number fx_suspense_account_number
  set_fx_details payment.id rate.id creditor_amount
  pure (record {
    entry_type = "fx_conversion";
    lines = fx_lines payment suspense.id debtor.currency creditor.currency creditor_amount;
    field_overrides = some (rate.id, creditor_amount);
  })

abbrev pub plain_settlement : Payment → BuildLinesResult
plain_settlement payment = record {
  entry_type = "transfer";
  lines =
      transfer_lines payment.debtor_account_id payment.creditor_account_id payment.amount
        payment.currency;
  field_overrides = none;
}

unfoldable pub settlement_lines : BuildLines
unfolding fx_settlement
settlement_lines payment = do
  debtor ← get_account payment.debtor_account_id
  creditor ← get_account payment.creditor_account_id
  if str_eq debtor.currency creditor.currency
      then pure (plain_settlement payment)
      else fx_settlement payment debtor creditor

abbrev pub plain_reversal : Payment → BuildLinesResult
plain_reversal payment = record {
  entry_type = "reversal";
  lines =
      transfer_lines payment.creditor_account_id payment.debtor_account_id payment.amount
        payment.currency;
  field_overrides = none;
}

-- The rest of `_reversal_lines` where an amount was booked at settlement.
unfoldable pub fx_reversal : Payment → ℤ → Action BuildLinesResult
fx_reversal payment creditor_amount = do
  debtor ← get_account payment.debtor_account_id
  creditor ← get_account payment.creditor_account_id
  suspense ← get_account_by_number fx_suspense_account_number
  pure (record {
    entry_type = "fx_conversion_reversal";
    lines = fx_reversal_lines payment suspense.id debtor.currency creditor.currency creditor_amount;
    field_overrides = none;
  })

abbrev pub reversal_by_booking : Option ℤ → BuildLines
reversal_by_booking none payment = pure (plain_reversal payment)
reversal_by_booking (some amount) payment = fx_reversal payment amount

unfoldable pub reversal_lines : BuildLines
unfolding fx_reversal
reversal_lines payment = reversal_by_booking payment.creditor_amount payment
