-- ===== src/Entities/Errors.antt =====
-- The exceptions that the domain raises, each with its arguments, and a call's result.
use instant_payment_ledger_a.Prelude.{ℕ, String, ℤ, List, Text}
use instant_payment_ledger_a.Entities.Ledger.{JournalLine}
use instant_payment_ledger_a.Entities.Payments.{PaymentStatus}

pub data Error : Type 0 where
  -- app/domain/ledger/invariants.py
  empty_journal_entry : Error
  invalid_line_amount : JournalLine → Error
  unbalanced_entry : List (String × ℤ) → Error
  -- app/domain/ledger/repository.py: by identifier, and by account number
  account_not_found : ℕ → Error
  account_number_not_found : String → Error
  -- app/domain/ledger/services.py
  concurrent_modification : List ℕ → ℕ → Error
  -- app/domain/payments
  invalid_payment_amount : ℤ → Error
  same_payment_account : ℕ → Error
  payment_currency_mismatch : String → String → Error
  concurrent_payment_modification : ℕ → ℕ → Error
  invalid_payment_transition : PaymentStatus → PaymentStatus → Error
  payment_not_found : ℕ → Error
  -- app/domain/fx/repository.py
  fx_rate_not_found : String → String → Error
  -- app/domain/idempotency/errors.py
  idempotency_in_progress : String → String → Error
  idempotency_key_reused : String → String → Error
  -- app/domain/reconciliation/repository.py
  reconciliation_run_not_found : ℕ → Error
  -- sqlalchemy.exc.IntegrityError, an `assert` that fails, and `scalar_one` with no row
  integrity_error : Error
  assertion_error : Error
  no_result_found : Error
  -- sqlalchemy.exc.DBAPIError, of a value that a column does not take
  data_error : Error
  -- app/infra/qr/sgqr.py
  tlv_too_long : Text → Text → Error
  unsupported_qr_currency : String → Error
  amount_not_positive : ℤ → Error
  -- app/infra/iso20022: Pain001ParseError, by its cause, and Pacs008EmissionError
  doctype_not_permitted : Error
  malformed_xml : Error
  missing_fields : List String → Error
  missing_currency : Error
  invalid_amount : String → Error
  payment_not_settled : PaymentStatus → Error
  -- app/infra/reconciliation/csv_loader.py: SettlementCsvError, by its cause
  missing_columns : Error
  invalid_row : ℕ → Error
  no_data_rows : Error
  -- Python's: AttributeError of a method of `None`, UnicodeEncodeError of `encode("ascii")`, and ValueError of `int`
  attribute_error : Error
  unicode_encode_error : Error
  value_error : Error

pub data Result {ℓ} (A : Type ℓ) : Type ℓ where
  ok : A → Result A
  err : Error → Result A
