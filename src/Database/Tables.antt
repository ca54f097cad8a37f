-- ===== src/Database/Tables.antt =====
-- app/infra/db/models.py: the rows and tables. A table is a list, newest row first; only the list of
-- dead letters, which the query orders by `created_at`, relies on that order. Accounts, payments,
-- subscriptions, deliveries and rates are kept as the domain values that the repositories make of
-- them, column by column. `created_at`, `updated_at`, `posted_at` and `completed_at` are left out.
use instant_payment_ledger_a.Prelude.{ℕ, String, ℤ, Option, List}
use instant_payment_ledger_a.Entities.Ledger.{Direction, Account, FxRate}
use instant_payment_ledger_a.Entities.Payments.{PaymentStatus, Payment, PaymentResponse}
use instant_payment_ledger_a.Entities.Webhooks.{WebhookSubscription, WebhookDelivery}
use instant_payment_ledger_a.Entities.Reconciliation.{SettlementRecord, ReconciliationBreak}

pub record JournalEntryRow : Type 0 where
  pub id : ℕ
  pub payment_id : Option ℕ
  pub entry_type : String
  pub idempotency_key_id : Option ℕ

pub record JournalLineRow : Type 0 where
  pub journal_entry_id : ℕ
  pub account_id : ℕ
  pub direction : Direction
  pub amount : ℤ
  pub currency : String

pub record PaymentStatusHistoryRow : Type 0 where
  pub payment_id : ℕ
  pub from_status : Option PaymentStatus
  pub to_status : PaymentStatus
  pub transitioned_at : ℕ
  pub reason : Option String

pub data KeyStatus : Type 0 where
  in_progress completed : KeyStatus

pub record IdempotencyKeyRow : Type 0 where
  pub id : ℕ
  pub key : String
  pub endpoint : String
  pub request_hash : String
  pub status : KeyStatus
  pub response_status_code : Option ℕ
  pub response_body : Option PaymentResponse

pub record SettlementFileRow : Type 0 where
  pub batch_id : ℕ
  pub settlement : SettlementRecord

pub record ReconciliationRunRow : Type 0 where
  pub id : ℕ
  pub batch_id : ℕ
  pub matched_count : ℕ
  pub break_count : ℕ
  pub status : String

pub record ReconciliationBreakRow : Type 0 where
  pub run_id : ℕ
  pub break_row : ReconciliationBreak

-- The database. `uuid4` is what `uuid.uuid4()` returns, draw by draw, and `draws` counts the draws
-- made; `now` is what the server's `now()` returns.
pub record Db : Type 0 where
  pub accounts : List Account
  pub journal_entries : List JournalEntryRow
  pub journal_lines : List JournalLineRow
  pub payments : List Payment
  pub payment_status_history : List PaymentStatusHistoryRow
  pub idempotency_keys : List IdempotencyKeyRow
  pub webhook_subscriptions : List WebhookSubscription
  pub webhook_deliveries : List WebhookDelivery
  pub settlement_file_records : List SettlementFileRow
  pub reconciliation_runs : List ReconciliationRunRow
  pub reconciliation_breaks : List ReconciliationBreakRow
  pub fx_rates : List FxRate
  pub uuid4 : ℕ → ℕ
  pub draws : ℕ
  pub now : ℕ
