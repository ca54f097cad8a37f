-- ===== src/Entities/Payments.antt =====
-- app/domain/payments/entities.py, app/domain/idempotency/entities.py and the response dictionary of
-- app/domain/payments/services.py.
use instant_payment_ledger_a.Prelude.{ℕ, String, ℤ, Bool, true, false, Option}

pub data PaymentStatus : Type 0 where
  initiated authorised settled reversed failed : PaymentStatus

-- The members' values.
unfoldable pub value : PaymentStatus → String
value PaymentStatus.initiated = "initiated"
value PaymentStatus.authorised = "authorised"
value PaymentStatus.settled = "settled"
value PaymentStatus.reversed = "reversed"
value PaymentStatus.failed = "failed"

-- Equality of members.
abbrev pub same_status : PaymentStatus → PaymentStatus → Bool
same_status PaymentStatus.initiated PaymentStatus.initiated = true
same_status PaymentStatus.authorised PaymentStatus.authorised = true
same_status PaymentStatus.settled PaymentStatus.settled = true
same_status PaymentStatus.reversed PaymentStatus.reversed = true
same_status PaymentStatus.failed PaymentStatus.failed = true
same_status _ _ = false

pub record Payment : Type 0 where
  pub id : ℕ
  pub debtor_account_id : ℕ
  pub creditor_account_id : ℕ
  pub amount : ℤ
  pub currency : String
  pub status : PaymentStatus
  pub version : ℕ
  pub end_to_end_id : Option String
  pub fx_rate_id : Option ℕ
  pub creditor_amount : Option ℤ

-- The dictionary of `_payment_response_dict`, with its ten keys.
pub record PaymentResponse : Type 0 where
  pub id : ℕ
  pub debtor_account_id : ℕ
  pub creditor_account_id : ℕ
  pub amount : ℤ
  pub currency : String
  pub status : PaymentStatus
  pub version : ℕ
  pub end_to_end_id : Option String
  pub fx_rate_id : Option ℕ
  pub creditor_amount : Option ℤ

abbrev pub payment_response_dict : Payment → PaymentResponse
payment_response_dict payment = record {
  id = payment.id;
  debtor_account_id = payment.debtor_account_id;
  creditor_account_id = payment.creditor_account_id;
  amount = payment.amount;
  currency = payment.currency;
  status = payment.status;
  version = payment.version;
  end_to_end_id = payment.end_to_end_id;
  fx_rate_id = payment.fx_rate_id;
  creditor_amount = payment.creditor_amount;
}

-- `IdempotencyOutcome`: its kind, with the two response fields where the kind carries them.
pub data IdempotencyOutcome : Type 0 where
  started : IdempotencyOutcome
  replay : Option ℕ → Option PaymentResponse → IdempotencyOutcome
  in_progress_conflict : IdempotencyOutcome
  hash_mismatch : IdempotencyOutcome
