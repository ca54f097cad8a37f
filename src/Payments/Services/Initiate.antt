-- ===== src/Payments/Services/Initiate.antt =====
-- app/domain/payments/services.py, lines 61 to 230: the creation of a payment, plain and idempotent.
-- `json.dumps` and SHA-256 are parameters.
use instant_payment_ledger_a.Prelude.{
  ℕ, String, ℤ, pos, leb_ℤ, Option, none, some, ◌==◌, str_eq, if◌then◌else◌,
}
use instant_payment_ledger_a.Entities.Payments.{
  PaymentStatus, Payment, PaymentResponse, payment_response_dict, IdempotencyOutcome, started,
  replay, in_progress_conflict, hash_mismatch,
}
use instant_payment_ledger_a.Entities.Errors.{
  Result, ok, err, invalid_payment_amount, same_payment_account, payment_currency_mismatch,
  idempotency_in_progress, idempotency_key_reused, assertion_error,
}
use instant_payment_ledger_a.Database.Session.{
  Action, pure, raise, lift, commit, transaction, ◌>>=◌, ◌>>◌,
}
use instant_payment_ledger_a.Repositories.Ledger.{get_account}
use instant_payment_ledger_a.Repositories.Payments.{create_payment, record_status_transition}
use instant_payment_ledger_a.Repositories.Idempotency.{begin_attempt, complete_attempt}
use instant_payment_ledger_a.Webhooks.Outbox.{enqueue_payment_webhook_event}

abbrev pub initiate_endpoint : String
initiate_endpoint = "POST /payments"

-- `InitiatePaymentRequest`, and the keyword arguments that the services take from it.
pub record PaymentRequest : Type 0 where
  pub debtor_account_id : ℕ
  pub creditor_account_id : ℕ
  pub amount : ℤ
  pub currency : String
  pub end_to_end_id : Option String

pub record Digest : Type 0 where
  pub json_dumps : PaymentRequest → String
  pub sha256 : String → String

abbrev pub hash_request_body : Digest → PaymentRequest → String
hash_request_body digest body = digest.sha256 (digest.json_dumps body)

unfoldable pub validate_new_payment : PaymentRequest → Result (Unit {0})
validate_new_payment r =
    if leb_ℤ r.amount (pos 0)
    then err (invalid_payment_amount r.amount)
    else if r.debtor_account_id == r.creditor_account_id
    then err (same_payment_account r.debtor_account_id)
    else ok tt

abbrev pub check_currency : String → String → Result (Unit {0})
check_currency account_currency currency =
    if str_eq account_currency currency
    then ok tt
    else err (payment_currency_mismatch account_currency currency)

unfoldable pub assert_debtor_currency_matches : ℕ → String → Action (Unit {0})
assert_debtor_currency_matches debtor_account_id currency = do
  debtor_account ← get_account debtor_account_id
  lift (check_currency debtor_account.currency currency)

unfoldable pub create_payment_within : PaymentRequest → Action Payment
unfolding assert_debtor_currency_matches
create_payment_within r = do
  assert_debtor_currency_matches r.debtor_account_id r.currency
  payment ←
      create_payment r.debtor_account_id r.creditor_account_id r.amount r.currency r.end_to_end_id
  record_status_transition payment.id none PaymentStatus.initiated none
  enqueue_payment_webhook_event payment.id "payment.initiated" (payment_response_dict payment)
  pure payment

unfoldable pub initiate_payment : PaymentRequest → Action Payment
unfolding validate_new_payment create_payment_within
initiate_payment r = do
  lift (validate_new_payment r)
  transaction (do payment ← create_payment_within r; commit; pure payment)

-- The first transaction: claim the key.
unfoldable pub claim_phase : Digest → String → PaymentRequest → Action IdempotencyOutcome
unfolding assert_debtor_currency_matches
claim_phase digest idempotency_key r = transaction do
  assert_debtor_currency_matches r.debtor_account_id r.currency
  outcome ← begin_attempt idempotency_key initiate_endpoint (hash_request_body digest r)
  commit
  pure outcome

-- The second: create the payment and store the response.
unfoldable pub create_phase : String → PaymentRequest → Action (ℕ × PaymentResponse)
unfolding create_payment_within
create_phase idempotency_key r = transaction do
  payment ← create_payment_within r
  complete_attempt idempotency_key initiate_endpoint 201 (payment_response_dict payment)
  commit
  pure (201, payment_response_dict payment)

abbrev pub stored_response : Option ℕ → Option PaymentResponse → Action (ℕ × PaymentResponse)
stored_response (some code) (some body) = pure (code, body)
stored_response _ _ = raise assertion_error

-- What follows the first transaction.
unfoldable pub answer : IdempotencyOutcome → String → PaymentRequest → Action (ℕ × PaymentResponse)
unfolding create_phase
answer (replay code body) idempotency_key r = stored_response code body
answer in_progress_conflict idempotency_key r =
    raise (idempotency_in_progress idempotency_key initiate_endpoint)
answer hash_mismatch idempotency_key r =
    raise (idempotency_key_reused idempotency_key initiate_endpoint)
answer started idempotency_key r = create_phase idempotency_key r

unfoldable pub initiate_payment_idempotent :
    Digest → String → PaymentRequest → Action (ℕ × PaymentResponse)
unfolding validate_new_payment claim_phase answer
initiate_payment_idempotent digest idempotency_key r = do
  lift (validate_new_payment r)
  outcome ← claim_phase digest idempotency_key r
  answer outcome idempotency_key r
