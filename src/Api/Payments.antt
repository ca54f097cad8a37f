-- ===== src/Api/Payments.antt =====
-- app/api/v1/payments.py and app/api/schemas/payments.py. `str.upper` is a parameter.
use Prim.Native.String.{count}
use instant_payment_ledger_a.Prelude.{
  ℕ, String, pos, leb_ℤ, Bool, true, not, ◌&&◌, leb, Option, none, some, if◌then◌else◌,
}
use instant_payment_ledger_a.Entities.Payments.{Payment, PaymentResponse, payment_response_dict}
use instant_payment_ledger_a.Entities.Errors.{
  Error, invalid_payment_amount, same_payment_account, payment_currency_mismatch,
  idempotency_key_reused, idempotency_in_progress, account_not_found, account_number_not_found,
  integrity_error, payment_not_found, invalid_payment_transition, fx_rate_not_found,
  concurrent_payment_modification,
}
use instant_payment_ledger_a.Database.Session.{Action, pure, transaction, ◌>>=◌}
use instant_payment_ledger_a.Concurrency.{default_max_attempts}
use instant_payment_ledger_a.Repositories.Payments.{get_payment as find_payment_row}
use instant_payment_ledger_a.Payments.Services.Initiate.{
  PaymentRequest, Digest, initiate_payment_idempotent,
}
use instant_payment_ledger_a.Payments.Services.Transition.{
  authorise_payment, settle_payment, reverse_payment, fail_payment,
}
use instant_payment_ledger_a.Api.{invalid_body, Endpoint, endpoint, length_between}

abbrev at_most : ℕ → Option String → Bool
at_most n none = true
at_most n (some text) = leb (count text) n

-- The constraints of `InitiatePaymentRequest`.
unfoldable pub is_valid_request : PaymentRequest → Bool
is_valid_request body =
    not (leb_ℤ body.amount (pos 0))
    && length_between 3 3 body.currency
    && at_most 35 body.end_to_end_id

-- The `except` clauses of `create_payment`.
unfoldable pub create_payment_status : Error → Option ℕ
create_payment_status (invalid_payment_amount amount) = some 422
create_payment_status (same_payment_account i) = some 422
create_payment_status (payment_currency_mismatch c d) = some 422
create_payment_status (idempotency_key_reused key e) = some 422
create_payment_status (idempotency_in_progress key e) = some 409
create_payment_status (account_not_found i) = some 404
create_payment_status (account_number_not_found n) = some 404
create_payment_status integrity_error = some 404
create_payment_status _ = none

-- The digest is that of the body as it came; the service gets the currency in upper case.
abbrev pub digest_of : Digest → PaymentRequest → Digest
digest_of digest body = record digest { json_dumps = λ r. digest.json_dumps body }

-- The service's status code is dropped: the answer is 201, also for a replay.
unfoldable pub create_payment :
    (String → String) → Digest → String → PaymentRequest → Endpoint PaymentResponse
unfolding is_valid_request endpoint create_payment_status
create_payment upper digest idempotency_key body s =
    if is_valid_request body
    then endpoint 201 create_payment_status
        (do
          (code, response_body) ←
              initiate_payment_idempotent (digest_of digest body) idempotency_key
                (record body { currency = upper body.currency })
          pure response_body)
        s
    else (invalid_body, s)

unfoldable pub get_payment_status : Error → Option ℕ
get_payment_status (payment_not_found i) = some 404
get_payment_status _ = none

-- `DbSession`: one session for the request, closed when it has been answered.
unfoldable pub get_payment : ℕ → Endpoint PaymentResponse
unfolding endpoint get_payment_status
get_payment payment_id =
    endpoint 200 get_payment_status
      (transaction (do payment ← find_payment_row payment_id; pure (payment_response_dict payment)))

-- The `except` clauses of `_run_transition`.
unfoldable pub run_transition_status : Error → Option ℕ
run_transition_status (payment_not_found i) = some 404
run_transition_status (invalid_payment_transition from to) = some 409
run_transition_status (fx_rate_not_found base quote) = some 409
run_transition_status (concurrent_payment_modification i n) = some 409
run_transition_status _ = none

unfoldable pub run_transition : Action Payment → Endpoint PaymentResponse
unfolding endpoint run_transition_status
run_transition coro =
    endpoint 200 run_transition_status (do payment ← coro; pure (payment_response_dict payment))

unfoldable pub authorise : ℕ → Endpoint PaymentResponse
unfolding run_transition
authorise payment_id = run_transition (authorise_payment payment_id default_max_attempts)

unfoldable pub settle : ℕ → Endpoint PaymentResponse
unfolding run_transition
settle payment_id = run_transition (settle_payment payment_id default_max_attempts)

unfoldable pub reverse : ℕ → Endpoint PaymentResponse
unfolding run_transition
reverse payment_id = run_transition (reverse_payment payment_id default_max_attempts)

unfoldable pub fail : ℕ → Option String → Endpoint PaymentResponse
unfolding run_transition
fail payment_id reason = run_transition (fail_payment payment_id reason default_max_attempts)
