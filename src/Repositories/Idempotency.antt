-- ===== src/Repositories/Idempotency.antt =====
-- app/infra/db/repositories/idempotency_repository.py.
use instant_payment_ledger_a.Prelude.{
  ℕ, ◌+◌, String, Bool, ◌&&◌, Option, none, some, List, [], ◌∷◌, str_eq, if◌then◌else◌,
}
use instant_payment_ledger_a.Entities.Payments.{
  PaymentResponse, IdempotencyOutcome, started, replay, in_progress_conflict, hash_mismatch,
}
use instant_payment_ledger_a.Entities.Errors.{Result, ok}
use instant_payment_ledger_a.Database.Tables.{
  Db, KeyStatus, in_progress, completed, IdempotencyKeyRow,
}
use instant_payment_ledger_a.Database.Columns.{fits_string, storing}
use instant_payment_ledger_a.Database.Session.{Action, statement, execute}
use instant_payment_ledger_a.Repositories.Ledger.{fresh}

abbrev pub is_key : String → String → IdempotencyKeyRow → Bool
is_key endpoint key row = str_eq row.endpoint endpoint && str_eq row.key key

unfoldable pub find_key : String → String → List IdempotencyKeyRow → Option IdempotencyKeyRow
find_key endpoint key [] = none
find_key endpoint key (row ∷ rows) =
    if is_key endpoint key row then some row else find_key endpoint key rows

abbrev pub outcome_by_status : KeyStatus → IdempotencyKeyRow → String → IdempotencyOutcome
outcome_by_status in_progress row request_hash = in_progress_conflict
outcome_by_status completed row request_hash =
    if str_eq row.request_hash request_hash
    then replay row.response_status_code row.response_body
    else hash_mismatch

-- What an existing row says to a new request.
abbrev pub outcome_of : IdempotencyKeyRow → String → IdempotencyOutcome
outcome_of row request_hash = outcome_by_status row.status row request_hash

-- `INSERT ... ON CONFLICT (endpoint, key) DO NOTHING`, and the read of the row in the way. The
-- database makes the insert wait for a concurrent one on the same key, so both are one step here.
unfoldable pub claim_key : String → String → String → Db → Result IdempotencyOutcome × Db
unfolding find_key
claim_key key endpoint request_hash db = elim (find_key endpoint key db.idempotency_keys) [
  | some row ↦ (ok (outcome_of row request_hash), db)
  | none ↦
      (ok started, record db { idempotency_keys = row ∷ db.idempotency_keys; draws = db.draws + 1 })
]
  where
    row : IdempotencyKeyRow
    row = record {
      id = fresh db;
      key = key;
      endpoint = endpoint;
      request_hash = request_hash;
      status = in_progress;
      response_status_code = none;
      response_body = none;
    }

unfoldable pub begin_attempt : String → String → String → Action IdempotencyOutcome
unfolding claim_key
begin_attempt key endpoint request_hash =
    storing (fits_string 255 key) (statement (claim_key key endpoint request_hash))

abbrev pub complete_row : ℕ → PaymentResponse → IdempotencyKeyRow → IdempotencyKeyRow
complete_row code body row = record row {
  status = completed;
  response_status_code = some code;
  response_body = some body;
}

unfoldable pub complete_rows :
    String → String → ℕ → PaymentResponse → List IdempotencyKeyRow → List IdempotencyKeyRow
complete_rows endpoint key code body [] = []
complete_rows endpoint key code body (row ∷ rows) =
    (if is_key endpoint key row then complete_row code body row else row)
    ∷ complete_rows endpoint key code body rows

unfoldable pub complete_attempt : String → String → ℕ → PaymentResponse → Action (Unit {0})
unfolding complete_rows
complete_attempt key endpoint response_status_code response_body = execute λ db. record db {
  idempotency_keys =
      complete_rows endpoint key response_status_code response_body db.idempotency_keys;
}
