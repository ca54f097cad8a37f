-- ===== src/Payments/Raises/Create.antt =====
-- app/domain/payments/services.py: which errors the creation of a payment may raise.
use instant_payment_ledger_a.Prelude.{
  ◌≡◌, ℕ, String, ℤ, Bool, true, false, if◌then◌else◌, Option, none, some,
}
use instant_payment_ledger_a.Entities.Payments.{
  PaymentResponse, IdempotencyOutcome, started, replay, in_progress_conflict, hash_mismatch,
}
use instant_payment_ledger_a.Entities.Errors.{
  Error, Result, ok, err, account_not_found, payment_currency_mismatch, invalid_payment_amount,
  same_payment_account, integrity_error, idempotency_in_progress, idempotency_key_reused,
  assertion_error, data_error,
}
use instant_payment_ledger_a.Database.Columns.{fits_text, optional}
use instant_payment_ledger_a.Database.Tables.{Db, IdempotencyKeyRow}
use instant_payment_ledger_a.Database.Raises.{
  Within, Within-ok, Within-err, Raises, Raises-pure, Raises-lift, Raises-raise, Raises-statement,
  Raises-if, Raises-bind, Raises-then, raises_rules,
}
use instant_payment_ledger_a.Repositories.Payments.{
  create_payment, insert_payment, payment_row_allowed,
}
use instant_payment_ledger_a.Repositories.Idempotency.{
  begin_attempt, claim_key, find_key, outcome_of,
}
use instant_payment_ledger_a.Payments.Services.Initiate.{
  PaymentRequest, Digest, validate_new_payment, assert_debtor_currency_matches,
  create_payment_within, initiate_payment, claim_phase, create_phase, stored_response, answer,
  initiate_payment_idempotent,
}
use instant_payment_ledger_a.Payments.Raises.{
  get_account-Raises, record_status_transition-Raises, enqueue_payment_webhook_event-Raises,
  complete_attempt-Raises,
}

module _ {E : Error → Type 0} (bad_amount : (x : ℤ) → E (invalid_payment_amount x))
    (same : (i : ℕ) → E (same_payment_account i))
    (mismatch : (c d : String) → E (payment_currency_mismatch c d))
    (no_account : (i : ℕ) → E (account_not_found i)) (no_row : E integrity_error)
    (unfit : E data_error) where
  -- The two ways of an insertion that a constraint may refuse.
  inserted :
      {A : Type 0} (a : A) (y z : Db) (b : Bool)
      → let row : Result A × Db = if b then (ok a, y) else (err integrity_error, z) in
        Within E row.0
  inserted a y z true = Within-ok _
  inserted a y z false = Within-err _ no_row

  validate-Within : (r : PaymentRequest) → Within E (validate_new_payment r)
  unfolding validate_new_payment
  validate-Within r = search (raises_rules, bad_amount, same)

  currency-Raises : (i : ℕ) (c : String) → Raises E (assert_debtor_currency_matches i c)
  unfolding assert_debtor_currency_matches
  currency-Raises i c =
      Raises-bind _ _ (get_account-Raises i (no_account i)) λ a. search (raises_rules, mismatch)

  create_payment-Raises :
      (d c : ℕ) (x : ℤ) (currency : String) (e : Option String)
      → Raises E (create_payment d c x currency e)
  unfolding create_payment insert_payment
  create_payment-Raises d c x currency e =
      Raises-if _ _ _ (Raises-statement _ λ db. inserted _ _ _ (payment_row_allowed d c x db))
        (Raises-raise _ unfit)

  within-Raises : (r : PaymentRequest) → Raises E (create_payment_within r)
  unfolding create_payment_within
  within-Raises r =
      let never : optional fits_text none ≡ false → E data_error = λ h. unfit in
      search
        (
          raises_rules, currency-Raises, create_payment-Raises, record_status_transition-Raises,
          never, enqueue_payment_webhook_event-Raises,
        )
        depth 9

  pub initiate_payment-Raises : (r : PaymentRequest) → Raises E (initiate_payment r)
  unfolding initiate_payment
  initiate_payment-Raises r =
      Raises-then _ _ (Raises-lift _ (validate-Within r))
        (search (raises_rules, within-Raises) depth 9)

  module _ (digest : Digest) (running : (k e : String) → E (idempotency_in_progress k e))
      (reused : (k e : String) → E (idempotency_key_reused k e)) (broken : E assertion_error) where
    claimed :
        (o : IdempotencyOutcome) (f : IdempotencyKeyRow → IdempotencyOutcome) (y z : Db)
        (row : Option IdempotencyKeyRow)
        → let claim : Result IdempotencyOutcome × Db = elim row [
          | some r ↦ (ok (f r), y)
          | none ↦ (ok o, z)
        ] in
          Within E claim.0
    claimed o f y z (some r) = Within-ok _
    claimed o f y z none = Within-ok _

    begin_attempt-Raises : (k e h : String) → Raises E (begin_attempt k e h)
    unfolding begin_attempt claim_key
    begin_attempt-Raises k e h =
        Raises-if _ _ _
          (Raises-statement _
            λ db. claimed _ (λ r. outcome_of r h) _ _ (find_key e k db.idempotency_keys))
          (Raises-raise _ unfit)

    claim_phase-Raises : (key : String) (r : PaymentRequest) → Raises E (claim_phase digest key r)
    unfolding claim_phase
    claim_phase-Raises key r = search (raises_rules, currency-Raises, begin_attempt-Raises) depth 9

    create_phase-Raises : (key : String) (r : PaymentRequest) → Raises E (create_phase key r)
    unfolding create_phase
    create_phase-Raises key r =
        search (raises_rules, within-Raises, complete_attempt-Raises) depth 9

    stored-Raises :
        (code : Option ℕ) (body : Option PaymentResponse) → Raises E (stored_response code body)
    stored-Raises (some code) (some body) = Raises-pure _
    stored-Raises (some code) none = Raises-raise _ broken
    stored-Raises none body = Raises-raise _ broken

    answer-Raises :
        (o : IdempotencyOutcome) (key : String) (r : PaymentRequest) → Raises E (answer o key r)
    unfolding answer
    answer-Raises (replay code body) key r = stored-Raises code body
    answer-Raises in_progress_conflict key r = Raises-raise _ (running key _)
    answer-Raises hash_mismatch key r = Raises-raise _ (reused key _)
    answer-Raises started key r = create_phase-Raises key r

    pub initiate_payment_idempotent-Raises :
        (key : String) (r : PaymentRequest) → Raises E (initiate_payment_idempotent digest key r)
    unfolding initiate_payment_idempotent
    initiate_payment_idempotent-Raises key r =
        Raises-then _ _ (Raises-lift _ (validate-Within r))
          (Raises-bind _ _ (claim_phase-Raises key r) λ o. answer-Raises o key r)
