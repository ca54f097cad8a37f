-- ===== src/Payments/Alone/Idempotent.antt =====
-- With nobody else at work: `initiate_payment_idempotent`, the first time and again.
use instant_payment_ledger_a.Prelude.{
  ℕ, ◌+◌, String, ◌≡◌, refl, ap, ◌∙◌, ℤ, pos, leb_ℤ, true, false, Option, none, some, List, [], ◌∷◌,
  arith, eq_iff, eq_refl, Bool-cases, inl, inr,
}
use instant_payment_ledger_a.Entities.Ledger.{Account}
use instant_payment_ledger_a.Entities.Payments.{
  PaymentStatus, Payment, PaymentResponse, payment_response_dict,
}
use instant_payment_ledger_a.Entities.Errors.{ok, err, integrity_error}
use instant_payment_ledger_a.Database.Tables.{Db, in_progress, IdempotencyKeyRow}
use instant_payment_ledger_a.Database.Columns.{fits_string}
use instant_payment_ledger_a.Database.Session.{statement, transaction, lift, alone, ◌>>=◌}
use instant_payment_ledger_a.Database.Run.{quiet}
use instant_payment_ledger_a.Repositories.Ledger.{find_account, fresh}
use instant_payment_ledger_a.Repositories.Payments.{
  create_payment, insert_payment, new_payment, payment_row_allowed, payment_row_fits,
  record_status_transition,
}
use instant_payment_ledger_a.Repositories.Idempotency.{
  find_key, is_key, claim_key, begin_attempt, complete_row, complete_rows, complete_attempt,
  outcome_of,
}
use instant_payment_ledger_a.Payments.Services.Initiate.{
  PaymentRequest, Digest, hash_request_body, validate_new_payment, initiate_endpoint,
  assert_debtor_currency_matches, create_payment_within, claim_phase, create_phase, answer,
  initiate_payment_idempotent,
}
use instant_payment_ledger_a.Repositories.Webhooks.{active_only, list_active_subscriptions}
use instant_payment_ledger_a.Webhooks.Outbox.{enqueue_payment_webhook_event}
use instant_payment_ledger_a.Payments.Alone.{enqueued, enqueue_all_alone}
use instant_payment_ledger_a.Payments.Alone.Status.{enqueued-IsSameBooks}
use instant_payment_ledger_a.Payments.Alone.Settle.{get_account_alone}

pub find_key-complete_rows :
    (endpoint key : String) (code : ℕ) (body : PaymentResponse) (rows : List IdempotencyKeyRow)
    {row : IdempotencyKeyRow}
    → find_key endpoint key rows ≡ some row
    → find_key endpoint key (complete_rows endpoint key code body rows)
      ≡ some (complete_row code body row)
unfolding find_key complete_rows
find_key-complete_rows e k code body [] h = cc
find_key-complete_rows e k code body (q ∷ rows) {row} h = elim (Bool-cases (is_key e k q)) [
  | inl hit ↦ let same : q ≡ row = ground arith in rw (← same) (rw (hit, hit) refl)
  | inr miss ↦ simp miss (find_key-complete_rows e k code body rows {row = row} (ground arith))
]

-- The insert of a payment, with and without its creditor.
module _ (d c : ℕ) (amount : ℤ) (currency : String) (e : Option String) (v saved : Db)
    {debtor : Account} (has_debtor : find_account d v.accounts ≡ some debtor) where
  not_allowed : find_account c v.accounts ≡ none → payment_row_allowed d c amount v ≡ false
  not_allowed missing = ground arith

  allowed :
      {creditor : Account}
      → find_account c v.accounts ≡ some creditor
      → leb_ℤ amount (pos 0) ≡ false
      → payment_row_allowed d c amount v ≡ true
  allowed has_creditor positive = ground arith

  create_payment_missing :
      find_account c v.accounts ≡ none
      → payment_row_fits amount currency e ≡ true
      → create_payment d c amount currency e (quiet v saved) ≡ (err integrity_error, quiet v saved)
  unfolding create_payment insert_payment statement
  create_payment_missing missing fits = rw (fits, not_allowed missing) refl

  create_payment_alone :
      {creditor : Account}
      → find_account c v.accounts ≡ some creditor
      → leb_ℤ amount (pos 0) ≡ false
      → payment_row_fits amount currency e ≡ true
      → create_payment d c amount currency e (quiet v saved) ≡ (
        ok (new_payment (fresh v) d c amount currency e),
        quiet
            (record v {
              payments = new_payment (fresh v) d c amount currency e ∷ v.payments;
              draws = v.draws + 1;
            })
            saved,
      )
  unfolding create_payment insert_payment statement
  create_payment_alone has_creditor positive fits = rw (fits, allowed has_creditor positive) refl

-- A new payment, as the request asks for it.
abbrev pub IsRequested : PaymentRequest → Payment → Type 0
IsRequested r p =
    (p.debtor_account_id ≡ r.debtor_account_id)
    × (p.creditor_account_id ≡ r.creditor_account_id)
    × (p.amount ≡ r.amount)
    × (p.currency ≡ r.currency)
    × (p.end_to_end_id ≡ r.end_to_end_id)
    × (p.status ≡ PaymentStatus.initiated)
    × (p.version ≡ 0)
    × (p.fx_rate_id ≡ none)
    × (p.creditor_amount ≡ none)

module _ (digest : Digest) (key : String) (r : PaymentRequest) (db : Db) {debtor : Account}
    (valid : validate_new_payment r ≡ ok tt)
    (has_debtor : find_account r.debtor_account_id db.accounts ≡ some debtor)
    (same : debtor.currency ≡ r.currency) (key_fits : fits_string 255 key ≡ true)
    (fits : payment_row_fits r.amount r.currency r.end_to_end_id ≡ true) where
  currency_matches :
      (v c : Db)
      → find_account r.debtor_account_id v.accounts ≡ some debtor
      → assert_debtor_currency_matches r.debtor_account_id r.currency (quiet v c)
        ≡ (ok tt, quiet v c)
  unfolding assert_debtor_currency_matches lift ◌>>=◌
  currency_matches v c has =
      rw (get_account_alone r.debtor_account_id v c has, (eq_iff debtor.currency r.currency).1 same)
        refl

  -- A key that has a row is answered from the row, and nothing is written.
  pub answered :
      {row : IdempotencyKeyRow}
      → find_key initiate_endpoint key db.idempotency_keys ≡ some row
      → initiate_payment_idempotent digest key r (alone db)
        ≡ answer (outcome_of row (hash_request_body digest r)) key r (alone db)
  unfolding initiate_payment_idempotent claim_phase begin_attempt claim_key transaction
  answered known = rw (valid, currency_matches db db has_debtor, key_fits, known) refl

  amount_positive : leb_ℤ r.amount (pos 0) ≡ false
  unfolding validate_new_payment
  amount_positive = ground arith

  -- The database with the key claimed.
  abbrev pub claimed_row : IdempotencyKeyRow
  claimed_row = record {
    id = fresh db;
    key = key;
    endpoint = initiate_endpoint;
    request_hash = hash_request_body digest r;
    status = in_progress;
    response_status_code = none;
    response_body = none;
  }

  abbrev pub claimed : Db
  claimed = record db { idempotency_keys = claimed_row ∷ db.idempotency_keys; draws = db.draws + 1 }

  pub claimed_key : find_key initiate_endpoint key claimed.idempotency_keys ≡ some claimed_row
  unfolding find_key
  claimed_key = rw (eq_refl key) refl

  module _ (unused : find_key initiate_endpoint key db.idempotency_keys ≡ none) where
    pub claims :
        initiate_payment_idempotent digest key r (alone db) ≡ create_phase key r (alone claimed)
    unfolding initiate_payment_idempotent claim_phase answer begin_attempt claim_key transaction
    claims = rw (valid, currency_matches db db has_debtor, key_fits, unused) refl

    pub create_fails :
        find_account r.creditor_account_id db.accounts ≡ none
        → create_phase key r (alone claimed) ≡ (err integrity_error, alone claimed)
    unfolding create_phase create_payment_within transaction
    create_fails missing =
        rw
          (
            currency_matches claimed claimed has_debtor,
            create_payment_missing r.debtor_account_id r.creditor_account_id r.amount r.currency
                r.end_to_end_id claimed claimed has_debtor missing fits,
          )
          refl

    abbrev created : Payment
    created =
        new_payment (claimed.uuid4 claimed.draws) r.debtor_account_id r.creditor_account_id r.amount
          r.currency r.end_to_end_id

    -- The second transaction's writes up to the response.
    abbrev written : Db
    written = record claimed {
      payments = created ∷ claimed.payments;
      draws = claimed.draws + 1;
      payment_status_history =
          record {
            payment_id = created.id;
            from_status = none;
            to_status = PaymentStatus.initiated;
            transitioned_at = claimed.now;
            reason = none;
          }
          ∷ claimed.payment_status_history;
    }

    abbrev enqueued_db : Db
    enqueued_db =
        enqueued created.id "payment.initiated" (payment_response_dict created)
          (active_only written.webhook_subscriptions) written

    abbrev answered_db : Db
    answered_db = record enqueued_db {
      idempotency_keys =
          complete_rows initiate_endpoint key 201 (payment_response_dict created)
            enqueued_db.idempotency_keys;
    }

    create_succeeds :
        {creditor : Account}
        → find_account r.creditor_account_id db.accounts ≡ some creditor
        → create_phase key r (alone claimed)
          ≡ (ok (201, payment_response_dict created), alone answered_db)
    unfolding create_phase create_payment_within record_status_transition
        enqueue_payment_webhook_event list_active_subscriptions complete_attempt transaction
    create_succeeds has_creditor =
        rw
          (
            currency_matches claimed claimed has_debtor,
            create_payment_alone r.debtor_account_id r.creditor_account_id r.amount r.currency
                r.end_to_end_id claimed claimed has_debtor has_creditor amount_positive fits,
            enqueue_all_alone created.id "payment.initiated" (payment_response_dict created)
                (active_only written.webhook_subscriptions) written claimed,
          )
          refl

    -- The first call, and the row that it leaves under the key.
    pub first_call :
        {creditor : Account}
        → find_account r.creditor_account_id db.accounts ≡ some creditor
        → (payment : Payment) × (db' : Db) × (initiate_payment_idempotent digest key r (alone db)
            ≡ (ok (201, payment_response_dict payment), alone db'))
          × (db'.payments ≡ payment ∷ db.payments)
          × (db'.accounts ≡ db.accounts)
          × (find_key initiate_endpoint key db'.idempotency_keys
              ≡ some (complete_row 201 (payment_response_dict payment) claimed_row))
          × IsRequested r payment
    first_call has_creditor =
        let kept =
          enqueued-IsSameBooks created.id "payment.initiated" (payment_response_dict created)
            (active_only written.webhook_subscriptions) written in
        (
          created,
          answered_db,
          claims ∙ create_succeeds has_creditor,
          kept.0,
          kept.2,
          find_key-complete_rows initiate_endpoint key 201 (payment_response_dict created)
              enqueued_db.idempotency_keys
              (ap (find_key initiate_endpoint key) kept.4 ∙ claimed_key),
          (refl, refl, refl, refl, refl, refl, refl, refl, refl),
        )
