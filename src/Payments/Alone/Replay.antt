-- ===== src/Payments/Alone/Replay.antt =====
-- With nobody else at work: requests that come again under the same idempotency key.
use instant_payment_ledger_a.Prelude.{
  true, String, ◌≡◌, ◌≢◌, refl, ap, ◌∙◌, none, some, ◌∷◌, eq_refl,
}
use instant_payment_ledger_a.Entities.Ledger.{Account}
use instant_payment_ledger_a.Entities.Payments.{
  PaymentStatus, Payment, PaymentResponse, payment_response_dict,
}
use instant_payment_ledger_a.Entities.Errors.{
  ok, err, idempotency_in_progress, idempotency_key_reused, integrity_error,
}
use instant_payment_ledger_a.Database.Tables.{Db}
use instant_payment_ledger_a.Database.Columns.{fits_string}
use instant_payment_ledger_a.Database.Session.{alone, raise, pure}
use instant_payment_ledger_a.Repositories.Ledger.{find_account}
use instant_payment_ledger_a.Repositories.Payments.{payment_row_fits}
use instant_payment_ledger_a.Repositories.Idempotency.{find_key}
use instant_payment_ledger_a.Payments.Services.Initiate.{
  PaymentRequest, Digest, hash_request_body, validate_new_payment, initiate_endpoint, answer,
  initiate_payment_idempotent,
}
use instant_payment_ledger_a.Payments.Alone.Settle.{str_eq_ne}
use instant_payment_ledger_a.Payments.Alone.Idempotent.{
  IsRequested, answered, claims, claimed, claimed_key, create_fails, first_call,
}

-- An acceptable request: its amount is positive and its two accounts differ, and the debtor's account
-- exists and has its currency; the columns take its amount and its texts.
abbrev pub IsAcceptable : PaymentRequest → Db → Type 0
IsAcceptable r db =
    (debtor : Account) × (validate_new_payment r ≡ ok tt)
    × (find_account r.debtor_account_id db.accounts ≡ some debtor)
    × (debtor.currency ≡ r.currency)
    × (payment_row_fits r.amount r.currency r.end_to_end_id ≡ true)

-- The response for a payment that is as the request asks for it.
abbrev pub Shows : PaymentRequest → Payment → PaymentResponse → Type 0
Shows r p body =
    (body.id ≡ p.id)
    × (body.debtor_account_id ≡ r.debtor_account_id)
    × (body.creditor_account_id ≡ r.creditor_account_id)
    × (body.amount ≡ r.amount)
    × (body.currency ≡ r.currency)
    × (body.end_to_end_id ≡ r.end_to_end_id)
    × (body.status ≡ PaymentStatus.initiated)
    × (body.version ≡ 0)
    × (body.fx_rate_id ≡ none)
    × (body.creditor_amount ≡ none)

module _ (digest : Digest) (key : String) (r : PaymentRequest) (db : Db)
    (acceptable : IsAcceptable r db)
    (unused : find_key initiate_endpoint key db.idempotency_keys ≡ none)
    (key_fits : fits_string 255 key ≡ true) where
  -- With nobody else at work, an acceptable request under a new key that fits its column, where both accounts exist, creates one payment, initiated,
  -- with the request's accounts, amount, currency and reference, and answers with it; the same request again returns the response of the first and changes nothing.
  pub initiate_payment_idempotent_twice :
      {creditor : Account}
      → find_account r.creditor_account_id db.accounts ≡ some creditor
      → (payment : Payment) × (response : PaymentResponse) × (db' : Db)
        × (initiate_payment_idempotent digest key r (alone db) ≡ (ok (201, response), alone db'))
        × (db'.payments ≡ payment ∷ db.payments)
        × IsRequested r payment
        × Shows r payment response
        × (initiate_payment_idempotent digest key r (alone db') ≡ (ok (201, response), alone db'))
  unfolding answer pure
  initiate_payment_idempotent_twice has_creditor =
      let (debtor, valid, has_debtor, same, fits) = acceptable in
      let (payment, db', runs, payments, accounts, row, fields) =
        first_call digest key r db valid has_debtor same key_fits fits unused has_creditor in
      let (debits, credits, amount, currency, reference, status, version, rate, booked) = fields in
      (
        payment,
        payment_response_dict payment,
        db',
        runs,
        payments,
        fields,
        (refl, debits, credits, amount, currency, reference, status, version, rate, booked),
        answered digest key r db' valid
              (ap (find_account r.debtor_account_id) accounts ∙ has_debtor) same key_fits fits row
            ∙ rw (eq_refl (hash_request_body digest r)) refl,
      )

  -- With nobody else at work, another acceptable request under a key that fits its column and has served a first one, with another hash, is refused
  -- and changes nothing.
  pub initiate_payment_idempotent_reused :
      {creditor : Account} (q : PaymentRequest)
      → find_account r.creditor_account_id db.accounts ≡ some creditor
      → IsAcceptable q db
      → hash_request_body digest r ≢ hash_request_body digest q
      → (response : PaymentResponse) × (db' : Db) × (initiate_payment_idempotent digest key r
            (alone db)
          ≡ (ok (201, response), alone db'))
        × (initiate_payment_idempotent digest key q (alone db')
            ≡ (err (idempotency_key_reused key initiate_endpoint), alone db'))
  unfolding answer raise
  initiate_payment_idempotent_reused q has_creditor (debtor', valid', has_debtor', same', fits')
        other =
      let (debtor, valid, has_debtor, same, fits) = acceptable in
      let (payment, db', runs, payments, accounts, row, fields) =
        first_call digest key r db valid has_debtor same key_fits fits unused has_creditor in
      (
        payment_response_dict payment,
        db',
        runs,
        answered digest key q db' valid'
              (ap (find_account q.debtor_account_id) accounts ∙ has_debtor') same' key_fits fits'
              row
            ∙ rw (str_eq_ne (hash_request_body digest r) (hash_request_body digest q) other) refl,
      )

  -- With nobody else at work, an acceptable request under a new key that fits its column, whose debtor exists and whose creditor does not: the first call fails at the foreign key,
  -- after it has committed the key, and every repetition, with no crash in between, is answered as one
  -- that is still in progress.
  pub initiate_payment_idempotent_stuck :
      find_account r.creditor_account_id db.accounts ≡ none
      → (db' : Db) × (initiate_payment_idempotent digest key r (alone db)
          ≡ (err integrity_error, alone db'))
        × (db'.payments ≡ db.payments)
        × (initiate_payment_idempotent digest key r (alone db')
            ≡ (err (idempotency_in_progress key initiate_endpoint), alone db'))
  unfolding answer raise
  initiate_payment_idempotent_stuck missing =
      let (debtor, valid, has_debtor, same, fits) = acceptable in
      (
        claimed digest key r db valid has_debtor same key_fits fits,
        claims digest key r db valid has_debtor same key_fits fits unused
            ∙ create_fails digest key r db valid has_debtor same key_fits fits unused missing,
        refl,
        answered digest key r (claimed digest key r db valid has_debtor same key_fits fits) valid
            has_debtor same key_fits fits
            (claimed_key digest key r db valid has_debtor same key_fits fits),
      )
