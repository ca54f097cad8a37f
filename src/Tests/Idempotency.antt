-- ===== src/Tests/Idempotency.antt =====
-- The theorems on idempotency keys.
use instant_payment_ledger_a.Prelude.{ℕ, String, ◌≡◌, ◌≢◌, refl, true, arith, some, ◌∷◌}
use text.Mathlib.TextEquality.{eq_iff}
use instant_payment_ledger_a.Entities.Errors.{
  ok, err, idempotency_in_progress, idempotency_key_reused, integrity_error,
}
use instant_payment_ledger_a.Entities.Payments.{Payment, PaymentResponse}
use instant_payment_ledger_a.Database.Tables.{Db}
use instant_payment_ledger_a.Database.Columns.{fits_numeric, fits_string, fits_text, has_no_nul}
use instant_payment_ledger_a.Database.Session.{alone}
use instant_payment_ledger_a.Repositories.Ledger.{find_account}
use instant_payment_ledger_a.Repositories.Payments.{payment_row_fits}
use instant_payment_ledger_a.Repositories.Idempotency.{find_key}
use instant_payment_ledger_a.Prelude.{pos}
use instant_payment_ledger_a.Payments.Services.Initiate.{
  validate_new_payment, initiate_endpoint, initiate_payment_idempotent,
}
use instant_payment_ledger_a.Payments.Alone.Idempotent.{IsRequested}
use instant_payment_ledger_a.Payments.Alone.Replay.{
  IsAcceptable, Shows, initiate_payment_idempotent_twice, initiate_payment_idempotent_stuck,
  initiate_payment_idempotent_reused,
}
use instant_payment_ledger_a.Tests.Data.{account, start, request, digest}

acceptable :
    (creditor : ℕ) (reference : String)
    → validate_new_payment (request creditor reference) ≡ ok tt
    → payment_row_fits (pos 500) "USD" (some reference) ≡ true
    → IsAcceptable (request creditor reference) start
unfolding find_account
acceptable creditor reference valid fits = (account 1 "A-1" "USD", valid, refl, refl, fits)

key_fits : fits_string 255 "key" ≡ true
unfolding fits_string fits_text has_no_nul
key_fits = refl

other_text : ◌≢◌ {A = String} "first" "second"
other_text e = ground (arith, eq_iff "first" "second")

first-IsAcceptable : IsAcceptable (request 2 "first") start
unfolding validate_new_payment fits_numeric fits_string fits_text has_no_nul
first-IsAcceptable = acceptable 2 "first" refl refl

second-IsAcceptable : IsAcceptable (request 2 "second") start
unfolding validate_new_payment fits_numeric fits_string fits_text has_no_nul
second-IsAcceptable = acceptable 2 "second" refl refl

nobody-IsAcceptable : IsAcceptable (request 7 "first") start
unfolding validate_new_payment fits_numeric fits_string fits_text has_no_nul
nobody-IsAcceptable = acceptable 7 "first" refl refl

initiate_payment_idempotent_twice_example :
    (payment : Payment) × (response : PaymentResponse) × (db' : Db) × (initiate_payment_idempotent
        digest "key"
        (request 2 "first")
        (alone start)
      ≡ (ok (201, response), alone db'))
    × (db'.payments ≡ payment ∷ start.payments)
    × IsRequested (request 2 "first") payment
    × Shows (request 2 "first") payment response
    × (initiate_payment_idempotent digest "key" (request 2 "first") (alone db')
        ≡ (ok (201, response), alone db'))
unfolding find_account find_key
initiate_payment_idempotent_twice_example =
    initiate_payment_idempotent_twice digest "key" (request 2 "first") start first-IsAcceptable refl
      key_fits {creditor = account 2 "B-2" "USD"} refl

initiate_payment_idempotent_reused_example :
    (response : PaymentResponse) × (db' : Db) × (initiate_payment_idempotent digest "key"
        (request 2 "first")
        (alone start)
      ≡ (ok (201, response), alone db'))
    × (initiate_payment_idempotent digest "key" (request 2 "second") (alone db')
        ≡ (err (idempotency_key_reused "key" initiate_endpoint), alone db'))
unfolding find_account find_key
initiate_payment_idempotent_reused_example =
    initiate_payment_idempotent_reused digest "key" (request 2 "first") start first-IsAcceptable
      refl key_fits {creditor = account 2 "B-2" "USD"} (request 2 "second") refl second-IsAcceptable
      other_text

initiate_payment_idempotent_stuck_example :
    (db' : Db) × (initiate_payment_idempotent digest "key" (request 7 "first") (alone start)
      ≡ (err integrity_error, alone db'))
    × (db'.payments ≡ start.payments)
    × (initiate_payment_idempotent digest "key" (request 7 "first") (alone db')
        ≡ (err (idempotency_in_progress "key" initiate_endpoint), alone db'))
unfolding find_account find_key
initiate_payment_idempotent_stuck_example =
    initiate_payment_idempotent_stuck digest "key" (request 7 "first") start nobody-IsAcceptable
      refl key_fits refl
