-- ===== src/Tests/Alone.antt =====
-- The theorems on transitions with nobody else at work.
use instant_payment_ledger_a.Prelude.{
  ℕ, true, String, pos, ◌+ℤ◌, ◌-ℤ◌, ◌<ℤ◌, *ℤ_pos, ◌≡◌, ◌≢◌, refl, arith, none, some, [],
}
use text.Mathlib.TextEquality.{eq_iff}
use instant_payment_ledger_a.Entities.Errors.{
  ok, err, invalid_payment_transition, invalid_line_amount,
}
use instant_payment_ledger_a.Entities.Ledger.{Direction}
use instant_payment_ledger_a.Entities.Payments.{PaymentStatus, Payment}
use instant_payment_ledger_a.Database.Tables.{Db}
use instant_payment_ledger_a.Database.Columns.{fits_numeric}
use instant_payment_ledger_a.Database.Session.{alone}
use instant_payment_ledger_a.Repositories.Ledger.{balance, find_account, find_number}
use instant_payment_ledger_a.Repositories.Payments.{find_payment}
use instant_payment_ledger_a.Repositories.Fx.{latest}
use instant_payment_ledger_a.Repositories.Fx.Latest.{IsLatest}
use instant_payment_ledger_a.Fx.{convert_amount}
use instant_payment_ledger_a.Payments.StateMachine.Lifecycle.{Step}
use instant_payment_ledger_a.Payments.Services.Lines.{line, settlement_lines}
use instant_payment_ledger_a.Payments.Services.Transition.{
  transitioned, transition_with_ledger_entry, settle_payment,
}
use instant_payment_ledger_a.Payments.Alone.Refused.{transition_with_ledger_entry_refused}
use instant_payment_ledger_a.Payments.Alone.Balances.{
  settle_payment-balance, settle_payment-balance_fx,
}
use instant_payment_ledger_a.Payments.Alone.Rounded.{settle_payment-rounded_to_zero}
use instant_payment_ledger_a.Payments.Alone.RoundTrip.{
  IsUndoneByReversal, settle-reverse, settle-reverse_fx,
}
use instant_payment_ledger_a.Tests.Data.{payment_of, start, rate}

usd_eur : ◌≢◌ {A = String} "USD" "EUR"
usd_eur e = ground (arith, eq_iff "USD" "EUR")

one_two : ◌≢◌ {A = ℕ} 1 2
one_two e = omega arith

not_settled : ¬ Step PaymentStatus.initiated PaymentStatus.settled
not_settled st = elim st [ ]

-- Ten dollars are four euros; one cent is nothing.
exchange_converts : convert_amount (pos 1000) (pos 40_000_000) ≡ pos 400
unfolding convert_amount
exchange_converts = rw (*ℤ_pos 1000 40_000_000) refl

tiny_converts : convert_amount (pos 1) (pos 40_000_000) ≡ pos 0
unfolding convert_amount
tiny_converts = rw (*ℤ_pos 1 40_000_000) refl

exchange_positive : pos 0 <ℤ convert_amount (pos 1000) (pos 40_000_000)
exchange_positive = rw exchange_converts (omega arith)

exchange_fits : fits_numeric (convert_amount (pos 1000) (pos 40_000_000)) ≡ true
unfolding fits_numeric
exchange_fits = rw exchange_converts refl

nine_one : ◌≢◌ {A = ℕ} 9 1
nine_one e = omega arith

nine_three : ◌≢◌ {A = ℕ} 9 3
nine_three e = omega arith

settle-reverse_example : IsUndoneByReversal 100 4 4 start []
unfolding find_payment find_account
settle-reverse_example = settle-reverse 100 4 4 start [] refl refl (omega arith) refl refl refl refl

settle-reverse_fx_example : IsUndoneByReversal 101 4 4 start []
unfolding find_payment find_account find_number latest
settle-reverse_fx_example =
    settle-reverse_fx 101 4 4 start [] refl refl (omega arith) refl refl usd_eur refl refl refl
      exchange_positive exchange_fits

-- Payment 100 and the three others before and after they are settled.
abbrev plain : Payment
plain = payment_of 100 2 (pos 2500) PaymentStatus.authorised

abbrev exchange : Payment
exchange = payment_of 101 3 (pos 1000) PaymentStatus.authorised

abbrev tiny : Payment
tiny = payment_of 102 3 (pos 1) PaymentStatus.authorised

abbrev new : Payment
new = payment_of 103 2 (pos 40) PaymentStatus.initiated

settle_payment-balance_example :
    (db' : Db) × (settle_payment 100 5 (alone start)
      ≡ (ok (transitioned plain PaymentStatus.settled none), alone db'))
    × (find_payment 100 db'.payments ≡ some (transitioned plain PaymentStatus.settled none))
    × (balance 1 "USD" db'.journal_lines ≡ balance 1 "USD" [] -ℤ pos 2500)
    × (balance 2 "USD" db'.journal_lines ≡ balance 2 "USD" [] +ℤ pos 2500)
unfolding find_payment find_account
settle_payment-balance_example =
    settle_payment-balance 100 4 start {payment = plain} refl refl (omega arith) refl refl refl
      one_two

settle_payment-balance_fx_example :
    (settled : Payment) × (db' : Db) × (settle_payment 101 5 (alone start)
      ≡ (ok settled, alone db'))
    × (find_payment 101 db'.payments ≡ some settled)
    × (settled.status ≡ PaymentStatus.settled)
    × (settled.version ≡ 2)
    × (settled.fx_rate_id ≡ some 70)
    × (settled.creditor_amount ≡ some (convert_amount (pos 1000) (pos 40_000_000)))
    × IsLatest "USD" "EUR" start.fx_rates rate
    × (balance 1 "USD" db'.journal_lines ≡ balance 1 "USD" [] -ℤ pos 1000)
    × (balance 9 "USD" db'.journal_lines ≡ balance 9 "USD" [] +ℤ pos 1000)
    × (balance 9 "EUR" db'.journal_lines
        ≡ balance 9 "EUR" [] -ℤ convert_amount (pos 1000) (pos 40_000_000))
    × (balance 3 "EUR" db'.journal_lines
        ≡ balance 3 "EUR" [] +ℤ convert_amount (pos 1000) (pos 40_000_000))
unfolding find_payment find_account find_number latest
settle_payment-balance_fx_example =
    settle_payment-balance_fx 101 4 start {payment = exchange} refl refl (omega arith) refl refl
      usd_eur refl refl refl exchange_positive exchange_fits nine_one nine_three

settle_payment-rounded_to_zero_example :
    settle_payment 102 5 (alone start)
    ≡ (err (invalid_line_amount (line 9 Direction.debit (pos 0) "EUR")), alone start)
unfolding find_payment find_account find_number latest
settle_payment-rounded_to_zero_example =
    settle_payment-rounded_to_zero 102 4 start {payment = tiny} refl refl (omega arith) refl refl
      usd_eur refl refl refl tiny_converts

transition_with_ledger_entry_refused_example :
    transition_with_ledger_entry 103 PaymentStatus.settled settlement_lines 5 (alone start)
    ≡ (err (invalid_payment_transition PaymentStatus.initiated PaymentStatus.settled), alone start)
unfolding find_payment
transition_with_ledger_entry_refused_example =
    transition_with_ledger_entry_refused 103 PaymentStatus.settled 4 start {payment = new} refl
      settlement_lines not_settled
