-- ===== src/Payments/Alone/Rounded.antt =====
-- With nobody else at work: a payment too small to be worth a cent in the creditor's currency.
use instant_payment_ledger_a.Prelude.{
  ℕ, suc, String, ◌≡◌, ◌≢◌, refl, ℤ, pos, ◌<ℤ◌, leb_ℤ, arith, some, true, false,
}
use instant_payment_ledger_a.Entities.Ledger.{Direction, Account, FxRate}
use instant_payment_ledger_a.Entities.Payments.{PaymentStatus, Payment}
use instant_payment_ledger_a.Entities.Errors.{err, invalid_line_amount}
use instant_payment_ledger_a.Database.Tables.{Db}
use instant_payment_ledger_a.Database.Columns.{fits_numeric}
use instant_payment_ledger_a.Database.Session.{alone, lift, ◌>>=◌, ◌>>◌}
use instant_payment_ledger_a.Database.Run.{run_retry_err}
use instant_payment_ledger_a.Repositories.Ledger.{find_account, find_number}
use instant_payment_ledger_a.Repositories.Payments.{find_payment, book_fx}
use instant_payment_ledger_a.Repositories.Fx.{latest}
use instant_payment_ledger_a.Fx.{convert_amount}
use instant_payment_ledger_a.Ledger.Invariants.{validate_journal_entry}
use instant_payment_ledger_a.Payments.StateMachine.Lifecycle.{Step, assert_transition_allowed_iff}
use instant_payment_ledger_a.Payments.Services.Lines.{
  line, fx_lines, settlement_lines, fx_suspense_account_number,
}
use instant_payment_ledger_a.Payments.Services.Transition.{
  post_and_update, ledger_attempt, transition_with_ledger_entry, settle_payment,
}
use instant_payment_ledger_a.Payments.Alone.Refused.{get_payment_alone}
use instant_payment_ledger_a.Payments.Alone.Settle.{settlement_lines_fx}

positive_amount : (a : ℤ) → pos 0 <ℤ a → leb_ℤ a (pos 0) ≡ false
positive_amount a h = ground arith

zero_fits : (x : ℤ) → x ≡ pos 0 → fits_numeric x ≡ true
unfolding fits_numeric
zero_fits x e = rw e refl

zero_line :
    (p : Payment) (s : ℕ) (c k : String)
    → pos 0 <ℤ p.amount
    → validate_journal_entry (fx_lines p s c k (pos 0))
      ≡ err (invalid_line_amount (line s Direction.debit (pos 0) k))
unfolding validate_journal_entry
zero_line p s c k positive = rw (positive_amount p.amount positive) refl

module _ (payment_id n : ℕ) (db : Db) {payment : Payment} {debtor creditor : Account}
    {rate : FxRate} {suspense own : Account}
    (found : find_payment payment_id db.payments ≡ some payment)
    (status : payment.status ≡ PaymentStatus.authorised) (positive : pos 0 <ℤ payment.amount)
    (has_debtor : find_account payment.debtor_account_id db.accounts ≡ some debtor)
    (has_creditor : find_account payment.creditor_account_id db.accounts ≡ some creditor)
    (differ : debtor.currency ≢ creditor.currency)
    (has_rate : latest debtor.currency creditor.currency db.fx_rates ≡ some rate)
    (has_suspense : find_number fx_suspense_account_number db.accounts ≡ some suspense)
    (by_id : find_account suspense.id db.accounts ≡ some own) where
  -- With nobody else at work, an authorised payment whose converted amount rounds to zero cannot be settled: the call raises the
  -- error for a line whose amount is not positive, and the payment, which was accepted and authorised,
  -- stays as it is.
  pub settle_payment-rounded_to_zero :
      convert_amount payment.amount rate.rate ≡ pos 0
      → settle_payment payment_id (suc n) (alone db) ≡ (
        err (invalid_line_amount (line suspense.id Direction.debit (pos 0) creditor.currency)),
        alone db,
      )
  unfolding settle_payment transition_with_ledger_entry ledger_attempt post_and_update lift ◌>>=◌
      ◌>>◌
  settle_payment-rounded_to_zero zero =
      run_retry_err n (ledger_attempt payment_id PaymentStatus.settled settlement_lines) _
        {v = record db {
          payments =
              book_fx payment.id rate.id (convert_amount payment.amount rate.rate) db.payments;
        }}
        (rw
          (
            get_payment_alone payment_id db db found,
            (assert_transition_allowed_iff payment.status PaymentStatus.settled).1
                (rw status Step.settles),
            settlement_lines_fx payment_id n db found status positive has_debtor has_creditor differ
                has_rate has_suspense by_id
                (zero_fits (convert_amount payment.amount rate.rate) zero),
            zero,
            zero_line payment suspense.id debtor.currency creditor.currency positive,
          )
          refl)
