-- ===== src/Payments/Alone/Reverse.antt =====
-- With nobody else at work: `reverse_payment`, of a payment in one currency and in two.
use instant_payment_ledger_a.Prelude.{
  ℕ, suc, String, ◌≡◌, refl, ap, ◌∙◌, ℤ, pos, ◌+ℤ◌, ◌<ℤ◌, none, some,
}
use instant_payment_ledger_a.Entities.Ledger.{Account}
use instant_payment_ledger_a.Entities.Payments.{PaymentStatus, Payment}
use instant_payment_ledger_a.Entities.Errors.{ok}
use instant_payment_ledger_a.Database.Tables.{Db}
use instant_payment_ledger_a.Database.Session.{pure, alone, ◌>>=◌}
use instant_payment_ledger_a.Database.Run.{quiet}
use instant_payment_ledger_a.Repositories.Ledger.{find_account, find_number, balance}
use instant_payment_ledger_a.Repositories.Payments.{find_payment}
use instant_payment_ledger_a.Ledger.Balances.{movement, balance-map-append}
use instant_payment_ledger_a.Payments.StateMachine.Lifecycle.{Step}
use instant_payment_ledger_a.Payments.Services.Lines.{
  BuildLinesResult, reversal_lines, fx_reversal, plain_reversal, fx_reversal_lines,
  reversal_by_booking, fx_suspense_account_number,
}
use instant_payment_ledger_a.Payments.Services.Lines.Net.{
  transfer_lines-IsDoubleEntry, fx_reversal_lines-IsDoubleEntry,
}
use instant_payment_ledger_a.Payments.Services.Transition.{transitioned, reverse_payment}
use instant_payment_ledger_a.Payments.Alone.Status.{payment_is_current_lem}
use instant_payment_ledger_a.Payments.Alone.Entry.{transition_with_ledger_entry-alone}
use instant_payment_ledger_a.Payments.Alone.Settle.{get_account_alone, get_account_by_number_alone}

module _ (payment_id : ℕ) (n : ℕ) (db : Db) {payment : Payment} {debtor creditor : Account}
    (found : find_payment payment_id db.payments ≡ some payment)
    (status : payment.status ≡ PaymentStatus.settled) (positive : pos 0 <ℤ payment.amount)
    (has_debtor : find_account payment.debtor_account_id db.accounts ≡ some debtor)
    (has_creditor : find_account payment.creditor_account_id db.accounts ≡ some creditor) where
  reverses_from : Step payment.status PaymentStatus.reversed
  reverses_from = rw status Step.reverses

  -- A settled payment with nothing booked is reversed in the first attempt, by the two lines turned
  -- around.
  pub reverse_payment_plain :
      payment.creditor_amount ≡ none
      → (db' : Db) × (reverse_payment payment_id (suc n) (alone db)
          ≡ (ok (transitioned payment PaymentStatus.reversed none), alone db'))
        × ((i : ℕ) (c : String)
            → balance i c db'.journal_lines
              ≡ movement i c (plain_reversal payment).lines +ℤ balance i c db.journal_lines)
  unfolding reverse_payment reversal_lines pure
  reverse_payment_plain nothing =
      let (db', runs, payments, lines, kept) =
        transition_with_ledger_entry-alone payment_id PaymentStatus.reversed db found reversal_lines
          (plain_reversal payment) db (ap (λ o. reversal_by_booking o payment (alone db)) nothing)
          reverses_from
          (transfer_lines-IsDoubleEntry payment.creditor_account_id payment.debtor_account_id
            payment.amount payment.currency positive)
          (payment_is_current_lem payment_id db.payments found) n
          ((creditor, has_creditor), ((debtor, has_debtor), tt)) in
      (
        db',
        runs,
        λ i c.
            ap (balance i c) lines
            ∙ balance-map-append i c _ (plain_reversal payment).lines db.journal_lines,
      )

  module _ {amount : ℤ} {suspense own : Account} (books : payment.creditor_amount ≡ some amount)
      (has_suspense : find_number fx_suspense_account_number db.accounts ≡ some suspense)
      (suspense_by_id : find_account suspense.id db.accounts ≡ some own)
      (booked_positive : pos 0 <ℤ amount) where
    abbrev fx_reversed : BuildLinesResult
    fx_reversed = record {
      entry_type = "fx_conversion_reversal";
      lines = fx_reversal_lines payment suspense.id debtor.currency creditor.currency amount;
      field_overrides = none;
    }

    reversal_lines_fx : reversal_lines payment (alone db) ≡ (ok fx_reversed, quiet db db)
    unfolding reversal_lines fx_reversal pure ◌>>=◌
    reversal_lines_fx =
        rw
          (
            books,
            get_account_alone payment.debtor_account_id db db has_debtor,
            get_account_alone payment.creditor_account_id db db has_creditor,
            get_account_by_number_alone fx_suspense_account_number db db has_suspense,
          )
          refl

    -- One with an amount booked at settlement is reversed at that amount, whatever the rates are now.
    pub reverse_payment_fx :
        (db' : Db) × (reverse_payment payment_id (suc n) (alone db)
          ≡ (ok (transitioned payment PaymentStatus.reversed none), alone db'))
        × ((i : ℕ) (c : String)
            → balance i c db'.journal_lines
              ≡ movement i c fx_reversed.lines +ℤ balance i c db.journal_lines)
    unfolding reverse_payment
    reverse_payment_fx =
        let (db', runs, payments, lines, kept) =
          transition_with_ledger_entry-alone payment_id PaymentStatus.reversed db found
            reversal_lines fx_reversed db reversal_lines_fx reverses_from
            (fx_reversal_lines-IsDoubleEntry payment suspense.id debtor.currency creditor.currency
              amount positive booked_positive)
            (payment_is_current_lem payment_id db.payments found) n
            (
              (own, suspense_by_id),
              ((debtor, has_debtor), ((creditor, has_creditor), ((own, suspense_by_id), tt))),
            ) in
        (
          db',
          runs,
          λ i c.
              ap (balance i c) lines ∙ balance-map-append i c _ fx_reversed.lines db.journal_lines,
        )
