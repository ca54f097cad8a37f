-- ===== src/Payments/Alone/RoundTrip.antt =====
-- With nobody else at work: a payment that is settled and then reversed.
use instant_payment_ledger_a.Prelude.{
  true, ℕ, suc, String, ◌≡◌, ◌≢◌, refl, ap, ◌∙◌, ℤ, pos, ◌+ℤ◌, ◌<ℤ◌, zero-+ℤ, int_laws, none, some,
  List,
}
use instant_payment_ledger_a.Entities.Ledger.{Account, FxRate}
use instant_payment_ledger_a.Entities.Payments.{PaymentStatus, Payment}
use instant_payment_ledger_a.Entities.Errors.{ok}
use instant_payment_ledger_a.Database.Tables.{Db}
use instant_payment_ledger_a.Database.Columns.{fits_numeric}
use instant_payment_ledger_a.Database.Session.{alone}
use instant_payment_ledger_a.Repositories.Ledger.{find_account, find_number, balance}
use instant_payment_ledger_a.Repositories.Payments.{find_payment}
use instant_payment_ledger_a.Repositories.Fx.{latest}
use instant_payment_ledger_a.Fx.{convert_amount}
use instant_payment_ledger_a.Payments.Services.Lines.{fx_suspense_account_number}
use instant_payment_ledger_a.Payments.Services.Lines.Net.{
  transfer_lines-movement, fx_lines-movement,
}
use instant_payment_ledger_a.Payments.Services.Transition.{settle_payment, reverse_payment}
use instant_payment_ledger_a.Payments.Alone.Settle.{settle_payment_plain, settle_payment_fx}
use instant_payment_ledger_a.Payments.Alone.Reverse.{reverse_payment_plain, reverse_payment_fx}

move_back : (x y z : ℤ) → x +ℤ y ≡ pos 0 → x +ℤ (y +ℤ z) ≡ z
move_back x y z h = associated ∙ rw h (zero-+ℤ z)
  where
    associated : x +ℤ (y +ℤ z) ≡ x +ℤ y +ℤ z
    associated = omega int_laws

-- `settle_payment` succeeds; then, with any other rates in the table, `reverse_payment` does; and then
-- every balance is what it was at first.
abbrev pub IsUndoneByReversal : ℕ → ℕ → ℕ → Db → List FxRate → Type 0
IsUndoneByReversal payment_id n m db rates =
    (settled reversed : Payment) × (after_settling after_reversing : Db) × (settle_payment
        payment_id (suc n) (alone db)
      ≡ (ok settled, alone after_settling))
    × (settled.status ≡ PaymentStatus.settled)
    × (reverse_payment payment_id (suc m) (alone (record after_settling { fx_rates = rates }))
        ≡ (ok reversed, alone after_reversing))
    × (reversed.status ≡ PaymentStatus.reversed)
    × ((i : ℕ) (c : String)
        → balance i c after_reversing.journal_lines ≡ balance i c db.journal_lines)

module _ (payment_id : ℕ) (n m : ℕ) (db : Db) (rates : List FxRate) {payment : Payment}
    {debtor creditor : Account} (found : find_payment payment_id db.payments ≡ some payment)
    (status : payment.status ≡ PaymentStatus.authorised) (positive : pos 0 <ℤ payment.amount)
    (has_debtor : find_account payment.debtor_account_id db.accounts ≡ some debtor)
    (has_creditor : find_account payment.creditor_account_id db.accounts ≡ some creditor) where
  -- With nobody else at work, an authorised payment of a positive amount between accounts of one
  -- currency, with no amount booked, settles in the first attempt; then, whatever rates the table has by
  -- then, its reversal succeeds, and every balance is what it was at first.
  pub settle-reverse :
      debtor.currency ≡ creditor.currency
      → payment.creditor_amount ≡ none
      → IsUndoneByReversal payment_id n m db rates
  settle-reverse same nothing =
      let (db', runs, now_found, balances, kept) =
        settle_payment_plain payment_id n db found status positive has_debtor has_creditor same in
      let (debtor', has_debtor', same_debtor) =
        kept.0 payment.debtor_account_id debtor has_debtor in
      let (creditor', has_creditor', same_creditor) =
        kept.0 payment.creditor_account_id creditor has_creditor in
      let (db'', runs', balances') =
        reverse_payment_plain payment_id m (record db' { fx_rates = rates }) now_found refl positive
          has_debtor' has_creditor' nothing in
      (
        _,
        _,
        db',
        db'',
        runs,
        refl,
        runs',
        refl,
        λ i c.
            balances' i c
            ∙ rw (balances i c) (
                move_back _ _ _ (
                  transfer_lines-movement i payment.debtor_account_id payment.creditor_account_id
                    payment.amount payment.currency c)),
      )

  -- With nobody else at work, an authorised payment of a positive amount between accounts of two
  -- currencies, for which a rate and the suspense account exist and whose converted amount is positive and fits its column,
  -- settles in the first attempt; then, whatever rates the table has by then, its reversal succeeds, and
  -- every balance is what it was at first.
  pub settle-reverse_fx :
      {rate : FxRate} {suspense own : Account}
      → debtor.currency ≢ creditor.currency
      → latest debtor.currency creditor.currency db.fx_rates ≡ some rate
      → find_number fx_suspense_account_number db.accounts ≡ some suspense
      → find_account suspense.id db.accounts ≡ some own
      → pos 0 <ℤ convert_amount payment.amount rate.rate
      → fits_numeric (convert_amount payment.amount rate.rate) ≡ true
      → IsUndoneByReversal payment_id n m db rates
  settle-reverse_fx {rate} {suspense} differ has_rate has_suspense by_id converts fits =
      let (db', runs, now_found, balances, kept) =
        settle_payment_fx payment_id n db found status positive has_debtor has_creditor differ
          has_rate has_suspense by_id converts fits in
      let (debtor', has_debtor', same_debtor) =
        kept.0 payment.debtor_account_id debtor has_debtor in
      let (creditor', has_creditor', same_creditor) =
        kept.0 payment.creditor_account_id creditor has_creditor in
      let (suspense', has_suspense', same_suspense) =
        kept.1 fx_suspense_account_number suspense has_suspense in
      let (own', by_id', same_own) = kept.0 suspense.id _ by_id in
      let (db'', runs', balances') =
        reverse_payment_fx payment_id m (record db' { fx_rates = rates }) now_found refl positive
          has_debtor' has_creditor' refl has_suspense'
          (ap (λ k. find_account k db'.accounts) same_suspense.0 ∙ by_id') converts in
      (
        _,
        _,
        db',
        db'',
        runs,
        refl,
        runs',
        refl,
        λ i c.
            balances' i c
            ∙ rw (balances i c, same_debtor.1, same_creditor.1, same_suspense.0)
                (move_back _ _ _ (
                  fx_lines-movement i payment suspense.id debtor.currency creditor.currency c
                    (convert_amount payment.amount rate.rate))),
      )
