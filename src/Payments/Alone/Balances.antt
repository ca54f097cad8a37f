-- ===== src/Payments/Alone/Balances.antt =====
-- With nobody else at work: what a settlement does to the balances.
use instant_payment_ledger_a.Prelude.{
  true, ap, ◌+◌, refl, ℕ, suc, String, ◌≡◌, ◌≢◌, sym, ◌∙◌, ℤ, pos, ◌+ℤ◌, ◌-ℤ◌, ◌<ℤ◌, int_laws, none,
  some, ==_self, ==_ne, eq_refl,
}
use mathlib.Core.Option.{some-injective}
use instant_payment_ledger_a.Entities.Ledger.{Account, FxRate}
use instant_payment_ledger_a.Entities.Payments.{PaymentStatus, Payment}
use instant_payment_ledger_a.Entities.Errors.{ok}
use instant_payment_ledger_a.Database.Tables.{Db}
use instant_payment_ledger_a.Database.Columns.{fits_numeric}
use instant_payment_ledger_a.Database.Session.{alone}
use instant_payment_ledger_a.Repositories.Ledger.{find_account, find_number, balance}
use instant_payment_ledger_a.Repositories.Payments.{find_payment}
use instant_payment_ledger_a.Repositories.Fx.{latest}
use instant_payment_ledger_a.Repositories.Fx.Latest.{IsLatest, latest-IsLatest}
use instant_payment_ledger_a.Fx.{convert_amount}
use instant_payment_ledger_a.Ledger.Balances.{movement}
use instant_payment_ledger_a.Payments.Services.Lines.{transfer_lines, fx_lines}
use instant_payment_ledger_a.Payments.Services.Transition.{transitioned, settle_payment}
use instant_payment_ledger_a.Payments.Alone.Settle.{
  str_eq_ne, settle_payment_plain, settle_payment_fx,
}

debtor_pays :
    (i k : ℕ) (amount b : ℤ) (c : String)
    → i ≢ k
    → movement i c (transfer_lines i k amount c) +ℤ b ≡ b -ℤ amount
unfolding movement
debtor_pays i k amount b c h = rw (==_self i, eq_refl c, ==_ne k i λ e. h (sym e)) (omega int_laws)

creditor_gets :
    (i k : ℕ) (amount b : ℤ) (c : String)
    → i ≢ k
    → movement k c (transfer_lines i k amount c) +ℤ b ≡ b +ℤ amount
unfolding movement
creditor_gets i k amount b c h = rw (==_ne i k h, ==_self k, eq_refl c) (omega int_laws)

-- The four lines of a conversion, account by account.
fx_moves :
    (p : Payment) (s : ℕ) (c d : String) (x : ℤ)
    → p.debtor_account_id ≢ p.creditor_account_id
    → s ≢ p.debtor_account_id
    → s ≢ p.creditor_account_id
    → c ≢ d
    → ((b : ℤ) → movement p.debtor_account_id c (fx_lines p s c d x) +ℤ b ≡ b -ℤ p.amount)
      × ((b : ℤ) → movement s c (fx_lines p s c d x) +ℤ b ≡ b +ℤ p.amount)
      × ((b : ℤ) → movement s d (fx_lines p s c d x) +ℤ b ≡ b -ℤ x)
      × ((b : ℤ) → movement p.creditor_account_id d (fx_lines p s c d x) +ℤ b ≡ b +ℤ x)
unfolding movement
fx_moves p s c d x two sd sc differ = (
  λ b.
      rw
        (
          ==_self p.debtor_account_id,
          eq_refl c,
          ==_ne s p.debtor_account_id sd,
          ==_ne p.creditor_account_id p.debtor_account_id λ e. two (sym e),
        )
        (omega int_laws),
  λ b.
      rw
        (
          ==_self s,
          eq_refl c,
          str_eq_ne d c λ e. differ (sym e),
          ==_ne p.debtor_account_id s λ e. sd (sym e),
          ==_ne p.creditor_account_id s λ e. sc (sym e),
        )
        (omega int_laws),
  λ b.
      rw
        (
          ==_self s,
          eq_refl d,
          str_eq_ne c d differ,
          ==_ne p.debtor_account_id s λ e. sd (sym e),
          ==_ne p.creditor_account_id s λ e. sc (sym e),
        )
        (omega int_laws),
  λ b.
      rw
        (
          ==_self p.creditor_account_id,
          eq_refl d,
          ==_ne s p.creditor_account_id sc,
          ==_ne p.debtor_account_id p.creditor_account_id two,
        )
        (omega int_laws),
)

two_accounts :
    (p : Payment) (db : Db) {debtor creditor : Account}
    → find_account p.debtor_account_id db.accounts ≡ some debtor
    → find_account p.creditor_account_id db.accounts ≡ some creditor
    → debtor.currency ≢ creditor.currency
    → p.debtor_account_id ≢ p.creditor_account_id
two_accounts p db {debtor} {creditor} h k differ e =
    let same : some debtor ≡ some creditor = sym h ∙ ap (λ i. find_account i db.accounts) e ∙ k in
    differ (ap (λ a. a.currency) (some-injective _ _ same))

module _ (payment_id n : ℕ) (db : Db) {payment : Payment} {debtor creditor : Account}
    (found : find_payment payment_id db.payments ≡ some payment)
    (status : payment.status ≡ PaymentStatus.authorised) (positive : pos 0 <ℤ payment.amount)
    (has_debtor : find_account payment.debtor_account_id db.accounts ≡ some debtor)
    (has_creditor : find_account payment.creditor_account_id db.accounts ≡ some creditor) where
  -- With nobody else at work, an authorised payment of a positive amount between two accounts of one
  -- currency settles in the
  -- first attempt: it is returned and kept as settled with the next version, its debtor's balance is
  -- less and its creditor's more by the amount.
  pub settle_payment-balance :
      debtor.currency ≡ creditor.currency
      → payment.debtor_account_id ≢ payment.creditor_account_id
      → (db' : Db) × (settle_payment payment_id (suc n) (alone db)
          ≡ (ok (transitioned payment PaymentStatus.settled none), alone db'))
        × (find_payment payment_id db'.payments
            ≡ some (transitioned payment PaymentStatus.settled none))
        × (balance payment.debtor_account_id payment.currency db'.journal_lines
            ≡ balance payment.debtor_account_id payment.currency db.journal_lines -ℤ payment.amount)
        × (balance payment.creditor_account_id payment.currency db'.journal_lines
            ≡ balance payment.creditor_account_id payment.currency db.journal_lines
              +ℤ payment.amount)
  settle_payment-balance same differ =
      let (db', runs, kept, moved, accounts) =
        settle_payment_plain payment_id n db found status positive has_debtor has_creditor same in
      (
        db',
        runs,
        kept,
        moved payment.debtor_account_id payment.currency
            ∙ debtor_pays payment.debtor_account_id payment.creditor_account_id payment.amount _
                payment.currency differ,
        moved payment.creditor_account_id payment.currency
            ∙ creditor_gets payment.debtor_account_id payment.creditor_account_id payment.amount _
                payment.currency differ,
      )

  -- With nobody else at work, an authorised payment of a positive amount between accounts of two
  -- currencies settles in the first attempt, where a rate exists, the suspense account is a third one and
  -- the converted amount is positive and fits its column: the payment is returned and kept as settled,
  -- with the next version, the converted amount and a rate of the two currencies than which none is
  -- newer. In the debtor's currency the debtor has less by the amount and the suspense account more; in
  -- the creditor's the suspense account has less by the converted amount and the creditor more.
  pub settle_payment-balance_fx :
      {rate : FxRate} {suspense own : Account}
      → debtor.currency ≢ creditor.currency
      → latest debtor.currency creditor.currency db.fx_rates ≡ some rate
      → find_number "FX-SUSPENSE" db.accounts ≡ some suspense
      → find_account suspense.id db.accounts ≡ some own
      → pos 0 <ℤ convert_amount payment.amount rate.rate
      → fits_numeric (convert_amount payment.amount rate.rate) ≡ true
      → suspense.id ≢ payment.debtor_account_id
      → suspense.id ≢ payment.creditor_account_id
      → (settled : Payment) × (db' : Db) × (settle_payment payment_id (suc n) (alone db)
          ≡ (ok settled, alone db'))
        × (find_payment payment_id db'.payments ≡ some settled)
        × (settled.status ≡ PaymentStatus.settled)
        × (settled.version ≡ payment.version + 1)
        × (settled.fx_rate_id ≡ some rate.id)
        × (settled.creditor_amount ≡ some (convert_amount payment.amount rate.rate))
        × IsLatest debtor.currency creditor.currency db.fx_rates rate
        × (balance payment.debtor_account_id debtor.currency db'.journal_lines
            ≡ balance payment.debtor_account_id debtor.currency db.journal_lines -ℤ payment.amount)
        × (balance suspense.id debtor.currency db'.journal_lines
            ≡ balance suspense.id debtor.currency db.journal_lines +ℤ payment.amount)
        × (balance suspense.id creditor.currency db'.journal_lines
            ≡ balance suspense.id creditor.currency db.journal_lines
              -ℤ convert_amount payment.amount rate.rate)
        × (balance payment.creditor_account_id creditor.currency db'.journal_lines
            ≡ balance payment.creditor_account_id creditor.currency db.journal_lines
              +ℤ convert_amount payment.amount rate.rate)
  settle_payment-balance_fx {rate} {suspense} differ has_rate has_suspense by_id converts fits sd
        sc =
      let (db', runs, kept, moved, accounts) =
        settle_payment_fx payment_id n db found status positive has_debtor has_creditor differ
          has_rate has_suspense by_id converts fits in
      let two : payment.debtor_account_id ≢ payment.creditor_account_id =
        two_accounts payment db has_debtor has_creditor differ in
      let moves =
        fx_moves payment suspense.id debtor.currency creditor.currency
          (convert_amount payment.amount rate.rate) two sd sc differ in
      (
        _,
        db',
        runs,
        kept,
        refl,
        refl,
        refl,
        refl,
        latest-IsLatest debtor.currency creditor.currency db.fx_rates has_rate,
        moved payment.debtor_account_id debtor.currency ∙ moves.0 _,
        moved suspense.id debtor.currency ∙ moves.1 _,
        moved suspense.id creditor.currency ∙ moves.2 _,
        moved payment.creditor_account_id creditor.currency ∙ moves.3 _,
      )
