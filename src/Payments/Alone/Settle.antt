-- ===== src/Payments/Alone/Settle.antt =====
-- With nobody else at work: `settle_payment`, in one currency and in two.
use instant_payment_ledger_a.Prelude.{
  true, ℕ, suc, String, ◌≡◌, ◌≢◌, refl, ap, ◌∙◌, ℤ, pos, ◌+ℤ◌, ◌<ℤ◌, false, none, some, List, [],
  ◌∷◌, arith, ◌==◌, str_eq, eq_iff, Bool-cases, inl, inr,
}
use instant_payment_ledger_a.Entities.Ledger.{Account, FxRate}
use instant_payment_ledger_a.Entities.Payments.{PaymentStatus, Payment}
use instant_payment_ledger_a.Entities.Errors.{ok, err, account_not_found, account_number_not_found}
use instant_payment_ledger_a.Database.Tables.{Db}
use instant_payment_ledger_a.Database.Columns.{fits_numeric}
use instant_payment_ledger_a.Database.Session.{statement, query, execute, pure, alone, ◌>>=◌, ◌>>◌}
use instant_payment_ledger_a.Database.Run.{quiet}
use instant_payment_ledger_a.Repositories.Ledger.{
  find_account, find_number, get_account, get_account_by_number, or_not_found, balance,
}
use instant_payment_ledger_a.Repositories.Ledger.Bumped.{IsKept}
use instant_payment_ledger_a.Repositories.Payments.{find_payment, book_fx, set_fx_details}
use instant_payment_ledger_a.Repositories.Fx.{latest, get_latest_rate, or_no_rate}
use instant_payment_ledger_a.Fx.{convert_amount}
use instant_payment_ledger_a.Ledger.Balances.{movement, balance-map-append}
use instant_payment_ledger_a.Payments.StateMachine.Lifecycle.{Step}
use instant_payment_ledger_a.Payments.Services.Lines.{
  BuildLinesResult, settlement_lines, fx_settlement, plain_settlement, fx_lines,
  fx_suspense_account_number,
}
use instant_payment_ledger_a.Payments.Services.Lines.Net.{
  transfer_lines-IsDoubleEntry, fx_lines-IsDoubleEntry,
}
use instant_payment_ledger_a.Payments.Services.Transition.{transitioned, settle_payment}
use instant_payment_ledger_a.Payments.Alone.Status.{payment_is_current_lem, find_payment-set_status}
use instant_payment_ledger_a.Payments.Alone.Entry.{transition_with_ledger_entry-alone}

pub get_account_alone :
    (i : ℕ) (v c : Db) {a : Account}
    → find_account i v.accounts ≡ some a
    → get_account i (quiet v c) ≡ (ok a, quiet v c)
unfolding get_account query statement
get_account_alone i v c e = ap (λ o. (or_not_found o (err (account_not_found i)), quiet v c)) e

pub get_account_by_number_alone :
    (n : String) (v c : Db) {a : Account}
    → find_number n v.accounts ≡ some a
    → get_account_by_number n (quiet v c) ≡ (ok a, quiet v c)
unfolding get_account_by_number query statement
get_account_by_number_alone n v c e =
    ap (λ o. (or_not_found o (err (account_number_not_found n)), quiet v c)) e

get_latest_rate_alone :
    (b q : String) (v c : Db) {r : FxRate}
    → latest b q v.fx_rates ≡ some r
    → get_latest_rate b q (quiet v c) ≡ (ok r, quiet v c)
unfolding get_latest_rate query statement
get_latest_rate_alone b q v c e = ap (λ o. (or_no_rate b q o, quiet v c)) e

pub find_payment-book_fx :
    (i r : ℕ) (a : ℤ) (ps : List Payment) {p : Payment}
    → find_payment i ps ≡ some p
    → find_payment i (book_fx i r a ps)
      ≡ some (record p { fx_rate_id = some r; creditor_amount = some a })
unfolding find_payment book_fx
find_payment-book_fx i r a [] e = cc
find_payment-book_fx i r a (q ∷ ps) {p} e = elim (Bool-cases (q.id == i)) [
  | inl hit ↦ let same : q ≡ p = ground arith in rw (← same) (rw (hit, hit) refl)
  | inr miss ↦ simp miss (find_payment-book_fx i r a ps {p = p} (ground arith))
]

pub find_payment-id :
    (i : ℕ) (ps : List Payment) {p : Payment} → find_payment i ps ≡ some p → p.id ≡ i
unfolding find_payment
find_payment-id i [] e = cc
find_payment-id i (q ∷ ps) {p} e = ground (arith, find_payment-id i ps {p = p})

pub str_eq_ne : (s t : String) → s ≢ t → str_eq s t ≡ false
str_eq_ne s t h = ground (arith, eq_iff s t)

module _ (payment_id : ℕ) (n : ℕ) (db : Db) {payment : Payment} {debtor creditor : Account}
    (found : find_payment payment_id db.payments ≡ some payment)
    (status : payment.status ≡ PaymentStatus.authorised) (positive : pos 0 <ℤ payment.amount)
    (has_debtor : find_account payment.debtor_account_id db.accounts ≡ some debtor)
    (has_creditor : find_account payment.creditor_account_id db.accounts ≡ some creditor) where
  settles_from : Step payment.status PaymentStatus.settled
  settles_from = rw status Step.settles

  module _ (same : debtor.currency ≡ creditor.currency) where
    settlement_lines_plain :
        settlement_lines payment (alone db) ≡ (ok (plain_settlement payment), quiet db db)
    unfolding settlement_lines pure ◌>>=◌
    settlement_lines_plain =
        rw
          (
            get_account_alone payment.debtor_account_id db db has_debtor,
            get_account_alone payment.creditor_account_id db db has_creditor,
            (eq_iff debtor.currency creditor.currency).1 same,
          )
          refl

    -- A payment between accounts of one currency settles in the first attempt: it is returned and kept as
    -- settled, the two lines are all that changes the balances, and every account can still be found.
    pub settle_payment_plain :
        (db' : Db) × (settle_payment payment_id (suc n) (alone db)
          ≡ (ok (transitioned payment PaymentStatus.settled none), alone db'))
        × (find_payment payment_id db'.payments
            ≡ some (transitioned payment PaymentStatus.settled none))
        × ((i : ℕ) (c : String)
            → balance i c db'.journal_lines
              ≡ movement i c (plain_settlement payment).lines +ℤ balance i c db.journal_lines)
        × IsKept db.accounts db'.accounts
    unfolding settle_payment
    settle_payment_plain =
        let (db', runs, payments, lines, kept) =
          transition_with_ledger_entry-alone payment_id PaymentStatus.settled db found
            settlement_lines (plain_settlement payment) db settlement_lines_plain settles_from
            (transfer_lines-IsDoubleEntry payment.debtor_account_id payment.creditor_account_id
              payment.amount payment.currency positive)
            (payment_is_current_lem payment_id db.payments found) n
            ((debtor, has_debtor), ((creditor, has_creditor), tt)) in
        (
          db',
          runs,
          rw payments (find_payment-set_status payment_id PaymentStatus.settled db.payments found),
          λ i c.
              ap (balance i c) lines
              ∙ balance-map-append i c _ (plain_settlement payment).lines db.journal_lines,
          kept,
        )

  module _ {rate : FxRate} {suspense own : Account} (differ : debtor.currency ≢ creditor.currency)
      (has_rate : latest debtor.currency creditor.currency db.fx_rates ≡ some rate)
      (has_suspense : find_number fx_suspense_account_number db.accounts ≡ some suspense)
      (suspense_by_id : find_account suspense.id db.accounts ≡ some own) where
    abbrev fx_built : BuildLinesResult
    fx_built = record {
      entry_type = "fx_conversion";
      lines =
          fx_lines payment suspense.id debtor.currency creditor.currency
            (convert_amount payment.amount rate.rate);
      field_overrides = some (rate.id, convert_amount payment.amount rate.rate);
    }

    abbrev booked : Db
    booked = record db {
      payments = book_fx payment.id rate.id (convert_amount payment.amount rate.rate) db.payments;
    }

    pub settlement_lines_fx :
        fits_numeric (convert_amount payment.amount rate.rate) ≡ true
        → settlement_lines payment (alone db) ≡ (ok fx_built, quiet booked db)
    unfolding settlement_lines fx_settlement set_fx_details execute pure ◌>>=◌ ◌>>◌
    settlement_lines_fx fits =
        rw
          (
            get_account_alone payment.debtor_account_id db db has_debtor,
            get_account_alone payment.creditor_account_id db db has_creditor,
            str_eq_ne debtor.currency creditor.currency differ,
            get_latest_rate_alone debtor.currency creditor.currency db db has_rate,
            get_account_by_number_alone fx_suspense_account_number db db has_suspense,
            fits,
          )
          refl

    -- A payment between accounts of two currencies settles in the first attempt, where a rate and the
    -- suspense account exist and the converted amount is positive: the payment keeps the rate and the
    -- converted amount, and the four lines through the suspense account are all that changes balances.
    pub settle_payment_fx :
        pos 0 <ℤ convert_amount payment.amount rate.rate
        → fits_numeric (convert_amount payment.amount rate.rate) ≡ true
        → (db' : Db) × (settle_payment payment_id (suc n) (alone db)
            ≡ (ok (transitioned payment PaymentStatus.settled fx_built.field_overrides), alone db'))
          × (find_payment payment_id db'.payments
              ≡ some (transitioned payment PaymentStatus.settled fx_built.field_overrides))
          × ((i : ℕ) (c : String)
              → balance i c db'.journal_lines
                ≡ movement i c fx_built.lines +ℤ balance i c db.journal_lines)
          × IsKept db.accounts db'.accounts
    unfolding settle_payment
    settle_payment_fx converts fits =
        let amount = convert_amount payment.amount rate.rate in
        let booking =
          ap (λ k. find_payment payment_id (book_fx k rate.id amount db.payments))
            (find_payment-id payment_id db.payments found)
          ∙ find_payment-book_fx payment_id rate.id amount db.payments found in
        let (db', runs, payments, lines, kept) =
          transition_with_ledger_entry-alone payment_id PaymentStatus.settled db found
            settlement_lines fx_built booked (settlement_lines_fx fits) settles_from
            (fx_lines-IsDoubleEntry payment suspense.id debtor.currency creditor.currency
              (convert_amount payment.amount rate.rate) positive converts)
            (payment_is_current_lem payment_id booked.payments booking) n
            (
              (debtor, has_debtor),
              ((own, suspense_by_id), ((own, suspense_by_id), ((creditor, has_creditor), tt))),
            ) in
        (
          db',
          runs,
          rw payments
              (find_payment-set_status payment_id PaymentStatus.settled booked.payments booking),
          λ i c. ap (balance i c) lines ∙ balance-map-append i c _ fx_built.lines db.journal_lines,
          kept,
        )
