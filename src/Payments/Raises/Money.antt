-- ===== src/Payments/Raises/Money.antt =====
-- app/domain/payments/services.py: which errors a settlement and a reversal may raise.
use instant_payment_ledger_a.Prelude.{
  ℕ, String, ℤ, Bool, false, Option, none, some, List, [], ◌∷◌, ◌≡◌, refl, Option-cases, inl, inr,
  All,
}
use instant_payment_ledger_a.Entities.Ledger.{Account, JournalLine, JournalEntry, FxRate}
use instant_payment_ledger_a.Entities.Payments.{PaymentStatus, Payment}
use instant_payment_ledger_a.Entities.Errors.{
  Error, Result, ok, err, account_not_found, account_number_not_found, invalid_line_amount,
  concurrent_payment_modification, invalid_payment_transition, payment_not_found, fx_rate_not_found,
  data_error,
}
use instant_payment_ledger_a.Database.Raises.{
  Within, Within-ok, Within-err, Raises, Raises-pure, Raises-lift, Raises-statement, Raises-query,
  Raises-if, Raises-bind, Raises-then, Raises-bind_Gives, raises_rules, Gives, Gives-pure, Gives-if,
  Gives-bind, Gives-then,
}
use instant_payment_ledger_a.Database.Columns.{fits_text, optional}
use instant_payment_ledger_a.Repositories.Ledger.{
  find_account, insert_journal_entry, bump_account_version, get_account_versions, versions_of,
  add_version,
}
use instant_payment_ledger_a.Repositories.Fx.{get_latest_rate, latest, or_no_rate}
use instant_payment_ledger_a.Concurrency.Raises.{Raises-retry, attempt_raises}
use instant_payment_ledger_a.Ledger.Invariants.{validate_journal_entry, invalid_line}
use instant_payment_ledger_a.Ledger.Invariants.Exact.{
  IsDoubleEntry, IsPositive, valid_of_IsPositive, validate_iff,
}
use instant_payment_ledger_a.Ledger.Services.{bump_accounts}
use instant_payment_ledger_a.Payments.Services.Lines.{
  BuildLines, BuildLinesResult, settlement_lines, fx_settlement, reversal_by_booking, fx_reversal,
  reversal_lines,
}
use instant_payment_ledger_a.Payments.Services.Lines.Net.{
  transfer_lines-IsDoubleEntry, fx_lines-IsDoubleEntry, fx_reversal_lines-IsDoubleEntry,
}
use instant_payment_ledger_a.Payments.Services.Transition.{
  update_unless, write_entry, post_and_update, ledger_attempt, transition_with_ledger_entry,
  settle_payment, reverse_payment,
}
use instant_payment_ledger_a.Payments.Raises.{
  get_account-Raises, get_account_by_number-Raises, get_payment-Raises, allowed-Within,
  set_fx_details-Raises, update_payment_status-Raises, complete_transition-Raises,
}

-- Lines that balance, unless an amount is not positive.
abbrev Balances : BuildLinesResult → Type 0
Balances built = All IsPositive built.lines → IsDoubleEntry built.lines

fx_settlement-Balances : (p : Payment) (d c : Account) → Gives Balances (fx_settlement p d c)
unfolding fx_settlement
fx_settlement-Balances p d c = Gives-bind _ _ λ rate. Gives-bind _ _ λ suspense.
    Gives-then _ _ (
      Gives-pure _
        λ h. fx_lines-IsDoubleEntry p suspense.id d.currency c.currency _ (h.0) (h.1.1.0))

settlement_lines-Balances : (p : Payment) → Gives Balances (settlement_lines p)
unfolding settlement_lines
settlement_lines-Balances p = Gives-bind _ _ λ d. Gives-bind _ _ λ c.
    Gives-if _ _ _ (Gives-pure _ λ h. transfer_lines-IsDoubleEntry _ _ p.amount p.currency (h.0))
      (fx_settlement-Balances p d c)

reversal_by_booking-Balances :
    (b : Option ℤ) (p : Payment) → Gives Balances (reversal_by_booking b p)
unfolding fx_reversal
reversal_by_booking-Balances none p =
    Gives-pure _ λ h. transfer_lines-IsDoubleEntry _ _ p.amount p.currency (h.0)
reversal_by_booking-Balances (some x) p = Gives-bind _ _ λ d. Gives-bind _ _ λ c.
    Gives-bind _ _ λ suspense.
      Gives-pure _
        λ h. fx_reversal_lines-IsDoubleEntry p suspense.id d.currency c.currency x (h.0) (h.1.1.0)

raise_invalid-err :
    (ls : List JournalLine) (l : JournalLine)
    → invalid_line ls ≡ some l
    → validate_journal_entry ls ≡ err (invalid_line_amount l)
unfolding validate_journal_entry invalid_line
raise_invalid-err [] l e = cc
raise_invalid-err (k ∷ ls) l e = rw e refl

module _ {E : Error → Type 0} (bad_line : (l : JournalLine) → E (invalid_line_amount l)) where
  validate-Within :
      (ls : List JournalLine)
      → (All IsPositive ls → IsDoubleEntry ls)
      → Within E (validate_journal_entry ls)
  validate-Within ls h = elim (Option-cases (invalid_line ls)) [
    | inl e ↦ rw ((validate_iff ls).1 (h ((valid_of_IsPositive ls).0 e))) (Within-ok tt)
    | inr (l, e) ↦ rw (raise_invalid-err ls l e) (Within-err _ (bad_line l))
  ]

  module _ (no_account : (i : ℕ) → E (account_not_found i))
      (no_suspense : (n : String) → E (account_number_not_found n))
      (no_rate : (b q : String) → E (fx_rate_not_found b q))
      (missing : (i : ℕ) → E (payment_not_found i))
      (refused : (from to : PaymentStatus) → E (invalid_payment_transition from to))
      (beaten : (i n : ℕ) → E (concurrent_payment_modification i n)) (unfit : E data_error) where
    add_version-Within :
        (i : ℕ) (a : Option Account) (rest : Result (List (ℕ × ℕ)))
        → Within E rest
        → Within E (add_version i a rest)
    add_version-Within i none rest h = Within-err _ (no_account i)
    add_version-Within i (some a) (ok vs) h = Within-ok _
    add_version-Within i (some a) (err e) h = Within-err e h.covered

    versions-Within : (is : List ℕ) (accounts : List Account) → Within E (versions_of is accounts)
    unfolding versions_of
    versions-Within [] accounts = Within-ok _
    versions-Within (i ∷ is) accounts =
        add_version-Within i (find_account i accounts) _ (versions-Within is accounts)

    get_account_versions-Raises : (is : List ℕ) → Raises E (get_account_versions is)
    unfolding get_account_versions
    get_account_versions-Raises is = Raises-query _ λ db. versions-Within is db.accounts

    insert_journal_entry-Raises : (entry : JournalEntry) → Raises E (insert_journal_entry entry)
    unfolding insert_journal_entry
    insert_journal_entry-Raises entry = Raises-statement _ λ db. Within-ok _

    bump_account_version-Raises : (i v : ℕ) → Raises E (bump_account_version i v)
    unfolding bump_account_version
    bump_account_version-Raises i v = Raises-statement _ λ db. Within-ok _

    bump_accounts-Raises : (vs : List (ℕ × ℕ)) → Raises E (bump_accounts vs)
    unfolding bump_accounts
    bump_accounts-Raises [] = Raises-pure _
    bump_accounts-Raises ((i, v) ∷ vs) =
        Raises-bind _ _ (bump_account_version-Raises i v)
          λ bumped. Raises-if bumped _ _ (bump_accounts-Raises vs) (Raises-pure _)

    update_unless-Raises :
        (conflict : Bool) (i v : ℕ) (to : PaymentStatus) → Raises E (update_unless conflict i v to)
    update_unless-Raises conflict i v to = search (raises_rules, update_payment_status-Raises)

    write_entry-Raises :
        (i : ℕ) (p : Payment) (to : PaymentStatus) (entry : JournalEntry) (o : Option (ℕ × ℤ))
        → Raises E (write_entry i p to entry o)
    unfolding write_entry
    write_entry-Raises i p to entry o =
        let never : optional fits_text none ≡ false → E data_error = λ h. unfit in
        search
          (
            attempt_raises, get_account_versions-Raises, insert_journal_entry-Raises,
            bump_accounts-Raises, update_unless-Raises, complete_transition-Raises, never,
          )
          depth 12

    post_and_update-Raises :
        (i : ℕ) (p : Payment) (to : PaymentStatus) (built : BuildLinesResult)
        → Balances built
        → Raises E (post_and_update i p to built)
    unfolding post_and_update
    post_and_update-Raises i p to built h =
        Raises-then _ _ (Raises-lift _ (validate-Within built.lines h))
          (write_entry-Raises i p to _ _)

    with_ledger_entry-Raises :
        (i : ℕ) (to : PaymentStatus) (build : BuildLines) (n : ℕ)
        → ((p : Payment) → Raises E (build p))
        → ((p : Payment) → Gives Balances (build p))
        → Raises E (transition_with_ledger_entry i to build n)
    unfolding transition_with_ledger_entry ledger_attempt
    with_ledger_entry-Raises i to build n h g = Raises-retry n _ _ (beaten i n) (
        Raises-bind _ _ (get_payment-Raises i (missing i)) λ p.
          Raises-then _ _ (Raises-lift _ (allowed-Within p.status to (refused p.status to)))
            (Raises-bind_Gives Balances _ _ (h p) (g p) (post_and_update-Raises i p to)))

    or_no_rate-Within : (b q : String) (r : Option FxRate) → Within E (or_no_rate b q r)
    or_no_rate-Within b q none = Within-err _ (no_rate b q)
    or_no_rate-Within b q (some r) = Within-ok r

    get_latest_rate-Raises : (b q : String) → Raises E (get_latest_rate b q)
    unfolding get_latest_rate
    get_latest_rate-Raises b q = Raises-query _ λ db. or_no_rate-Within b q (latest b q db.fx_rates)

    fx_settlement-Raises : (p : Payment) (d c : Account) → Raises E (fx_settlement p d c)
    unfolding fx_settlement
    fx_settlement-Raises p d c =
        search
          (
            raises_rules, get_latest_rate-Raises, get_account_by_number-Raises, no_suspense,
            set_fx_details-Raises, unfit,
          )
          depth 9

    settlement_lines-Raises : (p : Payment) → Raises E (settlement_lines p)
    unfolding settlement_lines
    settlement_lines-Raises p =
        search (raises_rules, get_account-Raises, no_account, fx_settlement-Raises) depth 9

    reversal_by_booking-Raises : (b : Option ℤ) (p : Payment) → Raises E (reversal_by_booking b p)
    unfolding fx_reversal
    reversal_by_booking-Raises none p = Raises-pure _
    reversal_by_booking-Raises (some x) p =
        search
          (raises_rules, get_account-Raises, no_account, get_account_by_number-Raises, no_suspense)
          depth 9

    pub settle_payment-Raises : (i n : ℕ) → Raises E (settle_payment i n)
    unfolding settle_payment
    settle_payment-Raises i n =
        with_ledger_entry-Raises i PaymentStatus.settled _ n settlement_lines-Raises
          settlement_lines-Balances

    pub reverse_payment-Raises : (i n : ℕ) → Raises E (reverse_payment i n)
    unfolding reverse_payment reversal_lines
    reverse_payment-Raises i n =
        with_ledger_entry-Raises i PaymentStatus.reversed _ n
          (λ p. reversal_by_booking-Raises p.creditor_amount p)
          (λ p. reversal_by_booking-Balances p.creditor_amount p)
