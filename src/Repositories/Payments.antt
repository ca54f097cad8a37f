-- ===== src/Repositories/Payments.antt =====
-- app/infra/db/repositories/payment_repository.py.
use instant_payment_ledger_a.Prelude.{
  ℕ, ◌+◌, String, ℤ, pos, leb_ℤ, Bool, true, false, ◌&&◌, not, Option, none, some, List, [], ◌∷◌,
  ◌==◌, if◌then◌else◌,
}
use instant_payment_ledger_a.Entities.Ledger.{Account}
use instant_payment_ledger_a.Entities.Payments.{PaymentStatus, Payment}
use instant_payment_ledger_a.Entities.Errors.{Result, ok, err, payment_not_found, integrity_error}
use instant_payment_ledger_a.Database.Tables.{Db, PaymentStatusHistoryRow}
use instant_payment_ledger_a.Database.Columns.{
  fits_numeric, fits_text, fits_string, optional, storing,
}
use instant_payment_ledger_a.Database.Session.{Action, statement, query, execute}
use instant_payment_ledger_a.Repositories.Ledger.{fresh, find_account}

unfoldable pub find_payment : ℕ → List Payment → Option Payment
find_payment i [] = none
find_payment i (p ∷ ps) = if p.id == i then some p else find_payment i ps

abbrev pub is_account : ℕ → List Account → Bool
is_account i accounts = elim (find_account i accounts) [ none ↦ false | some a ↦ true ]

abbrev pub new_payment : ℕ → ℕ → ℕ → ℤ → String → Option String → Payment
new_payment i debtor creditor amount currency end_to_end_id = record {
  id = i;
  debtor_account_id = debtor;
  creditor_account_id = creditor;
  amount = amount;
  currency = currency;
  status = PaymentStatus.initiated;
  version = 0;
  end_to_end_id = end_to_end_id;
  fx_rate_id = none;
  creditor_amount = none;
}

-- The foreign keys to `accounts` and the check `amount > 0` of the table `payments`.
abbrev pub payment_row_allowed : ℕ → ℕ → ℤ → Db → Bool
payment_row_allowed debtor creditor amount db =
    is_account debtor db.accounts && is_account creditor db.accounts && not (leb_ℤ amount (pos 0))

-- The columns `amount`, `currency` and `end_to_end_id`.
abbrev pub payment_row_fits : ℤ → String → Option String → Bool
payment_row_fits amount currency end_to_end_id =
    fits_numeric amount && fits_string 3 currency && optional (fits_string 35) end_to_end_id

unfoldable pub insert_payment : ℕ → ℕ → ℤ → String → Option String → Db → Result Payment × Db
unfolding find_account
insert_payment debtor creditor amount currency end_to_end_id db =
    if payment_row_allowed debtor creditor amount db
    then (ok row, record db { payments = row ∷ db.payments; draws = db.draws + 1 })
    else (err integrity_error, db)
  where
    row : Payment
    row = new_payment (fresh db) debtor creditor amount currency end_to_end_id

unfoldable pub create_payment : ℕ → ℕ → ℤ → String → Option String → Action Payment
unfolding insert_payment
create_payment debtor_account_id creditor_account_id amount currency end_to_end_id =
    storing (payment_row_fits amount currency end_to_end_id) (
      statement
        (insert_payment debtor_account_id creditor_account_id amount currency end_to_end_id))

abbrev pub or_no_payment : ℕ → Option Payment → Result Payment
or_no_payment payment_id (some payment) = ok payment
or_no_payment payment_id none = err (payment_not_found payment_id)

unfoldable pub get_payment : ℕ → Action Payment
unfolding find_payment
get_payment payment_id = query λ db. or_no_payment payment_id (find_payment payment_id db.payments)

-- `UPDATE payments SET status = ..., version = version + 1 WHERE id = ... AND version = ...`
unfoldable pub set_status : ℕ → ℕ → PaymentStatus → List Payment → List Payment
set_status i v status [] = []
set_status i v status (p ∷ ps) =
    (if p.id == i && p.version == v
      then record p { status = status; version = p.version + 1 }
      else p)
    ∷ set_status i v status ps

-- `id` is the primary key, so `rowcount` is 1 exactly if the row of that identifier has the version.
unfoldable pub payment_is_current : ℕ → ℕ → List Payment → Bool
unfolding find_payment
payment_is_current i v payments = elim (find_payment i payments) [
  | none ↦ false
  | some p ↦ p.version == v
]

unfoldable pub update_payment_status : ℕ → ℕ → PaymentStatus → Action Bool
unfolding set_status payment_is_current
update_payment_status payment_id expected_version new_status = statement λ db. (
  ok (payment_is_current payment_id expected_version db.payments),
  record db { payments = set_status payment_id expected_version new_status db.payments },
)

unfoldable pub record_status_transition :
    ℕ → Option PaymentStatus → PaymentStatus → Option String → Action (Unit {0})
record_status_transition payment_id from_status to_status reason =
    storing (optional fits_text reason)
      (execute λ db. record db { payment_status_history = row db.now ∷ db.payment_status_history })
  where
    row : ℕ → PaymentStatusHistoryRow
    row now = record {
      payment_id = payment_id;
      from_status = from_status;
      to_status = to_status;
      transitioned_at = now;
      reason = reason;
    }

-- `UPDATE payments SET fx_rate_id = ..., creditor_amount = ... WHERE id = ...`
unfoldable pub book_fx : ℕ → ℕ → ℤ → List Payment → List Payment
book_fx i rate_id amount [] = []
book_fx i rate_id amount (p ∷ ps) =
    (if p.id == i then record p { fx_rate_id = some rate_id; creditor_amount = some amount } else p)
    ∷ book_fx i rate_id amount ps

unfoldable pub set_fx_details : ℕ → ℕ → ℤ → Action (Unit {0})
unfolding book_fx
set_fx_details payment_id fx_rate_id creditor_amount = storing (fits_numeric creditor_amount) (
    execute
      λ db. record db { payments = book_fx payment_id fx_rate_id creditor_amount db.payments })
