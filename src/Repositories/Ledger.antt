-- ===== src/Repositories/Ledger.antt =====
-- app/infra/db/repositories/ledger_repository.py.
pub mod Accounts
pub mod Bumped
use instant_payment_ledger_a.Prelude.{
  ℕ, ◌+◌, String, ℤ, pos, ◌+ℤ◌, Bool, true, false, ◌&&◌, not, Option, none, some, List, [], ◌∷◌,
  ◌++◌, map, ◌==◌, str_eq, if◌then◌else◌,
}
use instant_payment_ledger_a.Entities.Ledger.{
  Direction, Account, JournalLine, JournalEntry, signed, contains,
}
use instant_payment_ledger_a.Entities.Errors.{
  Result, ok, err, account_not_found, account_number_not_found, integrity_error,
}
use instant_payment_ledger_a.Database.Tables.{Db, JournalEntryRow, JournalLineRow}
use instant_payment_ledger_a.Database.Session.{Action, statement, query, ◌>>=◌, pure}

unfoldable pub find_account : ℕ → List Account → Option Account
find_account i [] = none
find_account i (a ∷ as') = if a.id == i then some a else find_account i as'

unfoldable pub find_number : String → List Account → Option Account
find_number n [] = none
find_number n (a ∷ as') = if str_eq a.account_number n then some a else find_number n as'

-- The next `uuid.uuid4()`.
abbrev pub fresh : Db → ℕ
fresh db = db.uuid4 db.draws

-- `account_number` is unique: a second row with the same one is an `IntegrityError`.
unfoldable pub insert_account : String → String → String → String → Db → Result Account × Db
unfolding find_number
insert_account account_number owner_name account_type currency db =
    elim (find_number account_number db.accounts) [
      | some taken ↦ (err integrity_error, db)
      | none ↦ (ok row, record db { accounts = row ∷ db.accounts; draws = db.draws + 1 })
    ]
  where
    row : Account
    row = record {
      id = fresh db;
      account_number = account_number;
      owner_name = owner_name;
      account_type = account_type;
      currency = currency;
      status = "active";
      version = 0;
    }

unfoldable pub create_account : String → String → String → String → Action Account
unfolding insert_account
create_account account_number owner_name account_type currency =
    statement (insert_account account_number owner_name account_type currency)

abbrev pub or_not_found : Option Account → Result Account → Result Account
or_not_found (some account) e = ok account
or_not_found none e = e

unfoldable pub get_account : ℕ → Action Account
unfolding find_account
get_account account_id =
    query
      λ db. or_not_found (find_account account_id db.accounts) (err (account_not_found account_id))

unfoldable pub get_account_by_number : String → Action Account
unfolding find_number
get_account_by_number account_number = query λ db.
    or_not_found (find_number account_number db.accounts)
      (err (account_number_not_found account_number))

abbrev pub add_version : ℕ → Option Account → Result (List (ℕ × ℕ)) → Result (List (ℕ × ℕ))
add_version i none rest = err (account_not_found i)
add_version i (some a) (ok versions) = ok ((i, a.version) ∷ versions)
add_version i (some a) (err e) = err e

-- The identifiers with their versions, or the error for one that no row has.
unfoldable pub versions_of : List ℕ → List Account → Result (List (ℕ × ℕ))
unfolding find_account
versions_of [] accounts = ok []
versions_of (i ∷ is) accounts = add_version i (find_account i accounts) (versions_of is accounts)

unfoldable pub get_account_versions : List ℕ → Action (List (ℕ × ℕ))
unfolding versions_of
get_account_versions account_ids = query λ db. versions_of account_ids db.accounts

-- `SUM(CASE WHEN direction = 'credit' THEN amount ELSE -amount END)` over the matching rows.
unfoldable pub balance : ℕ → String → List JournalLineRow → ℤ
balance account_id currency [] = pos 0
balance account_id currency (l ∷ ls) =
    let rest = balance account_id currency ls in
    if l.account_id == account_id && str_eq l.currency currency
    then signed l.direction l.amount +ℤ rest
    else rest

unfoldable pub get_balance : ℕ → String → Action ℤ
unfolding balance
get_balance account_id currency = query λ db. ok (balance account_id currency db.journal_lines)

abbrev pub line_row : ℕ → JournalLine → JournalLineRow
line_row entry_id line = record {
  journal_entry_id = entry_id;
  account_id = line.account_id;
  direction = line.direction;
  amount = line.amount;
  currency = line.currency;
}

abbrev pub entry_row : ℕ → JournalEntry → JournalEntryRow
entry_row i entry = record {
  id = i;
  payment_id = entry.payment_id;
  entry_type = entry.entry_type;
  idempotency_key_id = entry.idempotency_key_id;
}

-- The entry's row and its lines' rows.
unfoldable pub add_entry : JournalEntry → Db → Db
add_entry entry db = record db {
  journal_entries = entry_row (fresh db) entry ∷ db.journal_entries;
  journal_lines = map (line_row (fresh db)) entry.lines ++ db.journal_lines;
  draws = db.draws + 1;
}

-- The services post amounts that come from columns of the type of `amount`, so that they fit.
unfoldable pub insert_journal_entry : JournalEntry → Action ℕ
unfolding add_entry
insert_journal_entry entry = statement λ db. (ok (fresh db), add_entry entry db)

abbrev pub has_version : ℕ → ℕ → Account → Bool
has_version i v a = a.id == i && a.version == v

-- `UPDATE accounts SET version = version + 1 WHERE id = ... AND version = ...`
unfoldable pub bump_version : ℕ → ℕ → List Account → List Account
bump_version i v [] = []
bump_version i v (a ∷ as') =
    (if has_version i v a then record a { version = a.version + 1 } else a) ∷ bump_version i v as'

-- Some row has this identifier and version. `id` is the primary key, so `rowcount` is 1 exactly then.
unfoldable pub version_is_current : ℕ → ℕ → List Account → Bool
unfolding find_account
version_is_current i v accounts = elim (find_account i accounts) [
  | none ↦ false
  | some a ↦ a.version == v
]

unfoldable pub bump_account_version : ℕ → ℕ → Action Bool
unfolding bump_version version_is_current
bump_account_version account_id expected_version = statement λ db. (
  ok (version_is_current account_id expected_version db.accounts),
  record db { accounts = bump_version account_id expected_version db.accounts },
)
