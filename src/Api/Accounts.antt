-- ===== src/Api/Accounts.antt =====
-- app/api/v1/accounts.py and app/api/schemas/accounts.py.
use instant_payment_ledger_a.Prelude.{
  ℕ, String, ℤ, Bool, true, false, ◌&&◌, Option, none, some, if◌then◌else◌,
}
use instant_payment_ledger_a.Entities.Ledger.{Account}
use instant_payment_ledger_a.Entities.Errors.{
  Error, Result, err, account_not_found, account_number_not_found, integrity_error,
}
use instant_payment_ledger_a.Database.Session.{
  Session, Action, pure, commit, rollback, transaction, ◌>>=◌, ◌>>◌,
}
use instant_payment_ledger_a.Repositories.Ledger.{
  create_account as insert_account_row, get_account as find_account_row, get_balance,
}
use instant_payment_ledger_a.Api.{invalid_body, Endpoint, endpoint, length_between}

pub record CreateAccountRequest : Type 0 where
  pub account_number : String
  pub owner_name : String
  pub account_type : String
  pub currency : String

unfoldable pub is_valid_account_request : CreateAccountRequest → Bool
is_valid_account_request body =
    length_between 1 34 body.account_number
    && length_between 1 255 body.owner_name
    && length_between 1 20 body.account_type
    && length_between 3 3 body.currency

unfoldable pub create_account_status : Error → Option ℕ
create_account_status integrity_error = some 409
create_account_status _ = none

abbrev pub is_integrity_error : {A : Type 0} → Result A → Bool
is_integrity_error (err integrity_error) = true
is_integrity_error _ = false

abbrev pub rolled_back_if : Bool → Session → Session
rolled_back_if true s = (rollback s).1
rolled_back_if false s = s

-- `except IntegrityError: await session.rollback()`, and the error goes on.
abbrev pub undo_integrity_error : {A : Type 0} → Action A → Action A
undo_integrity_error m s = let (r, t) = m s in (r, rolled_back_if (is_integrity_error r) t)

-- The `try` block.
unfoldable pub add_account : (String → String) → CreateAccountRequest → Action Account
add_account upper body = do
  account ←
      insert_account_row body.account_number body.owner_name body.account_type (upper body.currency)
  commit
  pure account

unfoldable pub create_account : (String → String) → CreateAccountRequest → Endpoint Account
unfolding is_valid_account_request add_account endpoint create_account_status
create_account upper body s =
    if is_valid_account_request body
    then endpoint 201 create_account_status
        (transaction (undo_integrity_error (add_account upper body))) s
    else (invalid_body, s)

unfoldable pub get_account_status : Error → Option ℕ
get_account_status (account_not_found i) = some 404
get_account_status (account_number_not_found n) = some 404
get_account_status _ = none

unfoldable pub get_account : ℕ → Endpoint Account
unfolding endpoint get_account_status
get_account account_id = endpoint 200 get_account_status (transaction (find_account_row account_id))

pub record AccountBalanceResponse : Type 0 where
  pub account_id : ℕ
  pub currency : String
  pub balance : ℤ

unfoldable pub get_account_balance :
    (String → String) → ℕ → String → Endpoint AccountBalanceResponse
unfolding endpoint get_account_status
get_account_balance upper account_id currency = endpoint 200 get_account_status (
    transaction do
      found ← find_account_row account_id
      balance ← get_balance account_id (upper currency)
      pure (record { account_id = account_id; currency = upper currency; balance = balance }))
