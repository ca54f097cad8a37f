-- ===== src/Api/Iso20022.antt =====
-- app/api/v1/iso20022.py.
use instant_payment_ledger_a.Prelude.{ℕ, String, Option, none, some}
use instant_payment_ledger_a.Entities.Ledger.{Account}
use instant_payment_ledger_a.Entities.Payments.{PaymentResponse, payment_response_dict}
use instant_payment_ledger_a.Entities.Errors.{
  Error, doctype_not_permitted, malformed_xml, missing_fields, missing_currency, invalid_amount,
  account_not_found, account_number_not_found, invalid_payment_amount, same_payment_account,
  integrity_error, payment_not_found, payment_not_settled,
}
use instant_payment_ledger_a.Database.Session.{Session, Action, pure, lift, transaction, ◌>>=◌}
use instant_payment_ledger_a.Repositories.Ledger.{get_account, get_account_by_number}
use instant_payment_ledger_a.Repositories.Payments.{get_payment}
use instant_payment_ledger_a.Payments.Services.Initiate.{PaymentRequest, initiate_payment}
use instant_payment_ledger_a.Iso20022.Pain001.{Xml, Reader, Pain001CreditTransfer, parse_pain001}
use instant_payment_ledger_a.Iso20022.Pacs008.{Printer, build_pacs008}
use instant_payment_ledger_a.Api.{
  Response, answered, invalid_body, refused, uncaught, Endpoint, endpoint,
}

-- `except Pain001ParseError`
unfoldable pub parse_status : Error → Option ℕ
parse_status doctype_not_permitted = some 400
parse_status malformed_xml = some 400
parse_status (missing_fields names) = some 400
parse_status missing_currency = some 400
parse_status (invalid_amount text) = some 400
parse_status _ = none

-- `except AccountNotFoundError`
unfoldable pub lookup_status : Error → Option ℕ
lookup_status (account_not_found i) = some 404
lookup_status (account_number_not_found number) = some 404
lookup_status _ = none

-- The `except` clauses around `initiate_payment`.
unfoldable pub initiate_status : Error → Option ℕ
initiate_status (invalid_payment_amount amount) = some 422
initiate_status (same_payment_account i) = some 422
initiate_status integrity_error = some 404
initiate_status _ = none

-- The rest of a handler, after a `try` statement that did not end it.
abbrev pub go_on : {A B : Type 0} → Response A × Session → (A → Endpoint B) → Response B × Session
go_on (answered code a, s) rest = rest a s
go_on (invalid_body, s) rest = (invalid_body, s)
go_on (refused code e, s) rest = (refused code e, s)
go_on (uncaught e, s) rest = (uncaught e, s)

unfoldable pub find_parties : Pain001CreditTransfer → Action (Account × Account)
find_parties transfer = do
  debtor ← get_account_by_number transfer.debtor_account_number
  creditor ← get_account_by_number transfer.creditor_account_number
  pure (debtor, creditor)

abbrev pub payment_request : Pain001CreditTransfer → Account × Account → PaymentRequest
payment_request transfer (debtor, creditor) = record {
  debtor_account_id = debtor.id;
  creditor_account_id = creditor.id;
  amount = transfer.amount;
  currency = transfer.currency;
  end_to_end_id = some transfer.end_to_end_id;
}

unfoldable pub initiate_transfer :
    Pain001CreditTransfer → Account × Account → Endpoint PaymentResponse
unfolding endpoint initiate_status
initiate_transfer transfer parties = endpoint 201 initiate_status (do
  payment ← initiate_payment (payment_request transfer parties)
  pure (payment_response_dict payment))

unfoldable pub resolve_transfer : Pain001CreditTransfer → Endpoint PaymentResponse
unfolding endpoint lookup_status find_parties initiate_transfer
resolve_transfer transfer s =
    go_on (endpoint 200 lookup_status (transaction (find_parties transfer)) s)
      (initiate_transfer transfer)

unfoldable pub ingest_pain001 : Xml → Reader → String → Endpoint PaymentResponse
unfolding endpoint parse_status resolve_transfer
ingest_pain001 xml reader body s =
    go_on (endpoint 200 parse_status (lift (parse_pain001 xml reader body)) s) resolve_transfer

unfoldable pub emit_status : Error → Option ℕ
emit_status (payment_not_found i) = some 404
emit_status (payment_not_settled status) = some 409
emit_status _ = none

-- Only the read of the payment and the emission stand in a `try`, and they raise different errors.
unfoldable pub emit_pacs008 : Printer → ℕ → Endpoint String
unfolding endpoint emit_status
emit_pacs008 printer payment_id = endpoint 200 emit_status (
    transaction do
      payment ← get_payment payment_id
      debtor ← get_account payment.debtor_account_id
      creditor ← get_account payment.creditor_account_id
      lift (
          build_pacs008 printer payment (record {
            debtor_account_number = debtor.account_number;
            debtor_name = debtor.owner_name;
            creditor_account_number = creditor.account_number;
            creditor_name = creditor.owner_name;
          })))
