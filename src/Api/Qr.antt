-- ===== src/Api/Qr.antt =====
-- app/api/v1/qr.py and app/api/schemas/qr.py. The answer is the payload of the header; the picture is
-- left out.
use Prim.Native.String.{count}
use instant_payment_ledger_a.Prelude.{
  ℕ, String, ℤ, pos, leb_ℤ, leb, Bool, true, not, ◌&&◌, Option, none, some, if◌then◌else◌, Text,
  codes,
}
use instant_payment_ledger_a.Entities.Ledger.{Account}
use instant_payment_ledger_a.Entities.Errors.{
  Error, account_not_found, account_number_not_found, tlv_too_long, unsupported_qr_currency,
  amount_not_positive,
}
use instant_payment_ledger_a.Database.Session.{lift, transaction, ◌>>=◌}
use instant_payment_ledger_a.Repositories.Ledger.{get_account}
use instant_payment_ledger_a.Qr.Sgqr.{SgqrRequest, build_sgqr}
use instant_payment_ledger_a.Api.{invalid_body, Endpoint, endpoint}

pub record GenerateQrRequest : Type 0 where
  pub account_id : ℕ
  pub amount : Option ℤ
  pub merchant_city : String

abbrev is_positive : Option ℤ → Bool
is_positive none = true
is_positive (some amount) = not (leb_ℤ amount (pos 0))

unfoldable pub is_valid_qr_request : GenerateQrRequest → Bool
is_valid_qr_request body = is_positive body.amount && leb (count body.merchant_city) 15

-- `except AccountNotFoundError`, and `except SgqrError`: the two calls raise different errors.
unfoldable pub generate_qr_status : Error → Option ℕ
generate_qr_status (account_not_found i) = some 404
generate_qr_status (account_number_not_found n) = some 404
generate_qr_status (tlv_too_long tag value) = some 422
generate_qr_status (unsupported_qr_currency currency) = some 422
generate_qr_status (amount_not_positive amount) = some 422
generate_qr_status _ = none

abbrev pub sgqr_request : GenerateQrRequest → Account → SgqrRequest
sgqr_request body account = record {
  account_number = codes account.account_number;
  merchant_name = codes account.owner_name;
  merchant_city = codes body.merchant_city;
  currency = account.currency;
  amount = body.amount;
}

unfoldable pub generate_qr : (ℤ → Text) → GenerateQrRequest → Endpoint Text
unfolding is_valid_qr_request endpoint generate_qr_status
generate_qr str_amount body s =
    if is_valid_qr_request body
    then endpoint 200 generate_qr_status
        (transaction do
          account ← get_account body.account_id
          lift (build_sgqr str_amount (sgqr_request body account)))
        s
    else (invalid_body, s)
