-- ===== src/Qr/Sgqr.antt =====
-- app/infra/qr/sgqr.py: `build_sgqr`. How Python prints a decimal, `str(amount)`, is a parameter. The
-- picture that the package qrcode makes of the payload is left out.
use instant_payment_ledger_a.Prelude.{
  Option, none, some, List, [], ◌∷◌, ◌++◌, String, ℤ, pos, leb_ℤ, str_eq, if◌then◌else◌, take, Text,
  codes,
}
use instant_payment_ledger_a.Entities.Errors.{
  Result, ok, err, unsupported_qr_currency, amount_not_positive,
}
use instant_payment_ledger_a.Entities.Results.{◌>>=◌}
use instant_payment_ledger_a.Qr.Tlv.{tlv}
use instant_payment_ledger_a.Qr.Checksum.{crc16_ccitt}

unfoldable pub currency_numeric : String → Option Text
currency_numeric currency =
    if str_eq currency "SGD"
    then some (codes "702")
    else (if str_eq currency "USD"
        then some (codes "840")
        else (if str_eq currency "EUR"
            then some (codes "978")
            else (if str_eq currency "GBP" then some (codes "826") else none)))

pub record SgqrRequest : Type 0 where
  pub account_number : Text
  pub merchant_name : Text
  pub merchant_city : Text
  pub currency : String
  pub amount : Option ℤ

-- `"".join` of calls that may raise: the first one that does ends it.
unfoldable pub join : List (Result Text) → Result Text
join [] = ok []
join (field ∷ fields) = do first ← field; rest ← join fields; ok (first ++ rest)

-- `amount is not None and amount <= 0`
unfoldable pub check_amount : Option ℤ → Result (Unit {0})
check_amount none = ok tt
check_amount (some amount) =
    if leb_ℤ amount (pos 0) then err (amount_not_positive amount) else ok tt

unfoldable pub numeric_code : String → Result Text
unfolding currency_numeric
numeric_code currency = elim (currency_numeric currency) [
  | some code ↦ ok code
  | none ↦ err (unsupported_qr_currency currency)
]

unfoldable pub merchant_account_info : Text → Result Text
unfolding join tlv
merchant_account_info account_number =
    join (tlv (codes "00") (codes "SG.PAYNOW") ∷ tlv (codes "01") account_number ∷ [])

abbrev pub point_of_initiation : Option ℤ → Text
point_of_initiation (some amount) = codes "12"
point_of_initiation none = codes "11"

module _ (str_amount : ℤ → Text) where
  abbrev pub amount_field : Option ℤ → List (Result Text)
  amount_field (some amount) = tlv (codes "54") (str_amount amount) ∷ []
  amount_field none = []

  abbrev pub sgqr_fields : SgqrRequest → Text → Text → List (Result Text)
  sgqr_fields request numeric info =
      (tlv (codes "00") (codes "01")
        ∷ tlv (codes "01") (point_of_initiation request.amount)
        ∷ tlv (codes "26") info
        ∷ tlv (codes "52") (codes "0000")
        ∷ tlv (codes "53") numeric
        ∷ [])
      ++ amount_field request.amount
      ++ (tlv (codes "58") (codes "SG")
          ∷ tlv (codes "59") (take 25 request.merchant_name)
          ∷ tlv (codes "60") (take 15 request.merchant_city)
          ∷ [])

  unfoldable pub build_sgqr : SgqrRequest → Result Text
  unfolding numeric_code check_amount merchant_account_info join tlv crc16_ccitt
  build_sgqr request = do
    numeric ← numeric_code request.currency
    _ ← check_amount request.amount
    info ← merchant_account_info request.account_number
    body ← join (sgqr_fields request numeric info)
    crc ← crc16_ccitt (body ++ codes "6304")
    ok ((body ++ codes "6304") ++ crc)
