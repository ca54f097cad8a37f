-- ===== src/Qr/Errors.antt =====
-- app/infra/qr/sgqr.py: which errors `build_sgqr` may raise. `E` is a set of errors.
use instant_payment_ledger_a.Prelude.{String, ℤ, Option, none, some, [], ◌∷◌, ◌++◌, Text, codes}
use instant_payment_ledger_a.Entities.Errors.{
  Error, ok, err, unsupported_qr_currency, amount_not_positive, tlv_too_long, unicode_encode_error,
}
use instant_payment_ledger_a.Entities.Results.{
  Within, Within-ok, Within-err, Within-if, Within-bind,
}
use instant_payment_ledger_a.Qr.Python.{Fields}
use instant_payment_ledger_a.Qr.Tlv.{tlv}
use instant_payment_ledger_a.Qr.Fields.{sgqr_items, tlvs, tlvs-sgqr_items}
use instant_payment_ledger_a.Qr.Checksum.{crc16_ccitt}
use instant_payment_ledger_a.Qr.Sgqr.{
  SgqrRequest, currency_numeric, numeric_code, check_amount, join, merchant_account_info,
  sgqr_fields, build_sgqr,
}

module _ {E : Error → Type 0} (unsupported : (c : String) → E (unsupported_qr_currency c))
    (not_positive : (x : ℤ) → E (amount_not_positive x))
    (too_long : (tag value : Text) → E (tlv_too_long tag value))
    (not_ascii : E unicode_encode_error) where
  tlv-Within : (tag value : Text) → Within E (tlv tag value)
  unfolding tlv
  tlv-Within tag value = Within-if _ _ _ (Within-ok _) (Within-err _ (too_long tag value))

  crc-Within : (text : Text) → Within E (crc16_ccitt text)
  unfolding crc16_ccitt
  crc-Within text = Within-if _ _ _ (Within-ok _) (Within-err _ not_ascii)

  join-tlvs-Within : (items : Fields) → Within E (join (tlvs items))
  unfolding join
  join-tlvs-Within [] = Within-ok _
  join-tlvs-Within ((tag, value) ∷ items) =
      Within-bind (tlv tag value) _ (tlv-Within tag value) λ first e1.
        Within-bind (join (tlvs items)) _ (join-tlvs-Within items) λ rest e2. Within-ok _

  numeric-Within :
      (currency : String) (code : Option Text)
      → Within E (elim code [ some c ↦ ok c | none ↦ err (unsupported_qr_currency currency) ])
  numeric-Within currency none = Within-err _ (unsupported currency)
  numeric-Within currency (some c) = Within-ok c

  check_amount-Within : (amount : Option ℤ) → Within E (check_amount amount)
  unfolding check_amount
  check_amount-Within none = Within-ok tt
  check_amount-Within (some x) = Within-if _ _ _ (Within-err _ (not_positive x)) (Within-ok tt)

  fields-Within :
      (str_amount : ℤ → Text) (request : SgqrRequest) (numeric info : Text)
      → Within E (join (sgqr_fields str_amount request numeric info))
  fields-Within str_amount request numeric info =
      rw (tlvs-sgqr_items str_amount request numeric info)
        (join-tlvs-Within (sgqr_items str_amount request numeric info))

  pub build_sgqr-Within :
      (str_amount : ℤ → Text) (request : SgqrRequest) → Within E (build_sgqr str_amount request)
  unfolding build_sgqr numeric_code merchant_account_info
  build_sgqr-Within str_amount request =
      Within-bind (numeric_code request.currency) _
        (numeric-Within request.currency (currency_numeric request.currency))
        λ numeric e1.
          Within-bind (check_amount request.amount) _ (check_amount-Within request.amount) λ u e2.
            Within-bind (merchant_account_info request.account_number) _
              (join-tlvs-Within
                ((codes "00", codes "SG.PAYNOW") ∷ (codes "01", request.account_number) ∷ []))
              λ info e3.
                Within-bind (join (sgqr_fields str_amount request numeric info)) _
                  (fields-Within str_amount request numeric info)
                  λ body e4.
                    Within-bind (crc16_ccitt (body ++ codes "6304")) _
                      (crc-Within (body ++ codes "6304")) λ crc e5. Within-ok _
