-- ===== src/Tests/Qr.antt =====
-- Payment QR codes at concrete texts.
use instant_payment_ledger_a.Prelude.{
  ◌≡◌, ◌≢◌, refl, true, false, none, some, [], ◌∷◌, ◌++◌, arith, ℤ, pos, Text, codes,
}
use instant_payment_ledger_a.Entities.Errors.{Result, ok}
use instant_payment_ledger_a.Qr.Python.{Unicode, Fields, clamp, slice}
use instant_payment_ledger_a.Qr.Tlv.{two_digits, parse_tlv}
use instant_payment_ledger_a.Qr.Checksum.{
  crc16_ccitt, verify_crc, hex, hex_digit, crc_bytes, crc_byte, crc_rounds, crc_round,
}
use instant_payment_ledger_a.Qr.Sgqr.{SgqrRequest, currency_numeric, build_sgqr}
use instant_payment_ledger_a.Qr.Guarantees.{scanned, parse_tlv-build_sgqr, verify_crc-build_sgqr}
use instant_payment_ledger_a.Qr.Corruption.{verify_crc_one_character}
use instant_payment_ledger_a.Qr.Rounds.{NoMinus, parse_tlv_ends, parse_tlv_endless}

-- No digits and no spaces beyond ASCII.
abbrev ascii : Unicode
ascii = record { decimal = λ c. none; space = λ c. false }

-- The check value of CRC-16/CCITT-FALSE.
check_value : crc16_ccitt (codes "123456789") ≡ ok (codes "29B1")
unfolding crc16_ccitt hex hex_digit crc_bytes crc_byte crc_rounds crc_round
check_value = refl

abbrev str_amount : ℤ → Text
str_amount amount = codes "12.50"

abbrev request : SgqrRequest
request = record {
  account_number = codes "SG-001";
  merchant_name = codes "Kopi Stall";
  merchant_city = codes "Singapore";
  currency = "SGD";
  amount = some (pos 1250);
}

abbrev payload : Text
payload =
    codes "00020101021226230009SG.PAYNOW0106SG-001520400005"
    ++ codes "303702540512.505802SG5910Kopi Stall6009Singapore63043223"

built : build_sgqr str_amount request ≡ ok payload
unfolding build_sgqr two_digits crc16_ccitt hex hex_digit crc_bytes crc_byte crc_rounds crc_round
built = refl

parse_tlv-build_sgqr_example :
    (numeric : Text) × (info : Text) × (crc : Text) × (currency_numeric "SGD" ≡ some numeric)
    × (parse_tlv ascii 11 payload ≡ some (ok (scanned str_amount request numeric info crc)))
    × (parse_tlv ascii 11 info
        ≡ some (ok ((codes "00", codes "SG.PAYNOW") ∷ (codes "01", codes "SG-001") ∷ [])))
parse_tlv-build_sgqr_example =
    parse_tlv-build_sgqr str_amount ascii request payload 11 (omega arith) built

verify_crc-build_sgqr_example : verify_crc payload ≡ ok true
verify_crc-build_sgqr_example = verify_crc-build_sgqr str_amount request payload built

check_accepted : verify_crc (codes "123456789" ++ codes "29B1") ≡ ok true
unfolding verify_crc crc16_ccitt hex hex_digit crc_bytes crc_byte crc_rounds crc_round slice clamp
check_accepted = refl

verify_crc_one_character_example : verify_crc (codes "12X456789" ++ codes "29B1") ≢ ok true
verify_crc_one_character_example =
    verify_crc_one_character (codes "12") (codes "456789") (codes "29B1") b'3' b'X' refl
      (λ e. ground (arith, e)) check_accepted

no_minus : NoMinus (codes "0002AB")
no_minus = (
  λ e. ground (arith, e),
  (
    λ e. ground (arith, e),
    (
      λ e. ground (arith, e),
      (λ e. ground (arith, e), (λ e. ground (arith, e), (λ e. ground (arith, e), tt))),
    ),
  ),
)

parse_tlv_ends_example :
    (result : Result Fields) × (parse_tlv ascii 8 (codes "0002AB") ≡ some result)
parse_tlv_ends_example = parse_tlv_ends ascii (codes "0002AB") 7 no_minus (omega arith)

parse_tlv_endless_example : parse_tlv ascii 1000 (codes "59-4Kopi") ≡ none
parse_tlv_endless_example = parse_tlv_endless ascii b'5' b'9' (codes "Kopi") 1000
