-- ===== src/Qr/Checksum.antt =====
-- app/infra/qr/sgqr.py: `_crc16_ccitt` and `verify_crc`. A register of 16 bits is a number below 2 ^ 16.
use Prim.Native.Nat.{bit_and, bit_xor}
use instant_payment_ledger_a.Prelude.{
  ℕ, zero, suc, ◌+◌, ◌-◌, ◌*◌, ◌/◌, ◌%◌, ◌^◌, Bool, true, ◌&&◌, [], ◌∷◌, pos, negsuc, ◌==◌, ltb,
  if◌then◌else◌, length, Text,
}
use instant_payment_ledger_a.Entities.Errors.{Result, ok, err, unicode_encode_error}
use instant_payment_ledger_a.Qr.Python.{slice, text_eq}

abbrev pub is_ascii : Text → Bool
is_ascii [] = true
is_ascii (c ∷ cs) = ltb c 128 && is_ascii cs

-- One of the eight rounds for a byte; `& 0xFFFF` is the remainder by 2 ^ 16.
unfoldable pub crc_round : ℕ → ℕ
crc_round crc =
    if bit_and crc 0x8000 == 0 then crc * 2 % 2 ^ 16 else bit_xor (crc * 2) 0x1021 % 2 ^ 16

unfoldable pub crc_rounds : ℕ → ℕ → ℕ
crc_rounds zero crc = crc
crc_rounds (suc n) crc = crc_rounds n (crc_round crc)

unfoldable pub crc_byte : ℕ → ℕ → ℕ
crc_byte crc byte = crc_rounds 8 (bit_xor crc (byte * 2 ^ 8))

unfoldable pub crc_bytes : ℕ → Text → ℕ
crc_bytes crc [] = crc
crc_bytes crc (byte ∷ text) = crc_bytes (crc_byte crc byte) text

unfoldable pub hex_digit : ℕ → ℕ
hex_digit d = if ltb d 10 then b'0' + d else b'A' + (d - 10)

-- `f"{crc:04X}"` for a register of 16 bits
unfoldable pub hex : ℕ → Text
hex crc =
    hex_digit (crc / 2 ^ 12)
    ∷ hex_digit (crc / 2 ^ 8 % 16)
    ∷ hex_digit (crc / 2 ^ 4 % 16)
    ∷ hex_digit (crc % 16)
    ∷ []

unfoldable pub crc16_ccitt : Text → Result Text
crc16_ccitt text =
    if is_ascii text then ok (hex (crc_bytes 0xFFFF text)) else err unicode_encode_error

unfoldable pub verify_crc : Text → Result Bool
verify_crc payload = elim (crc16_ccitt (slice payload (pos 0) (negsuc 3))) [
  | ok crc ↦ ok (text_eq crc (slice payload (negsuc 3) (pos (length payload))))
  | err e ↦ err e
]
