-- ===== src/Qr/Tlv.antt =====
-- app/infra/qr/sgqr.py: `_tlv` and `parse_tlv`.
use instant_payment_ledger_a.Prelude.{
  ℕ, zero, suc, ◌+◌, ◌/◌, ◌%◌, Option, none, some, [], ◌∷◌, ◌++◌, ℤ, pos, ◌+ℤ◌, ltb_ℤ, leb,
  if◌then◌else◌, length, Text,
}
use instant_payment_ledger_a.Entities.Errors.{Result, ok, err, tlv_too_long}
use instant_payment_ledger_a.Qr.Python.{Unicode, slice, int, Fields, set_field}

-- `f"{n:02d}"` for n up to 99
unfoldable pub two_digits : ℕ → Text
two_digits n = (b'0' + n / 10) ∷ (b'0' + n % 10) ∷ []

unfoldable pub tlv : Text → Text → Result Text
tlv tag value =
    if leb (length value) 99
    then ok (tag ++ two_digits (length value) ++ value)
    else err (tlv_too_long tag value)

-- The loop, for at most as many rounds as the second argument says: `none` is a loop that has not ended by then.
unfoldable pub parse_from : Unicode → ℕ → Text → ℤ → Fields → Option (Result Fields)
parse_from unicode zero payload i fields = none
parse_from unicode (suc rounds) payload i fields =
    if ltb_ℤ i (pos (length payload))
    then (elim (int unicode (slice payload (i +ℤ pos 2) (i +ℤ pos 4))) [
      | err e ↦ some (err e)
      | ok n ↦ parse_from unicode rounds payload (i +ℤ (pos 4 +ℤ n)) (
          set_field (slice payload i (i +ℤ pos 2)) (slice payload (i +ℤ pos 4) (i +ℤ pos 4 +ℤ n))
            fields)
    ])
    else some (ok fields)

unfoldable pub parse_tlv : Unicode → ℕ → Text → Option (Result Fields)
unfolding parse_from
parse_tlv unicode rounds payload = parse_from unicode rounds payload (pos 0) []
