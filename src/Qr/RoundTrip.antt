-- ===== src/Qr/RoundTrip.antt =====
-- app/infra/qr/sgqr.py: `parse_tlv` reads what `_tlv` writes.
use instant_payment_ledger_a.Prelude.{
  ℕ, zero, suc, ◌+◌, ◌≤◌, ◌<◌, ◌≡◌, refl, sym, ap, ◌∙◌, true, false, some, [], ◌∷◌, ◌++◌, ℤ, pos,
  ◌+ℤ◌, +ℤ_pos, ltb_ℤ, length, length-append, All, Text, arith,
}
use instant_payment_ledger_a.Entities.Errors.{ok}
use instant_payment_ledger_a.Qr.Python.{Unicode, slice, int, Fields, set_field}
use instant_payment_ledger_a.Qr.Tlv.{two_digits, parse_from}
use instant_payment_ledger_a.Qr.Slices.{slice_middle, int-two_digits}
use mathlib.Core.List.{append_assoc}

abbrev pub entry : Text → Text → Text
entry tag value = tag ++ two_digits (length value) ++ value

abbrev pub encoded : Fields → Text
encoded [] = []
encoded ((tag, value) ∷ fields) = entry tag value ++ encoded fields

abbrev pub set_all : Fields → Fields → Fields
set_all fields [] = fields
set_all fields ((tag, value) ∷ items) = set_all (set_field tag value fields) items

abbrev pub IsField : Text × Text → Type 0
IsField (tag, value) = (length tag ≡ 2) × (length value ≤ 99)

length-two_digits : (n : ℕ) → length (two_digits n) ≡ 2
unfolding two_digits
length-two_digits n = refl

-- A slice of a text that is known to have a piece between the two indices.
pub piece :
    (payload xs ys zs : Text) {i j : ℤ}
    → i ≡ pos (length xs)
    → j ≡ pos (length xs + length ys)
    → payload ≡ xs ++ (ys ++ zs)
    → slice payload i j ≡ ys
piece payload xs ys zs hi hj e =
    rw e (rw hi (rw hj (slice_middle xs ys zs (length xs) (length xs + length ys) refl refl)))

module _ (unicode : Unicode) where
  -- One round, when there is text left and its length is a number.
  pub one_round :
      (rounds : ℕ) (payload : Text) (i n j : ℤ) (fields : Fields)
      → ltb_ℤ i (pos (length payload)) ≡ true
      → int unicode (slice payload (i +ℤ pos 2) (i +ℤ pos 4)) ≡ ok n
      → i +ℤ (pos 4 +ℤ n) ≡ j
      → parse_from unicode (suc rounds) payload i fields
        ≡ parse_from unicode rounds payload j (
            set_field
              (slice payload i (i +ℤ pos 2))
              (slice payload (i +ℤ pos 4) (i +ℤ pos 4 +ℤ n))
              fields)
  unfolding parse_from
  one_round rounds payload i n j fields more number next = rw (sym next) (rw more (rw number refl))

  pub last_round :
      (rounds : ℕ) (payload : Text) (i : ℤ) (fields : Fields)
      → ltb_ℤ i (pos (length payload)) ≡ false
      → parse_from unicode (suc rounds) payload i fields ≡ some (ok fields)
  unfolding parse_from
  last_round rounds payload i fields done = rw done refl

  -- A field between what has been read and the rest.
  module _ (before tag value rest : Text) (valid : IsField (tag, value)) where
    abbrev payload : Text
    payload = before ++ (entry tag value ++ rest)

    the_tag : slice payload (pos (length before)) (pos (length before) +ℤ pos 2) ≡ tag
    the_tag =
        piece payload before tag (two_digits (length value) ++ (value ++ rest)) refl
          (+ℤ_pos (length before) 2 ∙ ap pos (omega arith)) (simp append_assoc refl)

    the_length :
        int unicode (slice payload (pos (length before) +ℤ pos 2) (pos (length before) +ℤ pos 4))
        ≡ ok (pos (length value))
    the_length =
        ap (int unicode) (
          piece payload (before ++ tag) (two_digits (length value)) (value ++ rest)
            (+ℤ_pos (length before) 2 ∙ ap pos (omega (arith, length-append before tag)))
            (+ℤ_pos (length before) 4
              ∙ ap pos (omega (arith, length-append before tag, length-two_digits (length value))))
            (simp append_assoc refl))
        ∙ int-two_digits unicode (length value) (valid.1)

    length_head : length (before ++ tag ++ two_digits (length value)) ≡ length before + 4
    length_head = omega (
      arith,
      length-append (before ++ tag) (two_digits (length value)),
      length-append before tag,
      length-two_digits (length value),
    )

    the_value :
        slice payload
          (pos (length before) +ℤ pos 4)
          (pos (length before) +ℤ pos 4 +ℤ pos (length value))
        ≡ value
    the_value =
        piece payload (before ++ tag ++ two_digits (length value)) value rest
          (+ℤ_pos (length before) 4 ∙ ap pos (omega (arith, length_head)))
          (ap (λ i. i +ℤ pos (length value)) (+ℤ_pos (length before) 4)
            ∙ (+ℤ_pos (length before + 4) (length value) ∙ ap pos (omega (arith, length_head))))
          (simp append_assoc refl)

    more : ltb_ℤ (pos (length before)) (pos (length payload)) ≡ true
    more = ground (
      arith,
      length-append before (entry tag value ++ rest),
      length-append (entry tag value) rest,
      length-append (tag ++ two_digits (length value)) value,
      length-append tag (two_digits (length value)),
      length-two_digits (length value),
    )

    next :
        pos (length before) +ℤ (pos 4 +ℤ pos (length value))
        ≡ pos (length (before ++ entry tag value))
    next =
        ap (λ i. pos (length before) +ℤ i) (+ℤ_pos 4 (length value))
        ∙ (+ℤ_pos (length before) (4 + length value)
            ∙ ap pos (
                omega (
                  arith,
                  length-append before (entry tag value),
                  length-append (tag ++ two_digits (length value)) value,
                  length-append tag (two_digits (length value)),
                  length-two_digits (length value),
                )))

    parse_field :
        (rounds : ℕ) (fields : Fields)
        → parse_from unicode (suc rounds) payload (pos (length before)) fields
          ≡ parse_from unicode rounds
              ((before ++ entry tag value) ++ rest)
              (pos (length (before ++ entry tag value)))
              (set_field tag value fields)
    parse_field rounds fields =
        one_round rounds payload (pos (length before)) (pos (length value)) _ fields more the_length
          next
        ∙ (rw the_tag (
            rw the_value (
              ap
                (λ text.
                  parse_from unicode rounds text (pos (length (before ++ entry tag value)))
                    (set_field tag value fields))
                (sym (append_assoc before (entry tag value) rest)))))

  pub parse_encoded :
      (items : Fields) (rounds : ℕ) (before : Text) (fields : Fields)
      → All IsField items
      → length items < rounds
      → parse_from unicode rounds (before ++ encoded items) (pos (length before)) fields
        ≡ some (ok (set_all fields items))
  parse_encoded [] zero before fields valid enough = absurd (omega arith)
  parse_encoded (item ∷ items) zero before fields valid enough = absurd (omega arith)
  parse_encoded [] (suc rounds) before fields valid enough =
      last_round rounds (before ++ []) (pos (length before)) fields
        (ground (arith, length-append before []))
  parse_encoded ((tag, value) ∷ items) (suc rounds) before fields (first, valid) enough =
      parse_field before tag value (encoded items) first rounds fields
      ∙ parse_encoded items rounds (before ++ entry tag value) (set_field tag value fields) valid
          (omega arith)
