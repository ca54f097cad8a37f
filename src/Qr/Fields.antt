-- ===== src/Qr/Fields.antt =====
-- app/infra/qr/sgqr.py: the fields of a payload, as a scanner is to read them.
use instant_payment_ledger_a.Prelude.{
  ◌≤◌, ◌≡◌, refl, sym, ap, ◌∙◌, Option, none, some, List, [], ◌∷◌, ◌++◌, ℤ, length, take, All, Text,
  codes, arith,
}
use instant_payment_ledger_a.Entities.Errors.{Result, ok}
use instant_payment_ledger_a.Entities.Results.{>>=_ok}
use instant_payment_ledger_a.Qr.Python.{Fields}
use instant_payment_ledger_a.Qr.Tlv.{tlv}
use instant_payment_ledger_a.Qr.Sgqr.{
  SgqrRequest, join, point_of_initiation, amount_field, sgqr_fields,
}
use instant_payment_ledger_a.Qr.RoundTrip.{entry, encoded, IsField}
use mathlib.Core.List.{append_assoc}

abbrev pub amount_item : (ℤ → Text) → Option ℤ → Fields
amount_item str_amount (some amount) = (codes "54", str_amount amount) ∷ []
amount_item str_amount none = []

-- Each tag with its value, the checksum's apart; `info` is the account's template.
abbrev pub sgqr_items : (ℤ → Text) → SgqrRequest → Text → Text → Fields
sgqr_items str_amount request numeric info =
    ((codes "00", codes "01")
      ∷ (codes "01", point_of_initiation request.amount)
      ∷ (codes "26", info)
      ∷ (codes "52", codes "0000")
      ∷ (codes "53", numeric)
      ∷ [])
    ++ amount_item str_amount request.amount
    ++ ((codes "58", codes "SG")
        ∷ (codes "59", take 25 request.merchant_name)
        ∷ (codes "60", take 15 request.merchant_city)
        ∷ [])

abbrev pub tlvs : Fields → List (Result Text)
tlvs [] = []
tlvs ((tag, value) ∷ items) = tlv tag value ∷ tlvs items

abbrev pub IsTag : Text × Text → Type 0
IsTag (tag, value) = length tag ≡ 2

tlv_ok :
    (tag value text : Text)
    → tlv tag value ≡ ok text
    → (length value ≤ 99) × (text ≡ entry tag value)
unfolding tlv
tlv_ok tag value text h = ground arith

-- Fields that are put together without an error.
pub join_ok :
    (items : Fields) (text : Text)
    → join (tlvs items) ≡ ok text
    → All IsTag items
    → All IsField items × (text ≡ encoded items)
unfolding join
join_ok [] text h tags = (tt, ground arith)
join_ok ((tag, value) ∷ items) text h (two, tags) =
    let (first, h1, h2) = >>=_ok (tlv tag value) _ h in
    let (rest, h3, h4) = >>=_ok (join (tlvs items)) _ h2 in
    let (short, e) = tlv_ok tag value first h1 in
    let (valid, e') = join_ok items rest h3 tags in (((two, short), valid), cc)

pub encoded-append :
    (items items' : Fields) → encoded (items ++ items') ≡ encoded items ++ encoded items'
encoded-append [] items' = refl
encoded-append ((tag, value) ∷ items) items' =
    ap (λ text. entry tag value ++ text) (encoded-append items items')
    ∙ sym (append_assoc (entry tag value) (encoded items) (encoded items'))

tlvs-amount_item :
    (str_amount : ℤ → Text) (amount : Option ℤ) (rest : Fields)
    → amount_field str_amount amount ++ tlvs rest ≡ tlvs (amount_item str_amount amount ++ rest)
tlvs-amount_item str_amount none rest = refl
tlvs-amount_item str_amount (some amount) rest = refl

pub tlvs-sgqr_items :
    (str_amount : ℤ → Text) (request : SgqrRequest) (numeric info : Text)
    → sgqr_fields str_amount request numeric info
      ≡ tlvs (sgqr_items str_amount request numeric info)
tlvs-sgqr_items str_amount request numeric info = cc (
    tlvs-amount_item str_amount request.amount (
      (codes "58", codes "SG")
      ∷ (codes "59", take 25 request.merchant_name)
      ∷ (codes "60", take 15 request.merchant_city)
      ∷ []))
