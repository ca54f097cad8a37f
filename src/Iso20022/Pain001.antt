-- ===== src/Iso20022/Pain001.antt =====
-- app/infra/iso20022/pain001.py. The package lxml, `str.strip` and `Decimal` are parameters.
use text.Mathlib.Text.{find?}
use instant_payment_ledger_a.Prelude.{
  ℕ, String, ℤ, Option, none, some, List, [], ◌∷◌, ◌++◌, str_eq, if◌then◌else◌,
}
use instant_payment_ledger_a.Entities.Errors.{
  Result, ok, err, doctype_not_permitted, malformed_xml, missing_fields, missing_currency,
  invalid_amount, assertion_error, attribute_error,
}
use instant_payment_ledger_a.Entities.Results.{◌>>=◌}

-- What the source uses of lxml: parsing with the hardened parser, `find` with the namespace of
-- pain.001, an element's text and an attribute. `none` is a syntax error, or `None`.
pub record Xml : Type 1 where
  pub Element : Type 0
  pub fromstring : String → Option Element
  pub find : Element → String → Option Element
  pub text : Element → Option String
  pub get : Element → String → Option String

-- `Decimal(...)`: `none` is `InvalidOperation`. Numbers are read as whole cents: the other ones that
-- `Decimal` takes, parts of a cent, infinities and NaN, are not modelled.
pub record Reader : Type 0 where
  pub strip : String → String
  pub decimal : String → Option ℤ

pub record Pain001CreditTransfer : Type 0 where
  pub message_id : String
  pub end_to_end_id : String
  pub debtor_account_number : String
  pub creditor_account_number : String
  pub amount : ℤ
  pub currency : String

abbrev pub message_id_path : String
message_id_path = ".//ns:GrpHdr/ns:MsgId"

abbrev pub end_to_end_id_path : String
end_to_end_id_path = ".//ns:PmtInf/ns:CdtTrfTxInf/ns:PmtId/ns:EndToEndId"

abbrev pub debtor_path : String
debtor_path = ".//ns:PmtInf/ns:DbtrAcct/ns:Id/ns:Othr/ns:Id"

abbrev pub creditor_path : String
creditor_path = ".//ns:PmtInf/ns:CdtTrfTxInf/ns:CdtrAcct/ns:Id/ns:Othr/ns:Id"

abbrev pub amount_path : String
amount_path = ".//ns:PmtInf/ns:CdtTrfTxInf/ns:Amt/ns:InstdAmt"

-- A text that is there and not empty, as Python's `if text`.
abbrev pub truthy : Option String → Option String
truthy none = none
truthy (some text) = if str_eq text "" then none else some text

abbrev pub strip_text : (String → String) → Option String → Option String
strip_text strip none = none
strip_text strip (some text) = some (strip text)

abbrev pub name_if_missing : String → Option String → List String
name_if_missing name (some text) = []
name_if_missing name none = name ∷ []

abbrev pub none_missing : List String → Result (Unit {0})
none_missing [] = ok tt
none_missing (name ∷ names) = err (missing_fields (name ∷ names))

abbrev pub assert_is_not_none : Option String → Result String
assert_is_not_none (some text) = ok text
assert_is_not_none none = err assertion_error

abbrev pub currency_or_error : Option String → Result String
currency_or_error (some currency) = ok currency
currency_or_error none = err missing_currency

abbrev pub decimal_or_error : String → Option ℤ → Result ℤ
decimal_or_error text (some amount) = ok amount
decimal_or_error text none = err (invalid_amount text)

module _ (xml : Xml) (reader : Reader) where
  abbrev pub text_of : Option xml.Element → Option String
  text_of none = none
  text_of (some el) = strip_text reader.strip (truthy (xml.text el))

  unfoldable pub find_text : xml.Element → String → Option String
  find_text root path = text_of (xml.find root path)

  -- `amount_el is not None and amount_el.text and amount_el.text.strip()`
  abbrev pub amount_text : Option xml.Element → Option String
  amount_text none = none
  amount_text (some el) = truthy (strip_text reader.strip (truthy (xml.text el)))

  abbrev pub missing : xml.Element → List String
  missing root =
      name_if_missing "GrpHdr/MsgId" (truthy (find_text root message_id_path))
      ++ (name_if_missing "PmtId/EndToEndId" (truthy (find_text root end_to_end_id_path))
          ++ (name_if_missing "DbtrAcct/Id/Othr/Id" (truthy (find_text root debtor_path))
              ++ (name_if_missing "CdtrAcct/Id/Othr/Id" (truthy (find_text root creditor_path))
                  ++ name_if_missing "Amt/InstdAmt" (amount_text (xml.find root amount_path)))))

  -- `amount_el.get("Ccy")`
  abbrev pub currency_of : Option xml.Element → Result String
  currency_of none = err attribute_error
  currency_of (some el) = currency_or_error (truthy (xml.get el "Ccy"))

  abbrev pub decimal_of : Option String → Result ℤ
  decimal_of none = err attribute_error
  decimal_of (some text) = decimal_or_error text (reader.decimal (reader.strip text))

  -- `Decimal(amount_el.text.strip())`
  abbrev pub amount_of : Option xml.Element → Result ℤ
  amount_of none = err attribute_error
  amount_of (some el) = decimal_of (xml.text el)

  unfoldable pub read_root : xml.Element → Result Pain001CreditTransfer
  unfolding find_text
  read_root root = do
    _ ← none_missing (missing root)
    currency ← currency_of (xml.find root amount_path)
    amount ← amount_of (xml.find root amount_path)
    message_id ← assert_is_not_none (find_text root message_id_path)
    end_to_end_id ← assert_is_not_none (find_text root end_to_end_id_path)
    debtor ← assert_is_not_none (find_text root debtor_path)
    creditor ← assert_is_not_none (find_text root creditor_path)
    ok (record {
      message_id = message_id;
      end_to_end_id = end_to_end_id;
      debtor_account_number = debtor;
      creditor_account_number = creditor;
      amount = amount;
      currency = currency;
    })

  abbrev pub parse_root : Option xml.Element → Result Pain001CreditTransfer
  parse_root none = err malformed_xml
  parse_root (some root) = read_root root

  abbrev pub parse_without : Option ℕ → String → Result Pain001CreditTransfer
  parse_without (some i) xml_bytes = err doctype_not_permitted
  parse_without none xml_bytes = parse_root (xml.fromstring xml_bytes)

  unfoldable pub parse_pain001 : String → Result Pain001CreditTransfer
  unfolding read_root
  parse_pain001 xml_bytes = parse_without (find? xml_bytes "<!DOCTYPE") xml_bytes
