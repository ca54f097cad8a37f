-- ===== src/Iso20022/Errors.antt =====
-- app/infra/iso20022/pain001.py: which errors a message may end with.
use instant_payment_ledger_a.Prelude.{ℕ, String, ℤ, ◌≡◌, Option, none, some, List, [], ◌∷◌, arith}
use instant_payment_ledger_a.Entities.Errors.{
  Error, doctype_not_permitted, malformed_xml, missing_fields, missing_currency, invalid_amount,
}
use instant_payment_ledger_a.Entities.Results.{Within, Within-ok, Within-err, Within-bind}
use instant_payment_ledger_a.Iso20022.Pain001.{
  Xml, Reader, message_id_path, end_to_end_id_path, debtor_path, creditor_path, amount_path, truthy,
  strip_text, decimal_of, find_text, amount_text, missing, none_missing, assert_is_not_none,
  currency_or_error, currency_of, decimal_or_error, amount_of, read_root, parse_root, parse_without,
  parse_pain001,
}
use instant_payment_ledger_a.Iso20022.Reading.{none_missing_ok, all_found}

-- `Pain001ParseError`, for whatever cause.
abbrev pub IsParseError : Error → Type 0
IsParseError doctype_not_permitted = Unit
IsParseError malformed_xml = Unit
IsParseError (missing_fields names) = Unit
IsParseError missing_currency = Unit
IsParseError (invalid_amount text) = Unit
IsParseError e = ⊥

none_missing-Within : (names : List String) → Within IsParseError (none_missing names)
none_missing-Within [] = Within-ok tt
none_missing-Within (n ∷ ns) = Within-err _ tt

assert-Within :
    (o : Option String) (found : String)
    → truthy o ≡ some found
    → Within IsParseError (assert_is_not_none o)
assert-Within none found h = absurd (ground (arith, h))
assert-Within (some text) found h = Within-ok text

currency_or_error-Within : (o : Option String) → Within IsParseError (currency_or_error o)
currency_or_error-Within none = Within-err _ tt
currency_or_error-Within (some c) = Within-ok c

decimal_or_error-Within :
    (text : String) (o : Option ℤ) → Within IsParseError (decimal_or_error text o)
decimal_or_error-Within text none = Within-err _ tt
decimal_or_error-Within text (some x) = Within-ok x

module _ (xml : Xml) (reader : Reader) where
  currency_of-Within :
      (o : Option xml.Element) (text : String)
      → amount_text xml reader o ≡ some text
      → Within IsParseError (currency_of xml reader o)
  currency_of-Within none text h = absurd (ground (arith, h))
  currency_of-Within (some el) text h = currency_or_error-Within _

  decimal_of-Within :
      (o : Option String) (text : String)
      → truthy (strip_text reader.strip (truthy o)) ≡ some text
      → Within IsParseError (decimal_of xml reader o)
  decimal_of-Within none text h = absurd (ground (arith, h))
  decimal_of-Within (some s) text h = decimal_or_error-Within s _

  amount_of-Within :
      (o : Option xml.Element) (text : String)
      → amount_text xml reader o ≡ some text
      → Within IsParseError (amount_of xml reader o)
  amount_of-Within none text h = absurd (ground (arith, h))
  amount_of-Within (some el) text h = decimal_of-Within (xml.text el) text h

  read_root-Within : (root : xml.Element) → Within IsParseError (read_root xml reader root)
  unfolding read_root
  read_root-Within root =
      Within-bind (none_missing (missing xml reader root)) _ (none_missing-Within _) λ u h.
        let all = all_found xml reader root (none_missing_ok _ u h) in
        Within-bind (currency_of xml reader (xml.find root amount_path)) _
          (currency_of-Within _ _ all.amount.1)
          λ currency e1.
            Within-bind (amount_of xml reader (xml.find root amount_path)) _
              (amount_of-Within _ _ all.amount.1)
              λ amount e2.
                Within-bind (assert_is_not_none (find_text xml reader root message_id_path)) _
                  (assert-Within _ _ all.message_id.1)
                  λ m e3.
                    Within-bind (assert_is_not_none (find_text xml reader root end_to_end_id_path))
                      _ (assert-Within _ _ all.end_to_end_id.1)
                      λ e e4.
                        Within-bind (assert_is_not_none (find_text xml reader root debtor_path)) _
                          (assert-Within _ _ all.debtor.1)
                          λ d e5.
                            Within-bind
                              (assert_is_not_none (find_text xml reader root creditor_path)) _
                              (assert-Within _ _ all.creditor.1) λ c e6. Within-ok _

  parse_root-Within :
      (parsed : Option xml.Element) → Within IsParseError (parse_root xml reader parsed)
  parse_root-Within none = Within-err _ tt
  parse_root-Within (some root) = read_root-Within root

  parse_without-Within :
      (position : Option ℕ) (xml_bytes : String)
      → Within IsParseError (parse_without xml reader position xml_bytes)
  parse_without-Within (some i) xml_bytes = Within-err _ tt
  parse_without-Within none xml_bytes = parse_root-Within (xml.fromstring xml_bytes)

  -- A message that is not read ends with a parse error: neither an assertion nor a missing element
  -- comes up, since the missing fields are reported first.
  pub parse_pain001-Within :
      (xml_bytes : String) → Within IsParseError (parse_pain001 xml reader xml_bytes)
  unfolding parse_pain001
  parse_pain001-Within xml_bytes = parse_without-Within _ xml_bytes
