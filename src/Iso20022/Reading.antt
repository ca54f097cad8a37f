-- ===== src/Iso20022/Reading.antt =====
-- app/infra/iso20022/pain001.py: what a transfer that is read has.
use mathlib.Core.Path.{subst}
use text.Mathlib.Text.{find?}
use instant_payment_ledger_a.Prelude.{
  ℕ, String, ◌≡◌, ◌≢◌, refl, ap, ◌∙◌, Option, none, some, List, [], ◌∷◌, ◌++◌, arith, eq_iff, ℤ,
  text_cases, inl, inr,
}
use instant_payment_ledger_a.Entities.Errors.{ok}
use instant_payment_ledger_a.Entities.Results.{>>=_ok, ok_inj}
use instant_payment_ledger_a.Iso20022.Pain001.{
  Xml, Reader, Pain001CreditTransfer, message_id_path, end_to_end_id_path, debtor_path,
  creditor_path, amount_path, truthy, find_text, none_missing, assert_is_not_none, currency_of,
  amount_of, text_of, strip_text, currency_or_error, decimal_or_error, decimal_of, read_root,
  parse_root, parse_without, parse_pain001, amount_text, missing, name_if_missing,
}

-- A text that is found and is not empty.
abbrev pub IsRead : Option String → String → Type 0
IsRead found text = (found ≡ some text) × (text ≢ "")

-- No name in the list of the missing ones: each text is there.
found :
    (name : String) (o : Option String) (names : List String)
    → (name_if_missing name o ++ names) ≡ []
    → ((text : String) × (o ≡ some text)) × (names ≡ [])
found name none names h = cc
found name (some text) names h = ((text, refl), h)

last_found :
    (name : String) (o : Option String)
    → name_if_missing name o ≡ []
    → (text : String) × (o ≡ some text)
last_found name none h = cc
last_found name (some text) h = (text, refl)

pub none_missing_ok : (names : List String) (u : Unit) → none_missing names ≡ ok u → names ≡ []
none_missing_ok [] u h = refl
none_missing_ok (n ∷ ns) u h = ground (arith, h)

assert_ok : (o : Option String) (text : String) → assert_is_not_none o ≡ ok text → o ≡ some text
assert_ok (some s) text h = ground (arith, h)
assert_ok none text h = ground (arith, h)

is_read :
    (o : Option String) (text found : String)
    → truthy o ≡ some found
    → o ≡ some text
    → IsRead o text
is_read none text found h e = ground (arith, h)
is_read (some s) text found h e = (e, λ empty. ground (arith, eq_iff s "", e, empty))

module _ (xml : Xml) (reader : Reader) where
  -- The element at the path has a text that is `text` once it is stripped; both are not empty.
  pub record IsTextAt (root : xml.Element) (path text : String) : Type 0 where
    pub element : xml.Element
    pub raw : String
    pub at_path : xml.find root path ≡ some element
    pub has_text : xml.text element ≡ some raw
    pub not_empty : raw ≢ ""
    pub stripped : text ≡ reader.strip raw
    pub stripped_not_empty : text ≢ ""

  -- The element at the path has the attribute "Ccy", which is not empty, and a text that is a number.
  pub record IsAmountAt (root : xml.Element) (path currency : String) (amount : ℤ) : Type 0 where
    pub element : xml.Element
    pub raw : String
    pub at_path : xml.find root path ≡ some element
    pub has_currency : xml.get element "Ccy" ≡ some currency
    pub currency_not_empty : currency ≢ ""
    pub has_text : xml.text element ≡ some raw
    pub has_number : reader.decimal (reader.strip raw) ≡ some amount

  -- The paths of a credit transfer.
  pub record IsTransferOf (root : xml.Element) (t : Pain001CreditTransfer) : Type 0 where
    pub message_id : IsTextAt root ".//ns:GrpHdr/ns:MsgId" t.message_id
    pub end_to_end_id :
        IsTextAt root ".//ns:PmtInf/ns:CdtTrfTxInf/ns:PmtId/ns:EndToEndId" t.end_to_end_id
    pub debtor :
        IsTextAt root ".//ns:PmtInf/ns:DbtrAcct/ns:Id/ns:Othr/ns:Id" t.debtor_account_number
    pub creditor :
        IsTextAt root ".//ns:PmtInf/ns:CdtTrfTxInf/ns:CdtrAcct/ns:Id/ns:Othr/ns:Id"
          t.creditor_account_number
    pub amount :
        IsAmountAt root ".//ns:PmtInf/ns:CdtTrfTxInf/ns:Amt/ns:InstdAmt" t.currency t.amount

  text_of_truthy :
      (o : Option String) {text : String} → truthy o ≡ some text → (o ≡ some text) × (text ≢ "")
  text_of_truthy none h = cc
  text_of_truthy (some s) {text} h = elim (text_cases s "") [
    | inl (empty, hit) ↦ ground arith
    | inr (full, miss) ↦ let same : s ≡ text = ground arith in (ap some same, λ e. full (same ∙ e))
  ]

  strip_some :
      (o : Option String) {text : String}
      → strip_text reader.strip o ≡ some text
      → (raw : String) × (o ≡ some raw) × (text ≡ reader.strip raw)
  strip_some none h = cc
  strip_some (some s) h = (s, refl, cc)

  text_at :
      (root : xml.Element) (path : String) {text : String} (found : Option xml.Element)
      → xml.find root path ≡ found
      → text_of xml reader found ≡ some text
      → text ≢ ""
      → IsTextAt root path text
  text_at root path none at h full = cc
  text_at root path (some el) at h full =
      let (raw, kept, same) = strip_some (truthy (xml.text el)) h in
      let (has, not_empty) = text_of_truthy (xml.text el) kept in
      record {
        element = el;
        raw = raw;
        at_path = at;
        has_text = has;
        not_empty = not_empty;
        stripped = same;
        stripped_not_empty = full;
      }

  is_text_at :
      (root : xml.Element) (path : String) {text : String}
      → IsRead (find_text xml reader root path) text
      → IsTextAt root path text
  unfolding find_text
  is_text_at root path (h, full) = text_at root path (xml.find root path) refl h full

  currency_some :
      (o : Option String) {currency : String}
      → currency_or_error o ≡ ok currency
      → o ≡ some currency
  currency_some none h = cc
  currency_some (some c) h = cc

  decimal_some :
      (text : String) (o : Option ℤ) {amount : ℤ}
      → decimal_or_error text o ≡ ok amount
      → o ≡ some amount
  decimal_some text none h = cc
  decimal_some text (some x) h = cc

  number_of :
      (o : Option String) {amount : ℤ}
      → decimal_of xml reader o ≡ ok amount
      → (raw : String) × (o ≡ some raw) × (reader.decimal (reader.strip raw) ≡ some amount)
  number_of none h = cc
  number_of (some raw) h = (raw, refl, decimal_some raw _ h)

  amount_at :
      (root : xml.Element) (path : String) {currency : String} {amount : ℤ}
      (found : Option xml.Element)
      → xml.find root path ≡ found
      → currency_of xml reader found ≡ ok currency
      → amount_of xml reader found ≡ ok amount
      → IsAmountAt root path currency amount
  amount_at root path none at hc ha = cc
  amount_at root path (some el) at hc ha =
      let (has, full) = text_of_truthy (xml.get el "Ccy") (currency_some _ hc) in
      let (raw, has_text, number) = number_of (xml.text el) ha in
      record {
        element = el;
        raw = raw;
        at_path = at;
        has_currency = has;
        currency_not_empty = full;
        has_text = has_text;
        has_number = number;
      }

  module _ (root : xml.Element) where
    -- The four texts, where nothing is missing.
    pub record AllFound : Type 0 where
      pub message_id :
          (text : String) × (truthy (find_text xml reader root message_id_path) ≡ some text)
      pub end_to_end_id :
          (text : String) × (truthy (find_text xml reader root end_to_end_id_path) ≡ some text)
      pub debtor : (text : String) × (truthy (find_text xml reader root debtor_path) ≡ some text)
      pub creditor :
          (text : String) × (truthy (find_text xml reader root creditor_path) ≡ some text)
      pub amount :
          (text : String) × (amount_text xml reader (xml.find root amount_path) ≡ some text)

    pub all_found : missing xml reader root ≡ [] → AllFound
    all_found h =
        let (m, n1) =
          found "GrpHdr/MsgId" (truthy (find_text xml reader root message_id_path)) _ h in
        let (e, n2) =
          found "PmtId/EndToEndId" (truthy (find_text xml reader root end_to_end_id_path)) _ n1 in
        let (d, n3) =
          found "DbtrAcct/Id/Othr/Id" (truthy (find_text xml reader root debtor_path)) _ n2 in
        let (c, n4) =
          found "CdtrAcct/Id/Othr/Id" (truthy (find_text xml reader root creditor_path)) _ n3 in
        record {
          message_id = m;
          end_to_end_id = e;
          debtor = d;
          creditor = c;
          amount =
              last_found "Amt/InstdAmt" (amount_text xml reader (xml.find root amount_path)) n4;
        }

    read_root-IsTransferOf :
        (t : Pain001CreditTransfer) → read_root xml reader root ≡ ok t → IsTransferOf root t
    unfolding read_root
    read_root-IsTransferOf t h =
        let (u, h1, k1) = >>=_ok (none_missing (missing xml reader root)) _ h in
        let (currency, h2, k2) = >>=_ok (currency_of xml reader (xml.find root amount_path)) _ k1 in
        let (amount, h3, k3) = >>=_ok (amount_of xml reader (xml.find root amount_path)) _ k2 in
        let (m, h4, k4) =
          >>=_ok (assert_is_not_none (find_text xml reader root message_id_path)) _ k3 in
        let (e, h5, k5) =
          >>=_ok (assert_is_not_none (find_text xml reader root end_to_end_id_path)) _ k4 in
        let (d, h6, k6) =
          >>=_ok (assert_is_not_none (find_text xml reader root debtor_path)) _ k5 in
        let (c, h7, k7) =
          >>=_ok (assert_is_not_none (find_text xml reader root creditor_path)) _ k6 in
        let all = all_found (none_missing_ok (missing xml reader root) u h1) in
        subst (IsTransferOf root) (ok_inj k7) (record {
          message_id =
              is_text_at root message_id_path (is_read _ m _ all.message_id.1 (assert_ok _ m h4));
          end_to_end_id =
              is_text_at root end_to_end_id_path
                (is_read _ e _ all.end_to_end_id.1 (assert_ok _ e h5));
          debtor = is_text_at root debtor_path (is_read _ d _ all.debtor.1 (assert_ok _ d h6));
          creditor =
              is_text_at root creditor_path (is_read _ c _ all.creditor.1 (assert_ok _ c h7));
          amount = amount_at root amount_path (xml.find root amount_path) refl h2 h3;
        })

  without_doctype :
      (position : Option ℕ) (xml_bytes : String) (t : Pain001CreditTransfer)
      → parse_without xml reader position xml_bytes ≡ ok t
      → (position ≡ none) × (parse_root xml reader (xml.fromstring xml_bytes) ≡ ok t)
  without_doctype (some i) xml_bytes t h = ground (arith, h)
  without_doctype none xml_bytes t h = (refl, h)

  well_formed :
      (parsed : Option xml.Element) (t : Pain001CreditTransfer)
      → parse_root xml reader parsed ≡ ok t
      → (root : xml.Element) × (parsed ≡ some root) × (read_root xml reader root ≡ ok t)
  well_formed none t h = absurd (ground (arith, h))
  well_formed (some root) t h = (root, refl, h)

  -- If a message is read, it holds no DOCTYPE, the XML library parses it, and the message
  -- identifier, the end-to-end identifier and the two account numbers are the stripped texts at
  -- their paths and not empty; the currency and the amount are the attribute "Ccy" and the number that
  -- the stripped text is, of the element at the path of the amount.
  pub parse_pain001-IsTransferOf :
      (xml_bytes : String) (t : Pain001CreditTransfer)
      → parse_pain001 xml reader xml_bytes ≡ ok t
      → (find? xml_bytes "<!DOCTYPE" ≡ none)
        × (root : xml.Element) × (xml.fromstring xml_bytes ≡ some root)
        × IsTransferOf root t
  unfolding parse_pain001
  parse_pain001-IsTransferOf xml_bytes t h =
      let (none_found, h1) = without_doctype (find? xml_bytes "<!DOCTYPE") xml_bytes t h in
      let (root, parsed, h2) = well_formed (xml.fromstring xml_bytes) t h1 in
      (none_found, root, parsed, read_root-IsTransferOf root t h2)
