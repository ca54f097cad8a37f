-- ===== src/Iso20022/Pacs008.antt =====
-- app/infra/iso20022/pacs008.py: the document as a tree. How lxml prints it, `str` of identifiers and
-- amounts, the message's identifier and the time of day are parameters.
use instant_payment_ledger_a.Prelude.{
  ℕ, String, ℤ, Option, none, some, List, [], ◌∷◌, str_eq, if◌then◌else◌,
}
use instant_payment_ledger_a.Entities.Payments.{PaymentStatus, Payment, same_status}
use instant_payment_ledger_a.Entities.Errors.{Result, ok, err, payment_not_settled}

-- An element: its name, attributes, text and children.
mutual
  pub data Tree : Type 0 where
    element : String → List (String × String) → Option String → Forest → Tree

  pub data Forest : Type 0 where
    leaf : Forest
    child : Tree → Forest → Forest

abbrev pub text_element : String → String → Tree
text_element name text = element name [] (some text) leaf

abbrev pub parent : String → Forest → Tree
parent name children = element name [] none children

pub record Printer : Type 0 where
  pub tostring : Tree → String
  pub str_id : ℕ → String
  pub str_amount : ℤ → String
  pub uuid4 : String
  pub now : String

abbrev pub pacs008_namespace : String
pacs008_namespace = "urn:iso:std:iso:20022:tech:xsd:pacs.008.001.08"

-- `a or b` on a text that may be missing
abbrev pub or_else : Option String → String → String
or_else none other = other
or_else (some text) other = if str_eq text "" then other else text

pub record Parties : Type 0 where
  pub debtor_account_number : String
  pub debtor_name : String
  pub creditor_account_number : String
  pub creditor_name : String

module _ (printer : Printer) where
  abbrev pub group_header : Tree
  group_header = parent "GrpHdr" (
      child (text_element "MsgId" printer.uuid4) (
        child (text_element "CreDtTm" printer.now) (
          child (text_element "NbOfTxs" "1")
            (child (parent "SttlmInf" (child (text_element "SttlmMtd" "CLRG") leaf)) leaf))))

  abbrev pub payment_id : Payment → Tree
  payment_id payment = parent "PmtId" (
      child (text_element "EndToEndId" (or_else payment.end_to_end_id (printer.str_id payment.id)))
        (child (text_element "TxId" (printer.str_id payment.id)) leaf))

  abbrev pub amount_element : Payment → Tree
  amount_element payment =
      element "IntrBkSttlmAmt" (("Ccy", payment.currency) ∷ [])
        (some (printer.str_amount payment.amount)) leaf

abbrev pub account_element : String → String → Tree
account_element name number =
    parent name (
      child (parent "Id" (child (parent "Othr" (child (text_element "Id" number) leaf)) leaf)) leaf)

abbrev pub party_element : String → String → Tree
party_element name party = parent name (child (text_element "Nm" party) leaf)

module _ (printer : Printer) where
  abbrev pub transaction_element : Payment → Parties → Tree
  transaction_element payment parties = parent "CdtTrfTxInf" (
      child (payment_id printer payment) (
        child (amount_element printer payment) (
          child (text_element "ChrgBr" "SLEV") (
            child (party_element "Dbtr" parties.debtor_name) (
              child (account_element "DbtrAcct" parties.debtor_account_number) (
                child (party_element "Cdtr" parties.creditor_name)
                  (child (account_element "CdtrAcct" parties.creditor_account_number) leaf)))))))

  unfoldable pub document : Payment → Parties → Tree
  document payment parties = element "Document" (("xmlns", pacs008_namespace) ∷ []) none (
      child
        (parent "FIToFICstmrCdtTrf"
          (child (group_header printer) (child (transaction_element payment parties) leaf)))
        leaf)

  unfoldable pub build_pacs008 : Payment → Parties → Result String
  unfolding document
  build_pacs008 payment parties =
      if same_status payment.status PaymentStatus.settled
      then ok (printer.tostring (document payment parties))
      else err (payment_not_settled payment.status)
