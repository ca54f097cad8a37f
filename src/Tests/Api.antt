-- ===== src/Tests/Api.antt =====
-- The theorems on requests at concrete inputs.
use text.Mathlib.Text.{find?}
use instant_payment_ledger_a.Prelude.{
  false, ◌≡◌, ◌≢◌, ◌↔◌, refl, Option, none, some, List, [], ◌∷◌, String, ℤ, pos, Text, codes, arith,
  if◌then◌else◌, str_eq,
}
use instant_payment_ledger_a.Entities.Errors.{ok, data_error, unicode_encode_error}
use instant_payment_ledger_a.Entities.Reconciliation.{SettlementRecord}
use instant_payment_ledger_a.Database.Tables.{Db}
use instant_payment_ledger_a.Database.Columns.{fits_text, optional}
use instant_payment_ledger_a.Database.Session.{Session, transaction}
use instant_payment_ledger_a.Database.Leaves.{ByOthers}
use instant_payment_ledger_a.Repositories.Payments.{get_payment}
use instant_payment_ledger_a.Ledger.Conservation.{IsConserved}
use instant_payment_ledger_a.Reconciliation.CsvLoader.{Csv, parse_settlement_csv}
use instant_payment_ledger_a.Reconciliation.Rows.{HasColumns, ReadsTo, parse_settlement_csv_iff}
use instant_payment_ledger_a.Iso20022.Pain001.{
  Xml, Reader, Pain001CreditTransfer, parse_pain001, message_id_path, debtor_path, creditor_path,
  amount_path, find_text,
}
use instant_payment_ledger_a.Iso20022.Reading.{IsTransferOf, parse_pain001-IsTransferOf}
use instant_payment_ledger_a.Payments.Services.Transition.{fail_payment}
use instant_payment_ledger_a.Api.Payments.{authorise, fail}
use instant_payment_ledger_a.Api.Qr.{GenerateQrRequest, generate_qr}
use instant_payment_ledger_a.Api.Requests.{
  post_settle, post_reverse, post_fail, with_others, serve, answer_code, Reachable, empty_journal,
  served,
}
use instant_payment_ledger_a.Api.Conservation.{Reachable-IsConserved}
use instant_payment_ledger_a.Api.Atomicity.{serve-ByOthers}
use instant_payment_ledger_a.Api.Answers.{ServerErrorIs, status_endpoints-ServerErrorIs}
use instant_payment_ledger_a.Api.Ingestion.{generate_qr-ServerErrorIs}
use instant_payment_ledger_a.Tests.Data.{start, digest}

-- The requests' currencies are in upper case.
abbrev upper : String → String
upper text = text

-- Somebody else commits a change of the clock before the second statement.
abbrev schedule : List (Db → Db)
schedule = (λ db. db) ∷ (λ db. record db { now = 13 }) ∷ []

abbrev busy : Session
busy = with_others start schedule

two_requests :
    Reachable upper digest
      (serve upper digest
        (post_reverse 101)
        (with_others (serve upper digest (post_settle 101) busy).committed [])).committed
two_requests =
    served
      (served (empty_journal start refl) (post_settle 101) schedule (λ db h. h, (λ db h. h, tt)))
      (post_reverse 101) [] tt

Reachable-IsConserved_example :
    IsConserved
      (serve upper digest
        (post_reverse 101)
        (with_others (serve upper digest (post_settle 101) busy).committed [])).committed
Reachable-IsConserved_example = Reachable-IsConserved upper digest two_requests

serve-ByOthers_example : ByOthers busy (serve upper digest (post_fail 7 none) busy)
unfolding answer_code get_payment transaction fail_payment
serve-ByOthers_example = serve-ByOthers upper digest (post_fail 7 none) busy tt (omega arith)

status_endpoints-ServerErrorIs_example :
    ServerErrorIs (λ e. ⊥) (authorise 103 busy).0
    × ServerErrorIs
        (λ e. (e ≡ data_error) × (optional fits_text (some "late") ≡ false))
        (fail 103 (some "late") busy).0
status_endpoints-ServerErrorIs_example = status_endpoints-ServerErrorIs 103 (some "late") busy

abbrev str_amount : ℤ → Text
str_amount amount = codes "12.50"

abbrev qr_request : GenerateQrRequest
qr_request = record { account_id = 1; amount = some (pos 1250); merchant_city = "Singapore" }

generate_qr-ServerErrorIs_example :
    ServerErrorIs (λ e. e ≡ unicode_encode_error) (generate_qr str_amount qr_request busy).0
generate_qr-ServerErrorIs_example = generate_qr-ServerErrorIs str_amount qr_request busy

-- A document whose elements are named by their paths, with one text each.
abbrev text_at : String → Option String
text_at path =
    if str_eq path message_id_path
    then some "M1"
    else (if str_eq path debtor_path
        then some "A-1"
        else (if str_eq path creditor_path
            then some "B-2"
            else (if str_eq path amount_path then some "5.00" else some "E2E")))

abbrev xml : Xml
xml = record {
  Element = String;
  fromstring = λ body. some body;
  find = λ root path. some path;
  text = text_at;
  get = λ el name. some "USD";
}

abbrev reader : Reader
reader = record { strip = λ text. text; decimal = λ text. some (pos 500) }

abbrev transfer : Pain001CreditTransfer
transfer = record {
  message_id = "M1";
  end_to_end_id = "E2E";
  debtor_account_number = "A-1";
  creditor_account_number = "B-2";
  amount = pos 500;
  currency = "USD";
}

read : parse_pain001 xml reader "<Document/>" ≡ ok transfer
unfolding parse_pain001 find_text
read = refl

parse_pain001-IsTransferOf_example :
    (find? "<Document/>" "<!DOCTYPE" ≡ none)
    × (root : String) × (xml.fromstring "<Document/>" ≡ some root)
    × IsTransferOf xml reader root transfer
parse_pain001-IsTransferOf_example =
    parse_pain001-IsTransferOf xml reader "<Document/>" transfer read

abbrev csv : Csv
csv = record {
  fieldnames = λ content. some ("external_ref" ∷ "amount" ∷ "currency" ∷ "settled_at" ∷ []);
  rows = λ content. (λ column. some content) ∷ [];
  strip = λ text. text;
  upper = λ text. text;
  decimal = λ text. some (pos 700);
  fromisoformat = λ text. some 3;
  raw_line = λ row. "line";
}

abbrev in_file : SettlementRecord
in_file = record {
  external_ref = "x";
  amount = pos 700;
  currency = "x";
  settled_at = 3;
  raw_line = "line";
}

parse_settlement_csv_iff_example : (parse_settlement_csv csv "x" ≡ ok (in_file ∷ [])) ↔ (
    HasColumns csv (csv.fieldnames "x")
    × ((in_file ∷ []) ≢ [])
    × ReadsTo csv (csv.rows "x") (in_file ∷ []))
parse_settlement_csv_iff_example = parse_settlement_csv_iff csv "x" (in_file ∷ [])
