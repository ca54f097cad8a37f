-- ===== src/Reconciliation/CsvLoader.antt =====
-- app/infra/reconciliation/csv_loader.py. The packages csv and datetime, `Decimal`, `str.strip` and
-- `str.upper` are parameters.
use instant_payment_ledger_a.Prelude.{
  ℕ, ◌+◌, String, ℤ, Bool, ◌&&◌, ◌||◌, false, Option, none, some, List, [], ◌∷◌, str_eq,
  if◌then◌else◌,
}
use instant_payment_ledger_a.Entities.Errors.{
  Result, ok, err, missing_columns, invalid_row, no_data_rows, attribute_error,
}
use instant_payment_ledger_a.Entities.Results.{◌>>=◌}
use instant_payment_ledger_a.Entities.Reconciliation.{SettlementRecord}

-- A row of `csv.DictReader` at a column of the header: `none` is `None`, which a row that is too short
-- has in its last columns.
abbrev pub Row : Type 0
Row = String → Option String

-- `none` is `None` for the column names, and for the others an exception that is a ValueError or
-- InvalidOperation. Numbers are read as whole cents: parts of a cent, infinities and NaN are not
-- modelled.
pub record Csv : Type 0 where
  pub fieldnames : String → Option (List String)
  pub rows : String → List Row
  pub strip : String → String
  pub upper : String → String
  pub decimal : String → Option ℤ
  pub fromisoformat : String → Option ℕ
  pub raw_line : Row → String

abbrev pub has_column : String → List String → Bool
has_column column [] = false
has_column column (name ∷ names) = str_eq column name || has_column column names

-- `REQUIRED_COLUMNS.issubset(set(reader.fieldnames))`
abbrev pub has_required_columns : Option (List String) → Bool
has_required_columns none = false
has_required_columns (some names) =
    has_column "external_ref" names
    && has_column "amount" names
    && has_column "currency" names
    && has_column "settled_at" names

abbrev pub or_value_error : {A : Type 0} → ℕ → Option A → Result A
or_value_error line (some a) = ok a
or_value_error line none = err (invalid_row line)

module _ (csv : Csv) where
  -- `row[column].strip()`
  abbrev pub cell : Option String → Result String
  cell none = err attribute_error
  cell (some text) = ok (csv.strip text)

  -- The body of the `try`; an error that it catches names the line.
  unfoldable pub read_row : ℕ → Row → Result SettlementRecord
  read_row line row = do
    external_ref ← cell (row "external_ref")
    amount_text ← cell (row "amount")
    amount ← or_value_error line (csv.decimal amount_text)
    currency ← cell (row "currency")
    settled_text ← cell (row "settled_at")
    settled_at ← or_value_error line (csv.fromisoformat settled_text)
    ok (record {
      external_ref = external_ref;
      amount = amount;
      currency = csv.upper currency;
      settled_at = settled_at;
      raw_line = csv.raw_line row;
    })

  -- The loop; the header is line 1.
  unfoldable pub read_rows : ℕ → List Row → Result (List SettlementRecord)
  unfolding read_row
  read_rows line [] = ok []
  read_rows line (row ∷ rows) = do
    record' ← read_row line row
    records ← read_rows (line + 1) rows
    ok (record' ∷ records)

  abbrev pub some_rows : List SettlementRecord → Result (List SettlementRecord)
  some_rows [] = err no_data_rows
  some_rows (r ∷ rs) = ok (r ∷ rs)

  unfoldable pub parse_settlement_csv : String → Result (List SettlementRecord)
  unfolding read_rows
  parse_settlement_csv content =
      if has_required_columns (csv.fieldnames content)
      then (do records ← read_rows 2 (csv.rows content); some_rows records)
      else err missing_columns
