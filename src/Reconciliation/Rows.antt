-- ===== src/Reconciliation/Rows.antt =====
-- app/infra/reconciliation/csv_loader.py: a file is taken whole, or its first bad line is named.
use mathlib.Core.Path.{subst}
use instant_payment_ledger_a.Prelude.{
  ℕ, ◌+◌, String, ◌≡◌, ◌≢◌, ◌⊎◌, inl, inr, text_cases, refl, sym, ap, ◌∙◌, Bool, if◌then◌else◌, ◌↔◌,
  true, false, Option, none, some, List, [], ◌∷◌, arith,
}
use instant_payment_ledger_a.Entities.Errors.{Error, Result, ok, err}
use instant_payment_ledger_a.Entities.Results.{>>=_ok, ok_inj}
use instant_payment_ledger_a.Entities.Reconciliation.{SettlementRecord}
use instant_payment_ledger_a.Reconciliation.CsvLoader.{
  Csv, Row, cell, or_value_error, has_column, has_required_columns, read_row, read_rows, some_rows,
  parse_settlement_csv,
}

if_ok :
    {A : Type 0} {a : A} (b : Bool) (m : Result A) (e : Error)
    → (if b then m else err e) ≡ ok a
    → (b ≡ true) × (m ≡ ok a)
if_ok true m e h = (refl, h)
if_ok false m e h = absurd (ground (arith, h))

module _ (csv : Csv) where
  -- The record of a row: the stripped texts of its four columns, the amount and the time as numbers, the
  -- currency in upper case.
  pub record IsReadFrom (row : Row) (r : SettlementRecord) : Type 0 where
    pub external_ref :
        (text : String) × (row "external_ref" ≡ some text) × (r.external_ref ≡ csv.strip text)
    pub amount :
        (text : String) × (row "amount" ≡ some text)
        × (csv.decimal (csv.strip text) ≡ some r.amount)
    pub currency :
        (text : String) × (row "currency" ≡ some text) × (r.currency ≡ csv.upper (csv.strip text))
    pub settled_at :
        (text : String) × (row "settled_at" ≡ some text)
        × (csv.fromisoformat (csv.strip text) ≡ some r.settled_at)
    pub raw_line : r.raw_line ≡ csv.raw_line row

  cell_ok :
      (o : Option String) {text : String}
      → cell csv o ≡ ok text
      → (t : String) × (o ≡ some t) × (text ≡ csv.strip t)
  cell_ok none h = cc
  cell_ok (some t) h = (t, refl, ground (arith, h))

  value_ok :
      {A : Type 0} (line : ℕ) (o : Option A) {a : A} → or_value_error line o ≡ ok a → o ≡ some a
  value_ok line none h = cc
  value_ok line (some a) h = cc

  read_row_sound :
      (line : ℕ) (row : Row) (r : SettlementRecord)
      → read_row csv line row ≡ ok r
      → IsReadFrom row r
  unfolding read_row
  read_row_sound line row r h =
      let (e, h1, k1) = >>=_ok (cell csv (row "external_ref")) _ h in
      let (a, h2, k2) = >>=_ok (cell csv (row "amount")) _ k1 in
      let (n, h3, k3) = >>=_ok (or_value_error line (csv.decimal a)) _ k2 in
      let (c, h4, k4) = >>=_ok (cell csv (row "currency")) _ k3 in
      let (s, h5, k5) = >>=_ok (cell csv (row "settled_at")) _ k4 in
      let (t, h6, k6) = >>=_ok (or_value_error line (csv.fromisoformat s)) _ k5 in
      let (e', e1, e2) = cell_ok (row "external_ref") h1 in
      let (a', a1, a2) = cell_ok (row "amount") h2 in
      let (c', c1, c2) = cell_ok (row "currency") h4 in
      let (s', s1, s2) = cell_ok (row "settled_at") h5 in
      subst (IsReadFrom row) (ok_inj k6) (record {
        external_ref = (e', e1, e2);
        amount = (a', a1, ap csv.decimal (sym a2) ∙ value_ok line (csv.decimal a) h3);
        currency = (c', c1, ap csv.upper c2);
        settled_at =
            (s', s1, ap csv.fromisoformat (sym s2) ∙ value_ok line (csv.fromisoformat s) h6);
        raw_line = refl;
      })

  read_row_complete :
      (line : ℕ) (row : Row) (r : SettlementRecord)
      → IsReadFrom row r
      → read_row csv line row ≡ ok r
  unfolding read_row
  read_row_complete line row r h =
      let (e, e1, e2) = h.external_ref in
      let (a, a1, a2) = h.amount in
      let (c, c1, c2) = h.currency in
      let (s, s1, s2) = h.settled_at in
      rw (e1, a1, a2, c1, s1, s2, sym e2, sym c2, sym h.raw_line) refl

  -- Each record is read from the row at its place.
  abbrev pub ReadsTo : List Row → List SettlementRecord → Type 0
  ReadsTo [] [] = Unit
  ReadsTo [] (r ∷ rs) = ⊥
  ReadsTo (row ∷ rows) [] = ⊥
  ReadsTo (row ∷ rows) (r ∷ rs) = IsReadFrom row r × ReadsTo rows rs

  read_rows_sound :
      (line : ℕ) (rows : List Row) (rs : List SettlementRecord)
      → read_rows csv line rows ≡ ok rs
      → ReadsTo rows rs
  unfolding read_rows
  read_rows_sound line [] [] h = tt
  read_rows_sound line [] (r ∷ rs) h = cc
  read_rows_sound line (row ∷ rows) rs h =
      let (r, h1, k1) = >>=_ok (read_row csv line row) _ h in
      let (rest, h2, k2) = >>=_ok (read_rows csv (line + 1) rows) _ k1 in
      subst (ReadsTo (row ∷ rows)) (ok_inj k2)
        (read_row_sound line row r h1, read_rows_sound (line + 1) rows rest h2)

  read_rows_complete :
      (line : ℕ) (rows : List Row) (rs : List SettlementRecord)
      → ReadsTo rows rs
      → read_rows csv line rows ≡ ok rs
  unfolding read_rows
  read_rows_complete line [] [] h = refl
  read_rows_complete line [] (r ∷ rs) h = absurd h
  read_rows_complete line (row ∷ rows) [] h = absurd h
  read_rows_complete line (row ∷ rows) (r ∷ rs) (h, hs) =
      rw (read_row_complete line row r h) (rw (read_rows_complete (line + 1) rows rs hs) refl)

  some_rows_ok :
      (rs rs' : List SettlementRecord) → some_rows csv rs ≡ ok rs' → (rs ≡ rs') × (rs' ≢ [])
  some_rows_ok [] rs' h = cc
  some_rows_ok (r ∷ rs) rs' h = (ok_inj h, λ e. ground (arith, h, e))

  some_rows_filled : (rs : List SettlementRecord) → rs ≢ [] → some_rows csv rs ≡ ok rs
  some_rows_filled [] filled = absurd (filled refl)
  some_rows_filled (r ∷ rs) filled = refl

  abbrev HasColumn : String → List String → Type 0
  HasColumn column [] = ⊥
  HasColumn column (name ∷ names) = (column ≡ name) ⊎ HasColumn column names

  has_column_iff :
      (column : String) (names : List String)
      → (has_column column names ≡ true) ↔ HasColumn column names
  has_column_iff column [] = (λ h. cc, λ h. absurd h)
  has_column_iff column (name ∷ names) =
      let rest = has_column_iff column names in
      elim (text_cases column name) [
        | inl (same, hit) ↦ (λ h. inl same, λ h. rw hit refl)
        | inr (differ, miss) ↦ (
          λ h. inr (rest.0 (rw miss at h)),
          λ h. rw miss (elim h [ inl same ↦ absurd (differ same) | inr later ↦ rest.1 later ]),
        )
      ]

  -- The header has the four columns.
  abbrev pub HasColumns : Option (List String) → Type 0
  HasColumns none = ⊥
  HasColumns (some names) =
      HasColumn "external_ref" names
      × HasColumn "amount" names
      × HasColumn "currency" names
      × HasColumn "settled_at" names

  has_required_columns_iff :
      (names : Option (List String)) → (has_required_columns names ≡ true) ↔ HasColumns names
  has_required_columns_iff none = (λ h. cc, λ h. absurd h)
  has_required_columns_iff (some names) =
      let (e, e') = has_column_iff "external_ref" names in
      let (a, a') = has_column_iff "amount" names in
      let (c, c') = has_column_iff "currency" names in
      let (s, s') = has_column_iff "settled_at" names in
      (
        λ h. (e (ground arith), a (ground arith), c (ground arith), s (ground arith)),
        λ (he, ha, hc, hs). rw (e' he, a' ha, c' hc, s' hs) refl,
      )

  -- A settlement file gives a list of records exactly when its header has the four columns, the list
  -- is not empty, and each record holds what the row at its place has in the four columns, stripped, the
  -- amount and the time as numbers and the currency in upper case; no row is left out.
  pub parse_settlement_csv_iff :
      (content : String) (records : List SettlementRecord)
      → (parse_settlement_csv csv content ≡ ok records) ↔ (
          HasColumns (csv.fieldnames content) × (records ≢ []) × ReadsTo (csv.rows content) records)
  unfolding parse_settlement_csv
  parse_settlement_csv_iff content records = (forth, back)
    where
      forth :
          parse_settlement_csv csv content ≡ ok records
          → HasColumns (csv.fieldnames content)
            × (records ≢ [])
            × ReadsTo (csv.rows content) records
      forth h =
          let (columns, h1) = if_ok (has_required_columns (csv.fieldnames content)) _ _ h in
          let (read, h2, k2) = >>=_ok (read_rows csv 2 (csv.rows content)) _ h1 in
          let (e, filled) = some_rows_ok read records k2 in
          (
            (has_required_columns_iff (csv.fieldnames content)).0 columns,
            filled,
            read_rows_sound 2 (csv.rows content) records (h2 ∙ ap ok e),
          )

      back :
          HasColumns (csv.fieldnames content) × (records ≢ []) × ReadsTo (csv.rows content) records
          → parse_settlement_csv csv content ≡ ok records
      back (columns, filled, reads) =
          rw ((has_required_columns_iff (csv.fieldnames content)).1 columns) (
            rw (read_rows_complete 2 (csv.rows content) records reads)
              (some_rows_filled records filled))
