-- ===== src/Qr/Python.antt =====
-- What app/infra/qr/sgqr.py uses of Python: slices, `int` and dictionaries of texts. Its tables of
-- the decimal digits and spaces beyond ASCII are a parameter.
use instant_payment_ledger_a.Prelude.{
  ℕ, zero, suc, ◌+◌, ◌-◌, ◌*◌, Bool, true, false, ◌&&◌, ◌||◌, Option, none, some, List, [], ◌∷◌, ℤ,
  pos, negsuc, ◌==◌, leb, ltb, if◌then◌else◌, length, take, drop, Text,
}
use instant_payment_ledger_a.Entities.Errors.{Result, ok, err, value_error}

pub record Unicode : Type 0 where
  pub decimal : ℕ → Option ℕ
  pub space : ℕ → Bool

-- An index counts from the end when it is negative, and stops at the ends.
unfoldable pub clamp : ℕ → ℤ → ℕ
clamp n (pos i) = if leb i n then i else n
clamp n (negsuc i) = n - suc i

-- `text[from:to]`
unfoldable pub slice : Text → ℤ → ℤ → Text
slice text from to =
    let start = clamp (length text) from in take (clamp (length text) to - start) (drop start text)

module _ (unicode : Unicode) where
  unfoldable pub digit_value : ℕ → Option ℕ
  digit_value c =
      if ltb c 128
      then (if leb b'0' c && leb c b'9' then some (c - b'0') else none)
      else unicode.decimal c

  unfoldable pub is_space : ℕ → Bool
  is_space c = if ltb c 128 then leb 9 c && leb c 13 || c == 32 else unicode.space c

  abbrev pub lstrip : Text → Text
  lstrip [] = []
  lstrip (c ∷ cs) = if is_space c then lstrip cs else c ∷ cs

  abbrev pub keep_unless_last : Bool → ℕ → Text → Text
  keep_unless_last true c [] = []
  keep_unless_last b c cs = c ∷ cs

  abbrev pub rstrip : Text → Text
  rstrip [] = []
  rstrip (c ∷ cs) = keep_unless_last (is_space c) c (rstrip cs)

  -- Digits, where an underscore may stand between two of them.
  abbrev pub digits : Bool → ℕ → Text → Option ℕ
  digits after_digit total [] = if after_digit then some total else none
  digits after_digit total (c ∷ cs) = elim (digit_value c) [
    | some d ↦ digits true (total * 10 + d) cs
    | none ↦ if after_digit && c == b'_' then digits false total cs else none
  ]

  abbrev pub negated : ℕ → ℤ
  negated zero = pos 0
  negated (suc n) = negsuc n

  abbrev pub or_error : (ℕ → ℤ) → Option ℕ → Result ℤ
  or_error sign (some n) = ok (sign n)
  or_error sign none = err value_error

  abbrev pub signed_int : Text → Result ℤ
  signed_int [] = err value_error
  signed_int (c ∷ cs) =
      if c == b'-'
      then or_error negated (digits false 0 cs)
      else (if c == b'+'
          then or_error pos (digits false 0 cs)
          else or_error pos (digits false 0 (c ∷ cs)))

  -- `int(text)`
  unfoldable pub int : Text → Result ℤ
  int text = signed_int (rstrip (lstrip text))

abbrev pub text_eq : Text → Text → Bool
text_eq [] [] = true
text_eq [] (d ∷ ds) = false
text_eq (c ∷ cs) [] = false
text_eq (c ∷ cs) (d ∷ ds) = c == d && text_eq cs ds

abbrev pub Fields : Type 0
Fields = List (Text × Text)

-- `fields[tag] = value`: a tag that is there keeps its place.
unfoldable pub set_field : Text → Text → Fields → Fields
set_field tag value [] = (tag, value) ∷ []
set_field tag value ((t, v) ∷ fields) =
    let rest = set_field tag value fields in
    if text_eq t tag then (t, value) ∷ fields else (t, v) ∷ rest
