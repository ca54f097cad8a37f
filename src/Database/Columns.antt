-- ===== src/Database/Columns.antt =====
-- The columns' types of app/infra/db/models.py: which values PostgreSQL takes. A statement that binds
-- another one raises a DBAPIError and changes nothing.
use instant_payment_ledger_a.Prelude.{
  ℕ, ◌^◌, suc, String, Bool, true, not, ◌&&◌, ltb, leb, ◌==◌, ℤ, pos, negsuc, Option, none, some,
  [], ◌∷◌, Text, codes, length, if◌then◌else◌,
}
use instant_payment_ledger_a.Entities.Errors.{data_error}
use instant_payment_ledger_a.Database.Session.{Action, raise}

-- `Numeric(18, 2)`, of a number of cents.
unfoldable pub fits_numeric : ℤ → Bool
fits_numeric (pos n) = ltb n (10 ^ 18)
fits_numeric (negsuc n) = ltb (suc n) (10 ^ 18)

-- Text without the character of code 0.
unfoldable pub has_no_nul : Text → Bool
has_no_nul [] = true
has_no_nul (c ∷ text) = not (c == 0) && has_no_nul text

-- `String`, and `String(n)`.
unfoldable pub fits_text : String → Bool
unfolding has_no_nul
fits_text s = has_no_nul (codes s)

unfoldable pub fits_string : ℕ → String → Bool
unfolding fits_text
fits_string n s = leb (length (codes s)) n && fits_text s

-- A nullable column.
abbrev pub optional : (String → Bool) → Option String → Bool
optional fits none = true
optional fits (some s) = fits s

-- A statement whose values the columns take, or do not.
abbrev pub storing {ℓ} : {A : Type ℓ} → Bool → Action A → Action A
storing fits run = if fits then run else raise data_error
