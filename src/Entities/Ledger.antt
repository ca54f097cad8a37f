-- ===== src/Entities/Ledger.antt =====
-- app/domain/ledger/entities.py and app/domain/fx/entities.py.
use instant_payment_ledger_a.Prelude.{
  ℕ, String, ℤ, pos, ◌-ℤ◌, Bool, false, Option, List, [], ◌∷◌, map, ◌==◌, ◌||◌, if◌then◌else◌,
}

pub data Direction : Type 0 where
  debit credit : Direction

pub record JournalLine : Type 0 where
  pub account_id : ℕ
  pub direction : Direction
  pub amount : ℤ
  pub currency : String

-- The property `signed_amount`: a credit counts up, a debit down.
abbrev pub signed : Direction → ℤ → ℤ
signed Direction.credit amount = amount
signed Direction.debit amount = pos 0 -ℤ amount

abbrev pub signed_amount : JournalLine → ℤ
signed_amount line = signed line.direction line.amount

pub record JournalEntry : Type 0 where
  pub entry_type : String
  pub lines : List JournalLine
  pub payment_id : Option ℕ
  pub idempotency_key_id : Option ℕ

abbrev pub contains : ℕ → List ℕ → Bool
contains n [] = false
contains n (m ∷ ms) = n == m || contains n ms

-- `frozenset(...)`: each element once. Python leaves the order of iteration open.
abbrev pub frozenset : List ℕ → List ℕ
frozenset [] = []
frozenset (n ∷ ns) = let rest = frozenset ns in if contains n rest then rest else n ∷ rest

unfoldable pub account_ids : JournalEntry → List ℕ
account_ids entry = frozenset (map (λ line. line.account_id) entry.lines)

pub record Account : Type 0 where
  pub id : ℕ
  pub account_number : String
  pub owner_name : String
  pub account_type : String
  pub currency : String
  pub status : String
  pub version : ℕ

pub record FxRate : Type 0 where
  pub id : ℕ
  pub base_currency : String
  pub quote_currency : String
  pub rate : ℤ
  pub booked_at : ℕ
  pub source : String
