-- ===== src/Entities/Reconciliation.antt =====
-- app/domain/reconciliation/entities.py. The free text of a break is built from its other fields and
-- the two records that disagree; `Details` keeps those parts.
use instant_payment_ledger_a.Prelude.{ℕ, String, ℤ, Option, List, length}

pub data BreakType : Type 0 where
  missing_in_settlement missing_in_ledger amount_mismatch : BreakType

pub record SettlementRecord : Type 0 where
  pub external_ref : String
  pub amount : ℤ
  pub currency : String
  pub settled_at : ℕ
  pub raw_line : String

pub record LedgerSettledPayment : Type 0 where
  pub payment_id : ℕ
  pub external_ref : String
  pub amount : ℤ
  pub currency : String

-- What the three message templates are filled with.
pub data Details : Type 0 where
  settled_without_record : ℕ → Details
  reference_without_payment : String → Details
  ledger_shows_file_shows : ℤ → String → ℤ → String → Details

pub record ReconciliationBreak : Type 0 where
  pub break_type : BreakType
  pub external_ref : String
  pub payment_id : Option ℕ
  pub ledger_amount : Option ℤ
  pub settlement_amount : Option ℤ
  pub details : Details

pub record ReconciliationResult : Type 0 where
  pub matched_count : ℕ
  pub breaks : List ReconciliationBreak

abbrev pub break_count : ReconciliationResult → ℕ
break_count result = length result.breaks
