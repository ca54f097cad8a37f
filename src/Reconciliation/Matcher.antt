-- ===== src/Reconciliation/Matcher.antt =====
-- app/domain/reconciliation/matcher.py. A dictionary by reference keeps the last element of each.
pub mod Agreement
pub mod Assertion
use Prim.Native.Nat.{Ordering}
use Prim.Native.String.{compare}
use instant_payment_ledger_a.Prelude.{
  ℕ, suc, String, ℤ, eqb_ℤ, Bool, ◌&&◌, Option, none, some, List, [], ◌∷◌, ◌++◌, map, str_eq,
  if◌then◌else◌,
}
use instant_payment_ledger_a.Entities.Reconciliation.{
  BreakType, SettlementRecord, LedgerSettledPayment, ReconciliationBreak, ReconciliationResult,
  settled_without_record, reference_without_payment, ledger_shows_file_shows,
}

abbrev pub or_this {ℓ} : {A : Type ℓ} → Option A → Bool → A → Option A
or_this (some later) hit x = some later
or_this none hit x = if hit then some x else none

-- `{p.external_ref: p for p in ledger_payments}.get(ref)`
unfoldable pub ledger_by_ref : String → List LedgerSettledPayment → Option LedgerSettledPayment
ledger_by_ref ref [] = none
ledger_by_ref ref (p ∷ ps) = or_this (ledger_by_ref ref ps) (str_eq p.external_ref ref) p

-- `{s.external_ref: s for s in settlement_records}.get(ref)`
unfoldable pub settlement_by_ref : String → List SettlementRecord → Option SettlementRecord
settlement_by_ref ref [] = none
settlement_by_ref ref (s ∷ ss) = or_this (settlement_by_ref ref ss) (str_eq s.external_ref ref) s

-- Insertion into a sorted list without repetition.
unfoldable pub insert_ref : String → List String → List String
insert_ref ref [] = ref ∷ []
insert_ref ref (r ∷ rs) =
    let rest = insert_ref ref rs in
    elim (compare ref r) [
      | Ordering.lt ↦ ref ∷ r ∷ rs
      | Ordering.eq ↦ r ∷ rs
      | Ordering.gt ↦ r ∷ rest
    ]

-- `sorted(set(...))`
unfoldable pub sorted_set : List String → List String
unfolding insert_ref
sorted_set [] = []
sorted_set (ref ∷ refs) = insert_ref ref (sorted_set refs)

unfoldable pub all_refs : List LedgerSettledPayment → List SettlementRecord → List String
unfolding sorted_set
all_refs ledger_payments settlement_records =
    sorted_set
      (map (λ p. p.external_ref) ledger_payments ++ map (λ s. s.external_ref) settlement_records)

abbrev pub amounts_and_currencies_match : LedgerSettledPayment → SettlementRecord → Bool
amounts_and_currencies_match l s = eqb_ℤ l.amount s.amount && str_eq l.currency s.currency

abbrev pub mismatch : String → LedgerSettledPayment → SettlementRecord → ReconciliationBreak
mismatch ref l s = record {
  break_type = BreakType.amount_mismatch;
  external_ref = ref;
  payment_id = some l.payment_id;
  ledger_amount = some l.amount;
  settlement_amount = some s.amount;
  details = ledger_shows_file_shows l.amount l.currency s.amount s.currency;
}

-- One round of the loop: a break, or none where the two sides match. The assertion in the last branch
-- fails for a reference that neither side has; `all_refs` has none (Assertion), so what the round says
-- of it, a match, is never used.
abbrev pub round :
    String → Option LedgerSettledPayment → Option SettlementRecord → Option ReconciliationBreak
round ref (some l) none = some (record {
  break_type = BreakType.missing_in_settlement;
  external_ref = ref;
  payment_id = some l.payment_id;
  ledger_amount = some l.amount;
  settlement_amount = none;
  details = settled_without_record l.payment_id;
})
round ref none (some s) = some (record {
  break_type = BreakType.missing_in_ledger;
  external_ref = ref;
  payment_id = none;
  ledger_amount = none;
  settlement_amount = some s.amount;
  details = reference_without_payment ref;
})
round ref (some l) (some s) =
    if amounts_and_currencies_match l s then none else some (mismatch ref l s)
round ref none none = none

abbrev pub count_round : Option ReconciliationBreak → ReconciliationResult → ReconciliationResult
count_round none result = record {
  matched_count = suc result.matched_count;
  breaks = result.breaks;
}
count_round (some b) result = record {
  matched_count = result.matched_count;
  breaks = b ∷ result.breaks;
}

unfoldable pub match_refs :
    List LedgerSettledPayment → List SettlementRecord → List String → ReconciliationResult
unfolding ledger_by_ref settlement_by_ref
match_refs ledger settlement [] = record { matched_count = 0; breaks = [] }
match_refs ledger settlement (ref ∷ refs) =
    count_round (round ref (ledger_by_ref ref ledger) (settlement_by_ref ref settlement))
      (match_refs ledger settlement refs)

-- `match`
unfoldable pub match_payments :
    List LedgerSettledPayment → List SettlementRecord → ReconciliationResult
unfolding all_refs match_refs
match_payments ledger_payments settlement_records =
    match_refs ledger_payments settlement_records (all_refs ledger_payments settlement_records)
