-- ===== src/Reconciliation/Matcher/Assertion.antt =====
-- app/domain/reconciliation/matcher.py: the assertion in the last branch of the loop.
use Prim.Native.Nat.{Ordering}
use Prim.Native.String.{compare}
use instant_payment_ledger_a.Prelude.{
  String, ◌≡◌, ◌⊎◌, inl, inr, sym, Option, none, some, List, [], ◌∷◌, ◌++◌, map, text_cases, Bool,
}
use instant_payment_ledger_a.Entities.Reconciliation.{SettlementRecord, LedgerSettledPayment}
use instant_payment_ledger_a.Reconciliation.Matcher.{
  or_this, ledger_by_ref, settlement_by_ref, insert_ref, sorted_set, all_refs,
}
use instant_payment_ledger_a.Reconciliation.Matcher.Agreement.{IsIn}

insert_ref-IsIn : (q r : String) (rs : List String) → IsIn q (insert_ref r rs) → (q ≡ r) ⊎ IsIn q rs
unfolding insert_ref
insert_ref-IsIn q r [] h = h
insert_ref-IsIn q r (p ∷ ps) h = by_order (compare r p) h (insert_ref-IsIn q r ps)
  where
    by_order :
        (o : Ordering)
        → IsIn q (elim o [
          | Ordering.lt ↦ r ∷ p ∷ ps
          | Ordering.eq ↦ p ∷ ps
          | Ordering.gt ↦ p ∷ insert_ref r ps
        ])
        → (IsIn q (insert_ref r ps) → (q ≡ r) ⊎ IsIn q ps)
        → (q ≡ r) ⊎ IsIn q (p ∷ ps)
    by_order Ordering.lt k rest = k
    by_order Ordering.eq k rest = inr k
    by_order Ordering.gt (inl e) rest = inr (inl e)
    by_order Ordering.gt (inr k) rest = elim (rest k) [ inl e ↦ inl e | inr k' ↦ inr (inr k') ]

sorted_set-IsIn : (q : String) (rs : List String) → IsIn q (sorted_set rs) → IsIn q rs
unfolding sorted_set
sorted_set-IsIn q [] k = k
sorted_set-IsIn q (r ∷ rs) k = elim (insert_ref-IsIn q r (sorted_set rs) k) [
  | inl e ↦ inl e
  | inr k' ↦ inr (sorted_set-IsIn q rs k')
]

append-IsIn : (q : String) (rs ss : List String) → IsIn q (rs ++ ss) → IsIn q rs ⊎ IsIn q ss
append-IsIn q [] ss k = inr k
append-IsIn q (r ∷ rs) ss (inl e) = inl (inl e)
append-IsIn q (r ∷ rs) ss (inr k) = elim (append-IsIn q rs ss k) [
  | inl k' ↦ inl (inr k')
  | inr k' ↦ inr k'
]

-- One of the two sides knows the reference.
abbrev pub IsKnown : Option LedgerSettledPayment → Option SettlementRecord → Type 0
IsKnown none none = ⊥
IsKnown _ _ = Unit

abbrev IsSome : {A : Type 0} → Option A → Type 0
IsSome none = ⊥
IsSome (some a) = Unit

or_this_hit : {A : Type 0} (later : Option A) (x : A) → IsSome (or_this later Bool.true x)
or_this_hit none x = tt
or_this_hit (some l) x = tt

or_this_later :
    {A : Type 0} (later : Option A) (b : Bool) (x : A) → IsSome later → IsSome (or_this later b x)
or_this_later none b x h = absurd h
or_this_later (some l) b x h = tt

by_ref_ledger :
    (q : String) (ps : List LedgerSettledPayment)
    → IsIn q (map (λ p. p.external_ref) ps)
    → IsSome (ledger_by_ref q ps)
unfolding ledger_by_ref
by_ref_ledger q [] k = k
by_ref_ledger q (p ∷ ps) (inr k) = or_this_later (ledger_by_ref q ps) _ p (by_ref_ledger q ps k)
by_ref_ledger q (p ∷ ps) (inl e) = elim (text_cases p.external_ref q) [
  | inl (same, hit) ↦ rw hit (or_this_hit (ledger_by_ref q ps) p)
  | inr (differ, miss) ↦ absurd (differ (sym e))
]

by_ref_settlement :
    (q : String) (ss : List SettlementRecord)
    → IsIn q (map (λ s. s.external_ref) ss)
    → IsSome (settlement_by_ref q ss)
unfolding settlement_by_ref
by_ref_settlement q [] k = k
by_ref_settlement q (s ∷ ss) (inr k) =
    or_this_later (settlement_by_ref q ss) _ s (by_ref_settlement q ss k)
by_ref_settlement q (s ∷ ss) (inl e) = elim (text_cases s.external_ref q) [
  | inl (same, hit) ↦ rw hit (or_this_hit (settlement_by_ref q ss) s)
  | inr (differ, miss) ↦ absurd (differ (sym e))
]

ledger_has_it :
    (l : Option LedgerSettledPayment) (s : Option SettlementRecord) → IsSome l → IsKnown l s
ledger_has_it none s h = absurd h
ledger_has_it (some p) s h = tt

settlement_has_it :
    (l : Option LedgerSettledPayment) (s : Option SettlementRecord) → IsSome s → IsKnown l s
settlement_has_it l none h = absurd h
settlement_has_it none (some r) h = tt
settlement_has_it (some p) (some r) h = tt

-- The assertion in the loop of the matcher never fails: each reference that is looked at is known to
-- the ledger or to the settlement file.
pub all_refs-IsKnown :
    (l : List LedgerSettledPayment) (s : List SettlementRecord) (ref : String)
    → IsIn ref (all_refs l s)
    → IsKnown (ledger_by_ref ref l) (settlement_by_ref ref s)
unfolding all_refs
all_refs-IsKnown l s ref k =
    elim (append-IsIn ref (map (λ p. p.external_ref) l) (map (λ r. r.external_ref) s)
      (sorted_set-IsIn ref _ k)) [
        | inl k' ↦ ledger_has_it (ledger_by_ref ref l) _ (by_ref_ledger ref l k')
        | inr k' ↦ settlement_has_it _ (settlement_by_ref ref s) (by_ref_settlement ref s k')
      ]
