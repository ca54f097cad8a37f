-- ===== src/Reconciliation/Matcher/Agreement.antt =====
-- What a report of the matcher says, without its dictionaries and its order.
use Prim.Native.Nat.{Ordering}
use Prim.Native.String.{compare}
use text.Mathlib.TextEquality.{path_by_compare}
use instant_payment_ledger_a.Prelude.{
  String, ◌≡◌, ◌↔◌, ◌⊎◌, inl, inr, refl, sym, ap, ◌∙◌, eqb_ℤ→eq, eqb_ℤ_refl, Option-cases,
  text_cases, eq_iff, false, Option, none, some, List, [], ◌∷◌, ◌++◌, map, arith,
}
use instant_payment_ledger_a.Entities.Reconciliation.{
  SettlementRecord, LedgerSettledPayment, ReconciliationBreak,
}
use instant_payment_ledger_a.Reconciliation.Matcher.{
  or_this, ledger_by_ref, settlement_by_ref, insert_ref, sorted_set, all_refs, round, count_round,
  match_refs, match_payments,
}

abbrev pub IsIn : String → List String → Type 0
IsIn r [] = ⊥
IsIn r (q ∷ qs) = (r ≡ q) ⊎ IsIn r qs

-- Both sides know the reference with one amount and currency, or neither knows it.
abbrev pub IsAgreed : Option LedgerSettledPayment → Option SettlementRecord → Type 0
IsAgreed (some l) (some s) = (l.amount ≡ s.amount) × (l.currency ≡ s.currency)
IsAgreed none none = Unit
IsAgreed _ _ = ⊥

IsAgreed-iff :
    (ref : String) (l : Option LedgerSettledPayment) (s : Option SettlementRecord)
    → (round ref l s ≡ none) ↔ IsAgreed l s
IsAgreed-iff ref none none = (λ h. tt, λ h. refl)
IsAgreed-iff ref (some l) none = (λ h. cc, λ h. absurd h)
IsAgreed-iff ref none (some s) = (λ h. cc, λ h. absurd h)
IsAgreed-iff ref (some l) (some s) = (
  λ h. ground (arith, eqb_ℤ→eq l.amount s.amount, eq_iff l.currency s.currency),
  λ h. ground (arith, eqb_ℤ_refl l.amount s.amount h.0, eq_iff l.currency s.currency),
)

-- The references of the two sides are those looked at.
IsIn-insert_ref : (q r : String) (rs : List String) → (q ≡ r) ⊎ IsIn q rs → IsIn q (insert_ref r rs)
unfolding insert_ref
IsIn-insert_ref q r [] h = h
IsIn-insert_ref q r (p ∷ ps) h =
    elim (compare r p)
        as (λ o.
          compare r p ≡ o
          → IsIn q (elim o [
            | Ordering.lt ↦ r ∷ p ∷ ps
            | Ordering.eq ↦ p ∷ ps
            | Ordering.gt ↦ p ∷ insert_ref r ps
          ])) [
            | Ordering.lt ↦ λ e. h
            | Ordering.eq ↦ λ e. same h (path_by_compare r p e)
            | Ordering.gt ↦ λ e. later h (IsIn-insert_ref q r ps)
          ]
      refl
  where
    same : (q ≡ r) ⊎ ((q ≡ p) ⊎ IsIn q ps) → r ≡ p → (q ≡ p) ⊎ IsIn q ps
    same (inl e) k = inl (e ∙ k)
    same (inr k') k = k'

    later :
        (q ≡ r) ⊎ ((q ≡ p) ⊎ IsIn q ps)
        → ((q ≡ r) ⊎ IsIn q ps → IsIn q (insert_ref r ps))
        → (q ≡ p) ⊎ IsIn q (insert_ref r ps)
    later (inl e) ih = inr (ih (inl e))
    later (inr (inl e)) ih = inl e
    later (inr (inr k)) ih = inr (ih (inr k))

IsIn-sorted_set : (q : String) (rs : List String) → IsIn q rs → IsIn q (sorted_set rs)
unfolding sorted_set
IsIn-sorted_set q [] k = elim k [ ]
IsIn-sorted_set q (r ∷ rs) (inl e) = IsIn-insert_ref q r (sorted_set rs) (inl e)
IsIn-sorted_set q (r ∷ rs) (inr k) =
    IsIn-insert_ref q r (sorted_set rs) (inr (IsIn-sorted_set q rs k))

IsIn-append : (q : String) (rs ss : List String) → IsIn q rs ⊎ IsIn q ss → IsIn q (rs ++ ss)
IsIn-append q [] ss (inl k) = elim k [ ]
IsIn-append q [] ss (inr k) = k
IsIn-append q (r ∷ rs) ss (inl (inl e)) = inl e
IsIn-append q (r ∷ rs) ss (inl (inr k)) = inr (IsIn-append q rs ss (inl k))
IsIn-append q (r ∷ rs) ss (inr k) = inr (IsIn-append q rs ss (inr k))

IsIn-ledger :
    (q : String) (ps : List LedgerSettledPayment) {p : LedgerSettledPayment}
    → ledger_by_ref q ps ≡ some p
    → IsIn q (map (λ l. l.external_ref) ps)
unfolding ledger_by_ref
IsIn-ledger q [] h = cc
IsIn-ledger q (x ∷ xs) {p} h = elim (Option-cases (ledger_by_ref q xs)) [
  | inl e ↦ inl (ground (arith, eq_iff x.external_ref q))
  | inr (l, e) ↦ inr (IsIn-ledger q xs {p = l} e)
]

IsIn-settlement :
    (q : String) (ss : List SettlementRecord) {s : SettlementRecord}
    → settlement_by_ref q ss ≡ some s
    → IsIn q (map (λ r. r.external_ref) ss)
unfolding settlement_by_ref
IsIn-settlement q [] h = cc
IsIn-settlement q (x ∷ xs) {s} h = elim (Option-cases (settlement_by_ref q xs)) [
  | inl e ↦ inl (ground (arith, eq_iff x.external_ref q))
  | inr (l, e) ↦ inr (IsIn-settlement q xs {s = l} e)
]

round_of_no_breaks :
    (l : List LedgerSettledPayment) (s : List SettlementRecord) (refs : List String)
    → (match_refs l s refs).breaks ≡ []
    → (q : String) → IsIn q refs
    → round q (ledger_by_ref q l) (settlement_by_ref q s) ≡ none
unfolding match_refs
round_of_no_breaks l s [] h q k = elim k [ ]
round_of_no_breaks l s (r ∷ rs) h q k =
    go (round r (ledger_by_ref r l) (settlement_by_ref r s)) refl h k (round_of_no_breaks l s rs)
  where
    go :
        (o : Option ReconciliationBreak)
        → round r (ledger_by_ref r l) (settlement_by_ref r s) ≡ o
        → (count_round o (match_refs l s rs)).breaks ≡ []
        → (q ≡ r) ⊎ IsIn q rs
        → ((match_refs l s rs).breaks ≡ []
            → (q : String) → IsIn q rs
            → round q (ledger_by_ref q l) (settlement_by_ref q s) ≡ none)
        → round q (ledger_by_ref q l) (settlement_by_ref q s) ≡ none
    go none e h' (inl same) ih = rw same e
    go none e h' (inr k') ih = ih h' q k'
    go (some b) e h' k' ih = cc

no_breaks_of_agreed :
    (l : List LedgerSettledPayment) (s : List SettlementRecord) (refs : List String)
    → ((q : String) → IsAgreed (ledger_by_ref q l) (settlement_by_ref q s))
    → (match_refs l s refs).breaks ≡ []
unfolding match_refs
no_breaks_of_agreed l s [] h = refl
no_breaks_of_agreed l s (r ∷ rs) h =
    rw ((IsAgreed-iff r (ledger_by_ref r l) (settlement_by_ref r s)).1 (h r))
      (no_breaks_of_agreed l s rs h)

-- A report has no breaks exactly when the two sides agree on every reference.
pub match_payments_iff :
    (l : List LedgerSettledPayment) (s : List SettlementRecord)
    → ((match_payments l s).breaks ≡ [])
      ↔ ((ref : String) → IsAgreed (ledger_by_ref ref l) (settlement_by_ref ref s))
unfolding match_payments all_refs
match_payments_iff l s = (
  λ h ref. elim (Option-cases (ledger_by_ref ref l)) [
    | inr (p, e) ↦ agreed h ref (inl (IsIn-ledger ref l {p = p} e))
    | inl e ↦ elim (Option-cases (settlement_by_ref ref s)) [
      | inr (r, e') ↦ agreed h ref (inr (IsIn-settlement ref s {s = r} e'))
      | inl e' ↦
          (IsAgreed-iff ref (ledger_by_ref ref l) (settlement_by_ref ref s)).0 (rw (e, e') refl)
    ]
  ],
  no_breaks_of_agreed l s _,
)
  where
    ledger_refs : List String
    ledger_refs = map (λ p. p.external_ref) l

    settlement_refs : List String
    settlement_refs = map (λ r. r.external_ref) s

    agreed :
        (match_payments l s).breaks ≡ []
        → (ref : String) → IsIn ref ledger_refs ⊎ IsIn ref settlement_refs
        → IsAgreed (ledger_by_ref ref l) (settlement_by_ref ref s)
    agreed h ref k = (IsAgreed-iff ref (ledger_by_ref ref l) (settlement_by_ref ref s)).0 (
        round_of_no_breaks l s _ h ref (
          IsIn-sorted_set ref (ledger_refs ++ settlement_refs)
            (IsIn-append ref ledger_refs settlement_refs k)))

by_ref_duplicate :
    (p : LedgerSettledPayment) (ls : List LedgerSettledPayment) {later : LedgerSettledPayment}
    → ledger_by_ref p.external_ref ls ≡ some later
    → (ref : String) → ledger_by_ref ref (p ∷ ls) ≡ ledger_by_ref ref ls
unfolding ledger_by_ref
by_ref_duplicate p ls {later} h ref = elim (text_cases p.external_ref ref) [
  | inl (same, hit) ↦
      let found : ledger_by_ref ref ls ≡ some later = ap (λ r. ledger_by_ref r ls) (sym same) ∙ h in
      rw (found) refl
  | inr (differ, miss) ↦ rw miss (keep (ledger_by_ref ref ls))
]
  where
    keep : (o : Option LedgerSettledPayment) → or_this o false p ≡ o
    keep none = refl
    keep (some l) = refl

-- A settled payment whose reference a later one of the list has too makes no difference to whether
-- there are breaks: that it is missing from the file, or there with another amount, is not reported.
pub match_payments-duplicate :
    (p : LedgerSettledPayment) (l : List LedgerSettledPayment) (s : List SettlementRecord)
    {later : LedgerSettledPayment}
    → ledger_by_ref p.external_ref l ≡ some later
    → ((match_payments (p ∷ l) s).breaks ≡ []) ↔ ((match_payments l s).breaks ≡ [])
match_payments-duplicate p l s h =
    let same = by_ref_duplicate p l h in
    (
      λ none'.
          (match_payments_iff l s).1
            (λ ref. rw (sym (same ref)) ((match_payments_iff (p ∷ l) s).0 none' ref)),
      λ none'.
          (match_payments_iff (p ∷ l) s).1
            (λ ref. rw (same ref) ((match_payments_iff l s).0 none' ref)),
    )
