-- ===== src/Reconciliation/Settled.antt =====
-- app/infra/db/repositories/reconciliation_repository.py: which payments a window has.
use instant_payment_ledger_a.Prelude.{
  ℕ, ◌≤◌, ◌<◌, String, ◌≡◌, ◌≢◌, ◌⊎◌, refl, true, false, Option, none, some, List, [], ◌∷◌, arith,
  leb, ltb, Bool-cases, Option-cases, inl, inr, text_cases,
}
use instant_payment_ledger_a.Entities.Payments.{PaymentStatus, Payment, same_status}
use instant_payment_ledger_a.Entities.Reconciliation.{LedgerSettledPayment}
use instant_payment_ledger_a.Database.Tables.{PaymentStatusHistoryRow}
use instant_payment_ledger_a.Repositories.Payments.{find_payment}
use instant_payment_ledger_a.Repositories.Reconciliation.{reference, settled_payment, settled_in}

-- How a payment is referred to: by its end-to-end identifier, if it has one that is not empty.
abbrev pub IsReference : (ℕ → String) → Payment → String → Type 0
IsReference str p ref = elim p.end_to_end_id [
  | none ↦ ref ≡ str p.id
  | some e ↦ ((e ≢ "") × (ref ≡ e)) ⊎ ((e ≡ "") × (ref ≡ str p.id))
]

pub record IsSettledPayment (str : ℕ → String) (p : Payment) (l : LedgerSettledPayment)
    : Type 0 where
  pub payment : l.payment_id ≡ p.id
  pub external_ref : IsReference str p l.external_ref
  pub amount : l.amount ≡ p.amount
  pub currency : l.currency ≡ p.currency

-- `SettledIn hs ls`: the payments that `hs` has a transition to `settled` for, from `start` on and
-- before `end`, are `ls`.
pub data SettledIn (str : ℕ → String) (start end : ℕ) (payments : List Payment)
    : List PaymentStatusHistoryRow → List LedgerSettledPayment → Type 0 where
  no_history : SettledIn str start end payments [] []
  settled_then :
      {h : PaymentStatusHistoryRow} {hs : List PaymentStatusHistoryRow}
      {ls : List LedgerSettledPayment} (p : Payment) (l : LedgerSettledPayment)
      → h.to_status ≡ PaymentStatus.settled
      → start ≤ h.transitioned_at
      → h.transitioned_at < end
      → find_payment h.payment_id payments ≡ some p
      → IsSettledPayment str p l
      → SettledIn str start end payments hs ls
      → SettledIn str start end payments (h ∷ hs) (l ∷ ls)
  other_status :
      {h : PaymentStatusHistoryRow} {hs : List PaymentStatusHistoryRow}
      {ls : List LedgerSettledPayment}
      → h.to_status ≢ PaymentStatus.settled
      → SettledIn str start end payments hs ls
      → SettledIn str start end payments (h ∷ hs) ls
  other_time :
      {h : PaymentStatusHistoryRow} {hs : List PaymentStatusHistoryRow}
      {ls : List LedgerSettledPayment}
      → (h.transitioned_at < start) ⊎ (end ≤ h.transitioned_at)
      → SettledIn str start end payments hs ls
      → SettledIn str start end payments (h ∷ hs) ls
  no_payment :
      {h : PaymentStatusHistoryRow} {hs : List PaymentStatusHistoryRow}
      {ls : List LedgerSettledPayment}
      → find_payment h.payment_id payments ≡ none
      → SettledIn str start end payments hs ls
      → SettledIn str start end payments (h ∷ hs) ls

reference-IsReference :
    (str : ℕ → String) (p : Payment) (o : Option String)
    → p.end_to_end_id ≡ o
    → IsReference str p (reference str p)
reference-IsReference str p none e = rw e refl
reference-IsReference str p (some t) e = elim (text_cases t "") [
  | inl (same, hit) ↦ rw (e, hit) (inr (same, refl))
  | inr (differ, miss) ↦ rw (e, miss) (inl (differ, refl))
]

is_settled :
    (s : PaymentStatus) → same_status s PaymentStatus.settled ≡ true → s ≡ PaymentStatus.settled
is_settled PaymentStatus.settled h = refl
is_settled _ h = cc

not_settled :
    (s : PaymentStatus) → same_status s PaymentStatus.settled ≡ false → s ≢ PaymentStatus.settled
not_settled s h e = cc (rw e at h)

shown : (str : ℕ → String) (p : Payment) → IsSettledPayment str p (settled_payment str p)
shown str p = record {
  payment = refl;
  external_ref = reference-IsReference str p p.end_to_end_id refl;
  amount = refl;
  currency = refl;
}

-- The query gives just those.
pub settled_in-SettledIn :
    (str : ℕ → String) (start end : ℕ) (payments : List Payment) (hs : List PaymentStatusHistoryRow)
    → SettledIn str start end payments hs (settled_in str start end payments hs)
unfolding settled_in
settled_in-SettledIn str start end payments [] = SettledIn.no_history
settled_in-SettledIn str start end payments (h ∷ hs) =
    let rest = settled_in-SettledIn str start end payments hs in
    elim (Bool-cases (same_status h.to_status PaymentStatus.settled)) [
      | inr other ↦ SettledIn.other_status (not_settled h.to_status other) (rw other rest)
      | inl same ↦ elim (Bool-cases (leb start h.transitioned_at)) [
        | inr early ↦ SettledIn.other_time (inl (ground arith)) (rw (same, early) rest)
        | inl from ↦ elim (Bool-cases (ltb h.transitioned_at end)) [
          | inr late ↦ SettledIn.other_time (inr (ground arith)) (rw (same, from, late) rest)
          | inl before ↦ elim (Option-cases (find_payment h.payment_id payments)) [
            | inl missing ↦ SettledIn.no_payment missing (rw (same, from, before, missing) rest)
            | inr (p, found) ↦
                rw (settled_in, same, from, before, found)
                  (SettledIn.settled_then p (settled_payment str p) (is_settled h.to_status same)
                    (ground arith) (ground arith) found (shown str p) rest)
          ]
        ]
      ]
    ]
