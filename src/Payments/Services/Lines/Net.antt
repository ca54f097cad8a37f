-- ===== src/Payments/Services/Lines/Net.antt =====
-- The lines of app/domain/payments/services.py: their sums by currency, and by account.
use instant_payment_ledger_a.Prelude.{
  ℕ, String, ◌≡◌, refl, sym, ℤ, pos, ◌+ℤ◌, ◌<ℤ◌, int_laws, zero-+ℤ, +ℤ_parts, pos_part, neg_part,
  ◌+◌, ◌&&◌, List, [], ◌∷◌, arith, ◌==◌, str_eq, if◌then◌else◌, Bool-cases, inl, inr,
}
use instant_payment_ledger_a.Entities.Ledger.{Direction, JournalLine, signed}
use instant_payment_ledger_a.Entities.Payments.{Payment}
use instant_payment_ledger_a.Ledger.Invariants.Exact.{net, IsDoubleEntry}
use instant_payment_ledger_a.Ledger.Balances.{movement}
use instant_payment_ledger_a.Payments.Services.Lines.{
  line, transfer_lines, fx_lines, fx_reversal_lines,
}

pub transfer_lines-IsDoubleEntry :
    (from to : ℕ) (amount : ℤ) (c : String)
    → pos 0 <ℤ amount
    → IsDoubleEntry (transfer_lines from to amount c)
unfolding net
transfer_lines-IsDoubleEntry from to amount c h = (
  λ e. cc,
  (h, (h, tt)),
  λ k. elim (Bool-cases (str_eq c k)) [ inl e ↦ rw e (omega int_laws) | inr e ↦ rw e refl ],
)

pub transfer_lines-movement :
    (i from to : ℕ) (amount : ℤ) (c k : String)
    → movement i k (transfer_lines to from amount c)
        +ℤ movement i k (transfer_lines from to amount c)
      ≡ pos 0
unfolding movement
transfer_lines-movement i from to amount c k = grind (int_laws)

pub fx_lines-IsDoubleEntry :
    (p : Payment) (s : ℕ) (c k : String) (amount : ℤ)
    → pos 0 <ℤ p.amount
    → pos 0 <ℤ amount
    → IsDoubleEntry (fx_lines p s c k amount)
unfolding net
fx_lines-IsDoubleEntry p s c k amount h h' =
    (λ e. cc, (h, (h, (h', (h', tt)))), λ j. grind (int_laws))

pub fx_reversal_lines-IsDoubleEntry :
    (p : Payment) (s : ℕ) (c k : String) (amount : ℤ)
    → pos 0 <ℤ p.amount
    → pos 0 <ℤ amount
    → IsDoubleEntry (fx_reversal_lines p s c k amount)
unfolding net
fx_reversal_lines-IsDoubleEntry p s c k amount h h' =
    (λ e. cc, (h, (h, (h', (h', tt)))), λ j. grind (int_laws))

-- What one line moves.
abbrev part : ℕ → String → ℕ → Direction → ℤ → String → ℤ
part i j account d amount c = if account == i && str_eq c j then signed d amount else pos 0

part_opposite :
    (i : ℕ) (j : String) (account : ℕ) (amount : ℤ) (c : String)
    → part i j account Direction.debit amount c +ℤ part i j account Direction.credit amount c
      ≡ pos 0
part_opposite i j account amount c = grind (int_laws)

movement-cons :
    (i : ℕ) (j : String) (l : JournalLine) (ls : List JournalLine)
    → movement i j (l ∷ ls)
      ≡ part i j l.account_id l.direction l.amount l.currency +ℤ movement i j ls
unfolding movement
movement-cons i j l ls = elim (Bool-cases (l.account_id == i && str_eq l.currency j)) [
  | inl on ↦ rw on refl
  | inr off ↦ rw off (sym (zero-+ℤ (movement i j ls)))
]

movement_four :
    (i : ℕ) (j : String) (a b c d : JournalLine)
    → movement i j (a ∷ b ∷ c ∷ d ∷ [])
      ≡ part i j a.account_id a.direction a.amount a.currency
        +ℤ (part i j b.account_id b.direction b.amount b.currency
            +ℤ (part i j c.account_id c.direction c.amount c.currency
                +ℤ (part i j d.account_id d.direction d.amount d.currency +ℤ pos 0)))
unfolding movement
movement_four i j a b c d =
    rw (movement-cons i j a _, movement-cons i j b _, movement-cons i j c _, movement-cons i j d _)
      refl

zero_sum : (a b : ℤ) → a +ℤ b ≡ pos 0 → pos_part a + pos_part b ≡ neg_part a + neg_part b
zero_sum a b h = let parts = +ℤ_parts a b in omega (arith, rw h at parts)

-- Sums of eight that cancel in pairs.
cancel :
    (q r s t a b c d : ℤ)
    → q +ℤ b ≡ pos 0
    → a +ℤ r ≡ pos 0
    → c +ℤ t ≡ pos 0
    → s +ℤ d ≡ pos 0
    → q +ℤ (r +ℤ (s +ℤ (t +ℤ pos 0))) +ℤ (a +ℤ (b +ℤ (c +ℤ (d +ℤ pos 0)))) ≡ pos 0
cancel q r s t a b c d e f g h =
    omega (int_laws, zero_sum q b e, zero_sum a r f, zero_sum c t g, zero_sum s d h)

-- A reversal of an exchange moves every balance back.
pub fx_lines-movement :
    (i : ℕ) (p : Payment) (s : ℕ) (c k j : String) (amount : ℤ)
    → movement i j (fx_reversal_lines p s c k amount) +ℤ movement i j (fx_lines p s c k amount)
      ≡ pos 0
fx_lines-movement i p s c k j amount =
    rw
      (
        movement_four i j (line s Direction.debit p.amount c) _ _ _,
        movement_four i j (line p.debtor_account_id Direction.debit p.amount c) _ _ _,
      )
      (cancel _ _ _ _ _ _ _ _ (part_opposite i j s p.amount c)
        (part_opposite i j p.debtor_account_id p.amount c) (part_opposite i j s amount k)
        (part_opposite i j p.creditor_account_id amount k))
