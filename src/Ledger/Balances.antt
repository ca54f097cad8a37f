-- ===== src/Ledger/Balances.antt =====
-- What the lines of an entry do to the balance of an account (`get_balance` of
-- app/infra/db/repositories/ledger_repository.py).
use instant_payment_ledger_a.Prelude.{
  ℕ, String, ◌≡◌, sym, ℤ, pos, ◌+ℤ◌, int_laws, zero-+ℤ, ◌&&◌, List, [], ◌∷◌, ◌++◌, map, arith, ◌==◌,
  str_eq, if◌then◌else◌,
}
use instant_payment_ledger_a.Entities.Ledger.{JournalLine, signed}
use instant_payment_ledger_a.Database.Tables.{JournalLineRow}
use instant_payment_ledger_a.Repositories.Ledger.{balance, line_row}

-- The part of the lines that is on an account in a currency.
unfoldable pub movement : ℕ → String → List JournalLine → ℤ
movement i c [] = pos 0
movement i c (l ∷ ls) =
    let rest = movement i c ls in
    if l.account_id == i && str_eq l.currency c then signed l.direction l.amount +ℤ rest else rest

+ℤ_assoc : (a b c : ℤ) → a +ℤ b +ℤ c ≡ a +ℤ (b +ℤ c)
+ℤ_assoc a b c = omega int_laws

pub balance-map-append :
    (i : ℕ) (c : String) (e : ℕ) (ls : List JournalLine) (rows : List JournalLineRow)
    → balance i c (map (line_row e) ls ++ rows) ≡ movement i c ls +ℤ balance i c rows
unfolding balance movement
balance-map-append i c e [] rows = sym (zero-+ℤ (balance i c rows))
balance-map-append i c e (l ∷ ls) rows = ground (
  arith,
  balance-map-append i c e ls rows,
  +ℤ_assoc (signed l.direction l.amount) (movement i c ls) (balance i c rows),
)
