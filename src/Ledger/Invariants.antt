-- ===== src/Ledger/Invariants.antt =====
-- app/domain/ledger/invariants.py.
pub mod Exact
use instant_payment_ledger_a.Prelude.{
  String, ℤ, pos, ◌+ℤ◌, leb_ℤ, eqb_ℤ, Option, none, some, List, [], ◌∷◌, str_eq, if◌then◌else◌,
}
use instant_payment_ledger_a.Entities.Ledger.{JournalLine, signed_amount}
use instant_payment_ledger_a.Entities.Errors.{
  Result, ok, err, empty_journal_entry, invalid_line_amount, unbalanced_entry,
}

-- The dictionary from currencies to net amounts, in order of insertion.
abbrev pub Nets : Type 0
Nets = List (String × ℤ)

-- `net_by_currency[currency] += amount` on a `defaultdict(Decimal)`.
unfoldable pub add_to : String → ℤ → Nets → Nets
add_to currency amount [] = (currency, pos 0 +ℤ amount) ∷ []
add_to currency amount ((c, net) ∷ d) =
    if str_eq c currency then (c, net +ℤ amount) ∷ d else (c, net) ∷ add_to currency amount d

unfoldable pub net_by_currency : Nets → List JournalLine → Nets
unfolding add_to
net_by_currency d [] = d
net_by_currency d (line ∷ lines) =
    net_by_currency (add_to line.currency (signed_amount line) d) lines

unfoldable pub unbalanced : Nets → Nets
unbalanced [] = []
unbalanced ((c, net) ∷ d) = if eqb_ℤ net (pos 0) then unbalanced d else (c, net) ∷ unbalanced d

-- The first line whose amount is not positive.
unfoldable pub invalid_line : List JournalLine → Option JournalLine
invalid_line [] = none
invalid_line (line ∷ lines) = if leb_ℤ line.amount (pos 0) then some line else invalid_line lines

abbrev pub raise_unbalanced : Nets → Result (Unit {0})
raise_unbalanced [] = ok tt
raise_unbalanced (n ∷ ns) = err (unbalanced_entry (n ∷ ns))

abbrev pub raise_invalid : Option JournalLine → Result (Unit {0}) → Result (Unit {0})
raise_invalid (some line) rest = err (invalid_line_amount line)
raise_invalid none rest = rest

unfoldable pub validate_journal_entry : List JournalLine → Result (Unit {0})
unfolding net_by_currency unbalanced invalid_line
validate_journal_entry [] = err empty_journal_entry
validate_journal_entry (line ∷ lines) =
    raise_invalid (invalid_line (line ∷ lines))
      (raise_unbalanced (unbalanced (net_by_currency [] (line ∷ lines))))
