-- ===== src/Ledger/Invariants/Exact.antt =====
-- What `validate_journal_entry` accepts, said without its dictionary.
use instant_payment_ledger_a.Prelude.{
  String, ◌≡◌, refl, ◌≢◌, ◌↔◌, inl, inr, ℤ, pos, ◌+ℤ◌, ◌<ℤ◌, int_laws, false, none, List, [], ◌∷◌,
  All, arith, str_eq, eq_iff, eq_refl, ◌∙◌, sym, zero-+ℤ, Option-cases, if◌then◌else◌,
}
use instant_payment_ledger_a.Entities.Ledger.{JournalLine, signed_amount}
use instant_payment_ledger_a.Entities.Errors.{ok}
use instant_payment_ledger_a.Ledger.Invariants.{
  Nets, add_to, net_by_currency, unbalanced, invalid_line, raise_unbalanced, validate_journal_entry,
}

-- The signed sum of the lines in one currency.
unfoldable pub net : String → List JournalLine → ℤ
net c [] = pos 0
net c (l ∷ ls) =
    let rest = net c ls in if str_eq l.currency c then signed_amount l +ℤ rest else rest

abbrev pub IsPositive : JournalLine → Type 0
IsPositive l = pos 0 <ℤ l.amount

-- Double entry: some line, positive amounts, and every currency nets to zero.
abbrev pub IsDoubleEntry : List JournalLine → Type 0
IsDoubleEntry ls = (ls ≢ []) × All IsPositive ls × ((c : String) → net c ls ≡ pos 0)

get : String → Nets → ℤ
get c [] = pos 0
get c ((k, n) ∷ d) = if str_eq k c then n else get c d

get-add_to :
    (c k : String) (x : ℤ) (d : Nets)
    → get c (add_to k x d) ≡ (if str_eq k c then get c d +ℤ x else get c d)
unfolding get add_to
get-add_to c k x [] = grind (int_laws)
get-add_to c k x ((j, n) ∷ d) =
    ground (arith, eq_iff j k, eq_iff j c, eq_iff k c, get-add_to c k x d)

get-net_by_currency :
    (c : String) (d : Nets) (ls : List JournalLine)
    → get c (net_by_currency d ls) ≡ get c d +ℤ net c ls
unfolding net_by_currency net
get-net_by_currency c d [] = omega int_laws
get-net_by_currency c d (l ∷ ls) = grind (
  int_laws,
  get-net_by_currency c (add_to l.currency (signed_amount l) d) ls,
  get-add_to c l.currency (signed_amount l) d,
)

-- No key `c` in the dictionary; no key twice.
abbrev IsFresh : String → Nets → Type 0
IsFresh c d = All (λ (e : String × ℤ). str_eq e.0 c ≡ false) d

abbrev HasKeysOnce : Nets → Type 0
HasKeysOnce [] = Unit
HasKeysOnce ((c, n) ∷ d) = IsFresh c d × HasKeysOnce d

IsFresh-add_to :
    (c k : String) (x : ℤ) (d : Nets) → str_eq k c ≡ false → IsFresh c d → IsFresh c (add_to k x d)
unfolding add_to
IsFresh-add_to c k x [] h f = (h, tt)
IsFresh-add_to c k x ((j, n) ∷ d) h f = ground (arith, IsFresh-add_to c k x d h f.1)

HasKeysOnce-add_to : (k : String) (x : ℤ) (d : Nets) → HasKeysOnce d → HasKeysOnce (add_to k x d)
unfolding add_to
HasKeysOnce-add_to k x [] h = (tt, tt)
HasKeysOnce-add_to k x ((j, n) ∷ d) h =
    ground (arith, HasKeysOnce-add_to k x d h.1, IsFresh-add_to j k x d, eq_iff j k, eq_iff k j)

HasKeysOnce-net_by_currency :
    (d : Nets) (ls : List JournalLine) → HasKeysOnce d → HasKeysOnce (net_by_currency d ls)
unfolding net_by_currency
HasKeysOnce-net_by_currency d [] h = h
HasKeysOnce-net_by_currency d (l ∷ ls) h =
    HasKeysOnce-net_by_currency (add_to l.currency (signed_amount l) d) ls
      (HasKeysOnce-add_to l.currency (signed_amount l) d h)

get_of_balanced : (c : String) (d : Nets) → unbalanced d ≡ [] → get c d ≡ pos 0
unfolding unbalanced get
get_of_balanced c [] h = refl
get_of_balanced c ((k, n) ∷ d) h = ground (arith, get_of_balanced c d)

get_of_IsFresh : (c : String) (d : Nets) → IsFresh c d → get c d ≡ pos 0
unfolding get
get_of_IsFresh c [] h = refl
get_of_IsFresh c ((k, n) ∷ d) h = ground (arith, get_of_IsFresh c d)

balanced_of_get : (d : Nets) → HasKeysOnce d → ((c : String) → get c d ≡ pos 0) → unbalanced d ≡ []
unfolding unbalanced get
balanced_of_get [] h g = refl
balanced_of_get ((k, n) ∷ d) h g =
    ground (arith, g k, eq_refl k, balanced_of_get d h.1 λ c. zero_in_tail c)
  where
    zero_in_tail : (c : String) → get c d ≡ pos 0
    zero_in_tail c = ground (arith, g c, eq_iff k c, get_of_IsFresh k d h.0)

pub valid_of_IsPositive : (ls : List JournalLine) → (invalid_line ls ≡ none) ↔ All IsPositive ls
unfolding invalid_line
valid_of_IsPositive [] = (λ h. tt, λ h. refl)
valid_of_IsPositive (l ∷ ls) = (
  λ h. ground (arith, (valid_of_IsPositive ls).0),
  λ h. ground (arith, (valid_of_IsPositive ls).1 h.1),
)

raise_unbalanced_iff : (d : Nets) → (raise_unbalanced d ≡ ok tt) ↔ (d ≡ [])
raise_unbalanced_iff [] = (λ h. refl, λ h. refl)
raise_unbalanced_iff (n ∷ ns) = (λ h. cc, λ h. cc)

nets_iff :
    (ls : List JournalLine)
    → (unbalanced (net_by_currency [] ls) ≡ []) ↔ ((c : String) → net c ls ≡ pos 0)
unfolding get
nets_iff ls = (
  λ h c.
      sym (zero-+ℤ (net c ls))
      ∙ sym (get-net_by_currency c [] ls)
      ∙ get_of_balanced c (net_by_currency [] ls) h,
  λ h.
      balanced_of_get (net_by_currency [] ls) (HasKeysOnce-net_by_currency [] ls tt)
        λ c. get-net_by_currency c [] ls ∙ rw (h c) (omega int_laws),
)

-- An entry passes validation exactly when it has a line, every amount is positive, and the signed
-- amounts of its lines sum to zero in every currency.
pub validate_iff : (ls : List JournalLine) → (validate_journal_entry ls ≡ ok tt) ↔ IsDoubleEntry ls
unfolding validate_journal_entry
validate_iff [] = (λ h. cc, λ h. absurd (h.0 refl))
validate_iff (l ∷ ls) = (forth, back)
  where
    forth : validate_journal_entry (l ∷ ls) ≡ ok tt → IsDoubleEntry (l ∷ ls)
    forth h = elim (Option-cases (invalid_line (l ∷ ls))) [
      | inl e ↦
          let balanced = (raise_unbalanced_iff _).0 (rw e at h) in
          (λ n. cc, (valid_of_IsPositive (l ∷ ls)).0 e, (nets_iff (l ∷ ls)).0 balanced)
      | inr (bad, e) ↦ cc
    ]

    back : IsDoubleEntry (l ∷ ls) → validate_journal_entry (l ∷ ls) ≡ ok tt
    back h =
        rw ((valid_of_IsPositive (l ∷ ls)).1 h.1)
          ((raise_unbalanced_iff _).1 ((nets_iff (l ∷ ls)).1 h.2))
