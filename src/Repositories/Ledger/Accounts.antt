-- ===== src/Repositories/Ledger/Accounts.antt =====
-- The account rows under version bumps.
use instant_payment_ledger_a.Prelude.{
  ℕ, ◌+◌, ◌≡◌, ◌≢◌, refl, true, false, some, List, [], ◌∷◌, arith, ◌==◌, ==_self, Option-cases, inl,
  inr, Bool-cases,
}
use instant_payment_ledger_a.Entities.Ledger.{Account, contains, frozenset}
use instant_payment_ledger_a.Entities.Errors.{Result, ok, err}
use instant_payment_ledger_a.Repositories.Ledger.{
  find_account, versions_of, bump_version, version_is_current,
}

pub find_account-id :
    (i : ℕ) (as' : List Account) {a : Account} → find_account i as' ≡ some a → a.id ≡ i
unfolding find_account
find_account-id i [] e = cc
find_account-id i (b ∷ as') {a} e = ground (arith, find_account-id i as' {a = a})

-- A bump of one account leaves the others alone,
pub find_account-bump_version_ne :
    (j i v : ℕ) (as' : List Account)
    → j ≢ i
    → find_account j (bump_version i v as') ≡ find_account j as'
unfolding find_account bump_version
find_account-bump_version_ne j i v [] h = refl
find_account-bump_version_ne j i v (a ∷ as') h =
    ground (arith, find_account-bump_version_ne j i v as' h)

-- and raises the version of its own.
pub find_account-bump_version_self :
    (i : ℕ) (as' : List Account) {a : Account}
    → find_account i as' ≡ some a
    → find_account i (bump_version i a.version as') ≡ some (record a { version = a.version + 1 })
unfolding find_account bump_version
find_account-bump_version_self i [] e = cc
find_account-bump_version_self i (b ∷ as') {a} e = elim (Bool-cases (b.id == i)) [
  | inl hit ↦ let same : b ≡ a = ground arith in rw (← same) (rw (hit, ==_self b.version, hit))
  | inr miss ↦ simp miss (find_account-bump_version_self i as' {a = a} (ground arith))
]

abbrev pub IsDistinct : List ℕ → Type 0
IsDistinct [] = Unit
IsDistinct (n ∷ ns) = (contains n ns ≡ false) × IsDistinct ns

pub frozenset-IsDistinct : (ns : List ℕ) → IsDistinct (frozenset ns)
frozenset-IsDistinct [] = tt
frozenset-IsDistinct (n ∷ ns) = ground (arith, frozenset-IsDistinct ns)

pub versions_of-bump_version :
    (i v : ℕ) (is : List ℕ) (as' : List Account)
    → contains i is ≡ false
    → versions_of is (bump_version i v as') ≡ versions_of is as'
unfolding versions_of
versions_of-bump_version i v [] as' h = refl
versions_of-bump_version i v (j ∷ is) as' h =
    ground (arith, versions_of-bump_version i v is as', find_account-bump_version_ne j i v as')

-- The bumps of a whole dictionary of versions.
unfoldable pub bump_all : List (ℕ × ℕ) → List Account → List Account
bump_all [] as' = as'
bump_all ((i, v) ∷ vs) as' = bump_all vs (bump_version i v as')

-- What `versions_of` of a longer list says of its parts.
pub versions_of-cons :
    (i : ℕ) (is : List ℕ) (as' : List Account) {vs : List (ℕ × ℕ)}
    → versions_of (i ∷ is) as' ≡ ok vs
    → (a : Account) × (rest : List (ℕ × ℕ)) × (find_account i as' ≡ some a)
      × (versions_of is as' ≡ ok rest)
      × (vs ≡ (i, a.version) ∷ rest)
unfolding versions_of
versions_of-cons i is as' {vs} e = elim (Option-cases (find_account i as')) [
  | inl missing ↦ cc
  | inr (a, found) ↦ parts a found (versions_of is as') refl
]
  where
    parts :
        (a : Account)
        → find_account i as' ≡ some a
        → (r : Result (List (ℕ × ℕ))) → versions_of is as' ≡ r
        → (a : Account) × (rest : List (ℕ × ℕ)) × (find_account i as' ≡ some a)
          × (versions_of is as' ≡ ok rest)
          × (vs ≡ (i, a.version) ∷ rest)
    parts a found (ok rest) h = (a, rest, found, h, ground arith)
    parts a found (err x) h = cc

pub version_is_current_lem :
    (i : ℕ) (as' : List Account) {a : Account}
    → find_account i as' ≡ some a
    → version_is_current i a.version as' ≡ true
unfolding version_is_current
version_is_current_lem i as' {a} e = rw (e, version_is_current) (==_self a.version)
