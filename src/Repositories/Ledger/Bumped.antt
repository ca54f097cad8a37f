-- ===== src/Repositories/Ledger/Bumped.antt =====
-- The account rows before and after version bumps, and the reading of versions.
use instant_payment_ledger_a.Prelude.{
  ℕ, ◌+◌, String, ◌≡◌, refl, ap, ◌∙◌, Option, some, List, [], ◌∷◌, All, arith, ◌==◌, str_eq,
  Bool-cases, inl, inr,
}
use instant_payment_ledger_a.Entities.Ledger.{Account, contains, frozenset}
use instant_payment_ledger_a.Entities.Errors.{ok}
use instant_payment_ledger_a.Repositories.Ledger.{
  find_account, find_number, versions_of, bump_version, has_version,
}
use instant_payment_ledger_a.Repositories.Ledger.Accounts.{bump_all}

-- The same account, but for its version.
abbrev pub IsSame : Account → Account → Type 0
IsSame a b = (b.id ≡ a.id) × (b.currency ≡ a.currency)

abbrev pub HasSame : Option Account → Account → Type 0
HasSame o a = (b : Account) × (o ≡ some b) × IsSame a b

-- Whatever can be found still can, by identifier and by number.
abbrev pub IsKept : List Account → List Account → Type 0
IsKept as' bs =
    ((i : ℕ) (a : Account) → find_account i as' ≡ some a → HasSame (find_account i bs) a)
    × ((n : String) (a : Account) → find_number n as' ≡ some a → HasSame (find_number n bs) a)

bump_version-by_id :
    (i v : ℕ) (j : ℕ) (as' : List Account) (a : Account)
    → find_account j as' ≡ some a
    → HasSame (find_account j (bump_version i v as')) a
unfolding find_account bump_version
bump_version-by_id i v j [] a e = cc
bump_version-by_id i v j (b ∷ as') a e = elim (Bool-cases (has_version i v b)) [
  | inl moves ↦ rw moves (
      found (λ m. bump_version-by_id i v j as' a m) (record b { version = b.version + 1 }) refl refl
        refl)
  | inr stays ↦ rw stays (found (λ m. bump_version-by_id i v j as' a m) b refl refl refl)
]
  where
    found :
        (find_account j as' ≡ some a → HasSame (find_account j (bump_version i v as')) a)
        → (b' : Account) → b'.id ≡ b.id
        → b'.account_number ≡ b.account_number
        → b'.currency ≡ b.currency
        → HasSame (find_account j (b' ∷ bump_version i v as')) a
    found later b' same_id same_number same_currency = elim (Bool-cases (b.id == j)) [
      | inl hit ↦
          let same : b ≡ a = ground arith in
          (
            b',
            rw (same_id, hit) refl,
            (same_id ∙ ap (λ x. x.id) same, same_currency ∙ ap (λ x. x.currency) same),
          )
      | inr miss ↦ rw (same_id, miss) (later (ground arith))
    ]

bump_version-by_number :
    (i v : ℕ) (j : String) (as' : List Account) (a : Account)
    → find_number j as' ≡ some a
    → HasSame (find_number j (bump_version i v as')) a
unfolding find_number bump_version
bump_version-by_number i v j [] a e = cc
bump_version-by_number i v j (b ∷ as') a e = elim (Bool-cases (has_version i v b)) [
  | inl moves ↦ rw moves (
      found (λ m. bump_version-by_number i v j as' a m) (record b { version = b.version + 1 }) refl
        refl refl)
  | inr stays ↦ rw stays (found (λ m. bump_version-by_number i v j as' a m) b refl refl refl)
]
  where
    found :
        (find_number j as' ≡ some a → HasSame (find_number j (bump_version i v as')) a)
        → (b' : Account) → b'.id ≡ b.id
        → b'.account_number ≡ b.account_number
        → b'.currency ≡ b.currency
        → HasSame (find_number j (b' ∷ bump_version i v as')) a
    found later b' same_id same_number same_currency =
        elim (Bool-cases (str_eq b.account_number j)) [
          | inl hit ↦
              let same : b ≡ a = ground arith in
              (
                b',
                rw (same_number, hit) refl,
                (same_id ∙ ap (λ x. x.id) same, same_currency ∙ ap (λ x. x.currency) same),
              )
          | inr miss ↦ rw (same_number, miss) (later (ground arith))
        ]

IsSame-trans : (o : Option Account) (a b : Account) → IsSame a b → HasSame o b → HasSame o a
IsSame-trans o a b same (c, e, later) = (c, e, (later.0 ∙ same.0, later.1 ∙ same.1))

pub bump_all-IsKept : (vs : List (ℕ × ℕ)) (as' : List Account) → IsKept as' (bump_all vs as')
unfolding bump_all
bump_all-IsKept [] as' = (λ i a e. (a, e, (refl, refl)), λ n a e. (a, e, (refl, refl)))
bump_all-IsKept ((i, v) ∷ vs) as' =
    let later = bump_all-IsKept vs (bump_version i v as') in
    (
      λ j a e.
          let (b, found, same) = bump_version-by_id i v j as' a e in
          IsSame-trans _ a b same (later.0 j b found),
      λ n a e.
          let (b, found, same) = bump_version-by_number i v n as' a e in
          IsSame-trans _ a b same (later.1 n b found),
    )

abbrev pub IsAccount : List Account → ℕ → Type 0
IsAccount as' i = (a : Account) × (find_account i as' ≡ some a)

All-frozenset :
    (as' : List Account) (is : List ℕ) → All (IsAccount as') is → All (IsAccount as') (frozenset is)
All-frozenset as' [] h = tt
All-frozenset as' (i ∷ is) h = elim (Bool-cases (contains i (frozenset is))) [
  | inl seen ↦ rw seen (All-frozenset as' is h.1)
  | inr unseen ↦ rw unseen (h.0, All-frozenset as' is h.1)
]

versions_of_accounts :
    (as' : List Account) (is : List ℕ)
    → All (IsAccount as') is
    → (vs : List (ℕ × ℕ)) × (versions_of is as' ≡ ok vs)
unfolding versions_of
versions_of_accounts as' [] h = ([], refl)
versions_of_accounts as' (i ∷ is) ((a, found), rest) =
    let (vs, e) = versions_of_accounts as' is rest in ((i, a.version) ∷ vs, rw (found, e) refl)

pub versions_of-frozenset :
    (as' : List Account) (is : List ℕ)
    → All (IsAccount as') is
    → (vs : List (ℕ × ℕ)) × (versions_of (frozenset is) as' ≡ ok vs)
versions_of-frozenset as' is h = versions_of_accounts as' (frozenset is) (All-frozenset as' is h)
