-- ===== src/Entities/Results.antt =====
-- Chains of calls that need no database: the first error is the result.
use instant_payment_ledger_a.Prelude.{
  ◌≡◌, refl, Bool, true, false, if◌then◌else◌, ◌⊎◌, inl, inr, arith,
}
use instant_payment_ledger_a.Entities.Errors.{Error, Result, ok, err}

infixl 5 ◌>>=◌
abbrev pub ◌>>=◌ : {A B : Type 0} → Result A → (A → Result B) → Result B
err error >>= next = err error
ok value >>= next = next value

-- A chain that gives a result has one from each of its calls.
pub >>=_ok :
    {A B : Type 0} (first : Result A) (next : A → Result B) {result : B}
    → (first >>= next) ≡ ok result
    → (value : A) × (first ≡ ok value) × (next value ≡ ok result)
>>=_ok (err error) next h = absurd (ground arith)
>>=_ok (ok value) next h = (value, refl, h)

pub Result-cases {ℓ} :
    {A : Type ℓ} (r : Result A) → ((e : Error) × (r ≡ err e)) ⊎ ((a : A) × (r ≡ ok a))
Result-cases (err e) = inl (e, refl)
Result-cases (ok a) = inr (a, refl)

pub ok_inj : {A : Type 0} {a b : A} → ok a ≡ ok b → a ≡ b
ok_inj h = cc

abbrev pub Covers : {A : Type 0} → (Error → Type 0) → Result A → Type 0
Covers E (ok a) = Unit
Covers E (err e) = E e

-- The error, if the result is one, is of the set `E`.
pub record Within {A : Type 0} (E : Error → Type 0) (r : Result A) : Type 0 where
  pub covered : Covers E r

module _ {E : Error → Type 0} {A : Type 0} where
  pub Within-ok : (a : A) → Within E (ok a)
  Within-ok a = record { covered = tt }

  pub Within-err : (e : Error) → E e → Within {A = A} E (err e)
  Within-err e h = record { covered = h }

  pub Within-if :
      (b : Bool) (r r' : Result A) → Within E r → Within E r' → Within E (if b then r else r')
  Within-if true r r' h h' = h
  Within-if false r r' h h' = h'

  pub Within-bind :
      {B : Type 0} (m : Result A) (f : A → Result B)
      → Within E m
      → ((a : A) → m ≡ ok a → Within E (f a))
      → Within E (m >>= f)
  Within-bind (ok a) f h k = k a refl
  Within-bind (err e) f h k = record { covered = h.covered }

pub Within-weaken :
    {A : Type 0} (E F : Error → Type 0) (r : Result A)
    → ((e : Error) → E e → F e)
    → Within E r
    → Within F r
Within-weaken E F (ok a) k h = Within-ok a
Within-weaken E F (err e) k h = Within-err e (k e h.covered)
