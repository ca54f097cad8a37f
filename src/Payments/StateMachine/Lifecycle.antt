-- ===== src/Payments/StateMachine/Lifecycle.antt =====
-- The lifecycle as a relation: initiated, authorised, settled, reversed, and failed from either of the
-- first two.
use instant_payment_ledger_a.Prelude.{ℕ, ◌<◌, ◌≡◌, ◌↔◌, refl, arith, Bool-cases, inl, inr}
use instant_payment_ledger_a.Entities.Payments.{PaymentStatus}
use instant_payment_ledger_a.Entities.Errors.{ok, err, invalid_payment_transition}
use instant_payment_ledger_a.Payments.StateMachine.{
  allowed_transitions, mem_status, assert_transition_allowed,
}

pub data Step : PaymentStatus → PaymentStatus → Type 0 where
  authorises : Step PaymentStatus.initiated PaymentStatus.authorised
  settles : Step PaymentStatus.authorised PaymentStatus.settled
  reverses : Step PaymentStatus.settled PaymentStatus.reversed
  fails_early : Step PaymentStatus.initiated PaymentStatus.failed
  fails_late : Step PaymentStatus.authorised PaymentStatus.failed

Step-of_allowed : (s t : PaymentStatus) → assert_transition_allowed s t ≡ ok tt → Step s t
unfolding assert_transition_allowed
Step-of_allowed PaymentStatus.initiated PaymentStatus.authorised h = authorises
Step-of_allowed PaymentStatus.initiated PaymentStatus.failed h = fails_early
Step-of_allowed PaymentStatus.authorised PaymentStatus.settled h = settles
Step-of_allowed PaymentStatus.authorised PaymentStatus.failed h = fails_late
Step-of_allowed PaymentStatus.settled PaymentStatus.reversed h = reverses
Step-of_allowed PaymentStatus.settled _ h = cc
Step-of_allowed PaymentStatus.initiated _ h = cc
Step-of_allowed PaymentStatus.authorised _ h = cc
Step-of_allowed _ _ h = cc

allowed_of_Step : {s t : PaymentStatus} → Step s t → assert_transition_allowed s t ≡ ok tt
unfolding assert_transition_allowed
allowed_of_Step authorises = refl
allowed_of_Step settles = refl
allowed_of_Step reverses = refl
allowed_of_Step fails_early = refl
allowed_of_Step fails_late = refl

-- The table allows exactly the five steps of the lifecycle.
pub assert_transition_allowed_iff :
    (s t : PaymentStatus) → (assert_transition_allowed s t ≡ ok tt) ↔ Step s t
assert_transition_allowed_iff s t = (Step-of_allowed s t, allowed_of_Step)

-- Everything else is refused by name.
pub refused_of_not_Step :
    {s t : PaymentStatus}
    → ¬ Step s t
    → assert_transition_allowed s t ≡ err (invalid_payment_transition s t)
unfolding assert_transition_allowed
refused_of_not_Step {s} {t} h = elim (Bool-cases (mem_status t (allowed_transitions s))) [
  | inl allowed ↦ absurd (h (Step-of_allowed s t (rw allowed refl)))
  | inr not_allowed ↦ rw not_allowed refl
]

-- One or more transitions that the table allows.
pub data Reaches (s : PaymentStatus) : PaymentStatus → Type 0 where
  once : {t : PaymentStatus} → assert_transition_allowed s t ≡ ok tt → Reaches s t
  more : {t u : PaymentStatus} → Reaches s t → assert_transition_allowed t u ≡ ok tt → Reaches s u

rank : PaymentStatus → ℕ
rank PaymentStatus.initiated = 0
rank PaymentStatus.authorised = 1
rank PaymentStatus.settled = 2
rank PaymentStatus.reversed = 3
rank PaymentStatus.failed = 3

rank-Step : {s t : PaymentStatus} → Step s t → rank s < rank t
unfolding rank
rank-Step authorises = omega arith
rank-Step settles = omega arith
rank-Step reverses = omega arith
rank-Step fails_early = omega arith
rank-Step fails_late = omega arith

rank-Reaches : {s t : PaymentStatus} → Reaches s t → rank s < rank t
rank-Reaches {s} (once {t = t} h) = rank-Step (Step-of_allowed s t h)
rank-Reaches (more {t = t} {u = u} r h) =
    omega (arith, rank-Reaches r, rank-Step (Step-of_allowed t u h))

-- By transitions that the table allows no status is reached again: nothing is settled or reversed
-- twice.
pub not-Reaches_self : (s : PaymentStatus) → ¬ Reaches s s
not-Reaches_self s r = omega (arith, rank-Reaches r)
