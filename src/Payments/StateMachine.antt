-- ===== src/Payments/StateMachine.antt =====
-- app/domain/payments/state_machine.py.
pub mod Lifecycle
use instant_payment_ledger_a.Prelude.{Bool, false, ◌||◌, List, [], ◌∷◌, if◌then◌else◌}
use instant_payment_ledger_a.Entities.Payments.{PaymentStatus, same_status}
use instant_payment_ledger_a.Entities.Errors.{Result, ok, err, invalid_payment_transition}

unfoldable pub allowed_transitions : PaymentStatus → List PaymentStatus
allowed_transitions PaymentStatus.initiated = PaymentStatus.authorised ∷ PaymentStatus.failed ∷ []
allowed_transitions PaymentStatus.authorised = PaymentStatus.settled ∷ PaymentStatus.failed ∷ []
allowed_transitions PaymentStatus.settled = PaymentStatus.reversed ∷ []
allowed_transitions PaymentStatus.reversed = []
allowed_transitions PaymentStatus.failed = []

abbrev pub mem_status : PaymentStatus → List PaymentStatus → Bool
mem_status s [] = false
mem_status s (t ∷ ts) = same_status s t || mem_status s ts

unfoldable pub assert_transition_allowed : PaymentStatus → PaymentStatus → Result (Unit {0})
unfolding allowed_transitions
assert_transition_allowed from_status to_status =
    if mem_status to_status (allowed_transitions from_status)
    then ok tt
    else err (invalid_payment_transition from_status to_status)
