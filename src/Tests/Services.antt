-- ===== src/Tests/Services.antt =====
-- The theorems that hold with others at work.
use instant_payment_ledger_a.Prelude.{◌≡◌, ◌↔◌, refl, [], ◌∷◌}
use instant_payment_ledger_a.Entities.Errors.{ok, empty_journal_entry}
use instant_payment_ledger_a.Entities.Payments.{PaymentStatus}
use instant_payment_ledger_a.Database.Session.{Session, transaction}
use instant_payment_ledger_a.Database.Keeps.{Holds}
use instant_payment_ledger_a.Database.Leaves.{ByOthers}
use instant_payment_ledger_a.Ledger.Conservation.{IsConserved, total}
use instant_payment_ledger_a.Ledger.Invariants.{validate_journal_entry}
use instant_payment_ledger_a.Ledger.Invariants.Exact.{IsDoubleEntry, validate_iff}
use instant_payment_ledger_a.Ledger.Services.{post_journal_entry}
use instant_payment_ledger_a.Payments.Services.Initiate.{}
use instant_payment_ledger_a.Payments.StateMachine.{assert_transition_allowed}
use instant_payment_ledger_a.Payments.StateMachine.Lifecycle.{
  Step, assert_transition_allowed_iff, Reaches, not-Reaches_self,
}
use instant_payment_ledger_a.Payments.Guarantees.{
  post_journal_entry-Holds, post_journal_entry-ByOthers,
}
use instant_payment_ledger_a.Tests.Data.{start, transfer, no_lines}

-- Somebody else commits a change of the clock before the second statement.
abbrev busy : Session
busy = record {
  view = start;
  committed = start;
  others = (λ db. db) ∷ (λ db. record db { now = 13 }) ∷ [];
}

busy-Holds : Holds IsConserved busy
unfolding total
busy-Holds = record { seen = λ c. refl; stored = λ c. refl; kept = (λ db h. h, (λ db h. h, tt)) }

post_journal_entry-Holds_example : Holds IsConserved (post_journal_entry transfer 5 busy).1
post_journal_entry-Holds_example = post_journal_entry-Holds transfer 5 busy busy-Holds

post_journal_entry-ByOthers_example : ByOthers busy (post_journal_entry no_lines 5 busy).1
unfolding post_journal_entry validate_journal_entry transaction
post_journal_entry-ByOthers_example =
    post_journal_entry-ByOthers no_lines 5 busy empty_journal_entry refl

validate_iff_example :
    (validate_journal_entry transfer.lines ≡ ok tt) ↔ IsDoubleEntry transfer.lines
validate_iff_example = validate_iff transfer.lines

assert_transition_allowed_iff_example :
    (assert_transition_allowed PaymentStatus.settled PaymentStatus.reversed ≡ ok tt)
    ↔ Step PaymentStatus.settled PaymentStatus.reversed
assert_transition_allowed_iff_example =
    assert_transition_allowed_iff PaymentStatus.settled PaymentStatus.reversed

not-Reaches_self_example : ¬ Reaches PaymentStatus.settled PaymentStatus.settled
not-Reaches_self_example = not-Reaches_self PaymentStatus.settled
