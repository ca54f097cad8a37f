-- ===== src/Payments/Services/Transition.antt =====
-- app/domain/payments/services.py, lines 233 to 289, 299 to 354 and 425 to 446: the transitions of a
-- payment.
use Prim.Native.String.{◌++◌}
use instant_payment_ledger_a.Prelude.{
  ℕ, ◌+◌, String, ℤ, Bool, true, not, Option, none, some, if◌then◌else◌,
}
use instant_payment_ledger_a.Entities.Ledger.{JournalEntry, account_ids}
use instant_payment_ledger_a.Entities.Payments.{
  PaymentStatus, Payment, payment_response_dict, value,
}
use instant_payment_ledger_a.Entities.Errors.{concurrent_payment_modification}
use instant_payment_ledger_a.Database.Session.{Action, pure, lift, ◌>>=◌, ◌>>◌}
use instant_payment_ledger_a.Repositories.Ledger.{get_account_versions, insert_journal_entry}
use instant_payment_ledger_a.Repositories.Payments.{
  get_payment, update_payment_status, record_status_transition,
}
use instant_payment_ledger_a.Webhooks.Outbox.{enqueue_payment_webhook_event}
use instant_payment_ledger_a.Concurrency.{retry, give_up, succeed}
use instant_payment_ledger_a.Ledger.Invariants.{validate_journal_entry}
use instant_payment_ledger_a.Ledger.Services.{bump_accounts}
use instant_payment_ledger_a.Payments.StateMachine.{assert_transition_allowed}
use instant_payment_ledger_a.Payments.Services.Lines.{
  BuildLines, BuildLinesResult, settlement_lines, reversal_lines,
}

-- f"payment.{to_status.value}"
unfoldable pub event_type : PaymentStatus → String
unfolding value
event_type to_status = "payment." ++ value to_status

abbrev pub override_fields : Option (ℕ × ℤ) → Payment → Payment
override_fields none payment = payment
override_fields (some (rate_id, amount)) payment = record payment {
  fx_rate_id = some rate_id;
  creditor_amount = some amount;
}

-- `replace(payment, status=..., version=payment.version + 1, **field_overrides)`
abbrev pub transitioned : Payment → PaymentStatus → Option (ℕ × ℤ) → Payment
transitioned payment to_status overrides =
    override_fields overrides (record payment { status = to_status; version = payment.version + 1 })

-- The branch of an attempt that won every race.
unfoldable pub complete_transition :
    ℕ → Payment → PaymentStatus → Option String → Option (ℕ × ℤ) → Action (Option Payment)
unfolding event_type succeed
complete_transition payment_id payment to_status reason overrides = do
  record_status_transition payment_id (some payment.status) to_status reason
  let updated = transitioned payment to_status overrides
  enqueue_payment_webhook_event payment_id (event_type to_status) (payment_response_dict updated)
  succeed updated

-- One round of the loop in `_transition_status_only`.
unfoldable pub status_attempt : ℕ → PaymentStatus → Option String → Action (Option Payment)
unfolding complete_transition give_up
status_attempt payment_id to_status reason = do
  payment ← get_payment payment_id
  lift (assert_transition_allowed payment.status to_status)
  bumped ← update_payment_status payment_id payment.version to_status
  if bumped then complete_transition payment_id payment to_status reason none else give_up

unfoldable pub transition_status_only : ℕ → PaymentStatus → Option String → ℕ → Action Payment
unfolding status_attempt retry
transition_status_only payment_id to_status reason max_attempts =
    retry max_attempts (status_attempt payment_id to_status reason)
      (concurrent_payment_modification payment_id max_attempts)

unfoldable pub authorise_payment : ℕ → ℕ → Action Payment
unfolding transition_status_only
authorise_payment payment_id = transition_status_only payment_id PaymentStatus.authorised none

unfoldable pub fail_payment : ℕ → Option String → ℕ → Action Payment
unfolding transition_status_only
fail_payment payment_id reason = transition_status_only payment_id PaymentStatus.failed reason

-- `JournalEntry(entry_type=entry_type, payment_id=payment.id, lines=lines)`
abbrev pub entry_for : Payment → BuildLinesResult → JournalEntry
entry_for payment built = record {
  entry_type = built.entry_type;
  lines = built.lines;
  payment_id = some payment.id;
  idempotency_key_id = none;
}

-- `if not conflict: conflict = not await update_payment_status(...)`
abbrev pub update_unless : Bool → ℕ → ℕ → PaymentStatus → Action Bool
update_unless conflict payment_id version to_status =
    if conflict
    then pure true
    else (do updated ← update_payment_status payment_id version to_status; pure (not updated))

-- The writes of a round, and the decision.
unfoldable pub write_entry :
    ℕ → Payment → PaymentStatus → JournalEntry → Option (ℕ × ℤ) → Action (Option Payment)
unfolding complete_transition give_up
write_entry payment_id payment to_status entry overrides = do
  versions ← get_account_versions (account_ids entry)
  insert_journal_entry entry
  lost ← bump_accounts versions
  conflict ← update_unless lost payment_id payment.version to_status
  if conflict then give_up else complete_transition payment_id payment to_status none overrides

-- What follows `build_lines` in a round.
unfoldable pub post_and_update :
    ℕ → Payment → PaymentStatus → BuildLinesResult → Action (Option Payment)
unfolding write_entry
post_and_update payment_id payment to_status built = do
  let entry = entry_for payment built
  lift (validate_journal_entry entry.lines)
  write_entry payment_id payment to_status entry built.field_overrides

-- One round of the loop in `_transition_with_ledger_entry`.
unfoldable pub ledger_attempt : ℕ → PaymentStatus → BuildLines → Action (Option Payment)
unfolding post_and_update
ledger_attempt payment_id to_status build_lines = do
  payment ← get_payment payment_id
  lift (assert_transition_allowed payment.status to_status)
  built ← build_lines payment
  post_and_update payment_id payment to_status built

unfoldable pub transition_with_ledger_entry : ℕ → PaymentStatus → BuildLines → ℕ → Action Payment
unfolding ledger_attempt retry
transition_with_ledger_entry payment_id to_status build_lines max_attempts =
    retry max_attempts (ledger_attempt payment_id to_status build_lines)
      (concurrent_payment_modification payment_id max_attempts)

unfoldable pub settle_payment : ℕ → ℕ → Action Payment
unfolding transition_with_ledger_entry settlement_lines
settle_payment payment_id =
    transition_with_ledger_entry payment_id PaymentStatus.settled settlement_lines

unfoldable pub reverse_payment : ℕ → ℕ → Action Payment
unfolding transition_with_ledger_entry reversal_lines
reverse_payment payment_id =
    transition_with_ledger_entry payment_id PaymentStatus.reversed reversal_lines
