-- ===== src/Payments/Conservation.antt =====
-- app/domain/payments/services.py: the sum of all journal lines in each currency.
use instant_payment_ledger_a.Prelude.{
  ℕ, String, ℤ, refl, Bool, Option, none, some, List, [], ◌∷◌, arith,
}
use instant_payment_ledger_a.Entities.Ledger.{Account, JournalEntry}
use instant_payment_ledger_a.Entities.Payments.{
  PaymentStatus, Payment, PaymentResponse, IdempotencyOutcome, started, replay,
  in_progress_conflict, hash_mismatch,
}
use instant_payment_ledger_a.Entities.Webhooks.{WebhookSubscription}
use instant_payment_ledger_a.Database.Keeps.{
  Keeps, Keeps-pure, Keeps-raise, Keeps-if, Keeps-then, Keeps-then_lift, keeps_rules,
}
use instant_payment_ledger_a.Repositories.Ledger.{
  get_account, get_account_by_number, insert_journal_entry,
}
use instant_payment_ledger_a.Repositories.Payments.{
  create_payment, get_payment, update_payment_status, record_status_transition, set_fx_details,
}
use instant_payment_ledger_a.Repositories.Fx.{get_latest_rate}
use instant_payment_ledger_a.Repositories.Idempotency.{begin_attempt, complete_attempt}
use instant_payment_ledger_a.Repositories.Webhooks.{list_active_subscriptions, enqueue_delivery}
use instant_payment_ledger_a.Concurrency.Rules.{Keeps-retry, attempt_rules}
use instant_payment_ledger_a.Ledger.Invariants.{validate_journal_entry}
use instant_payment_ledger_a.Ledger.Invariants.Exact.{validate_iff}
use instant_payment_ledger_a.Ledger.Conservation.{
  IsConserved, Keeps-lines, Keeps-lines_execute, insert_journal_entry-IsConserved,
  get_account_versions-IsConserved, bump_accounts-IsConserved,
}
use instant_payment_ledger_a.Webhooks.Outbox.{
  takes_event, enqueue_all, enqueue_payment_webhook_event,
}
use instant_payment_ledger_a.Payments.Services.Initiate.{
  PaymentRequest, Digest, create_payment_within, assert_debtor_currency_matches, initiate_payment,
  claim_phase, create_phase, stored_response, answer, initiate_payment_idempotent,
}
use instant_payment_ledger_a.Payments.Services.Lines.{
  BuildLines, BuildLinesResult, settlement_lines, fx_settlement, reversal_by_booking, fx_reversal,
  reversal_lines,
}
use instant_payment_ledger_a.Payments.Services.Transition.{
  complete_transition, status_attempt, transition_status_only, authorise_payment, fail_payment,
  entry_for, update_unless, write_entry, post_and_update, ledger_attempt,
  transition_with_ledger_entry, settle_payment, reverse_payment,
}

get_account-IsConserved : (i : ℕ) → Keeps IsConserved (get_account i)
unfolding get_account
get_account-IsConserved i = search keeps_rules

get_account_by_number-IsConserved : (n : String) → Keeps IsConserved (get_account_by_number n)
unfolding get_account_by_number
get_account_by_number-IsConserved n = search keeps_rules

get_payment-IsConserved : (i : ℕ) → Keeps IsConserved (get_payment i)
unfolding get_payment
get_payment-IsConserved i = search keeps_rules

get_latest_rate-IsConserved : (b q : String) → Keeps IsConserved (get_latest_rate b q)
unfolding get_latest_rate
get_latest_rate-IsConserved b q = search keeps_rules

list_active_subscriptions-IsConserved : Keeps IsConserved list_active_subscriptions
unfolding list_active_subscriptions
list_active_subscriptions-IsConserved = search keeps_rules

create_payment-IsConserved :
    (d c : ℕ) (x : ℤ) (currency : String) (e : Option String)
    → Keeps IsConserved (create_payment d c x currency e)
unfolding create_payment
create_payment-IsConserved d c x currency e =
    Keeps-if _ _ _ (Keeps-lines _ λ db. ground arith) (Keeps-raise _)

update_payment_status-IsConserved :
    (i v : ℕ) (to : PaymentStatus) → Keeps IsConserved (update_payment_status i v to)
unfolding update_payment_status
update_payment_status-IsConserved i v to = Keeps-lines _ λ db. refl

record_status_transition-IsConserved :
    (i : ℕ) (from : Option PaymentStatus) (to : PaymentStatus) (reason : Option String)
    → Keeps IsConserved (record_status_transition i from to reason)
unfolding record_status_transition
record_status_transition-IsConserved i from to reason =
    Keeps-if _ _ _ (Keeps-lines_execute _ λ db. refl) (Keeps-raise _)

set_fx_details-IsConserved : (i r : ℕ) (x : ℤ) → Keeps IsConserved (set_fx_details i r x)
unfolding set_fx_details
set_fx_details-IsConserved i r x = Keeps-if _ _ _ (Keeps-lines_execute _ λ db. refl) (Keeps-raise _)

begin_attempt-IsConserved : (k e h : String) → Keeps IsConserved (begin_attempt k e h)
unfolding begin_attempt
begin_attempt-IsConserved k e h = Keeps-if _ _ _ (Keeps-lines _ λ db. ground arith) (Keeps-raise _)

complete_attempt-IsConserved :
    (k e : String) (code : ℕ) (body : PaymentResponse)
    → Keeps IsConserved (complete_attempt k e code body)
unfolding complete_attempt
complete_attempt-IsConserved k e code body = Keeps-lines_execute _ λ db. refl

enqueue_delivery-IsConserved :
    (s : ℕ) (p : Option ℕ) (e : String) (body : PaymentResponse)
    → Keeps IsConserved (enqueue_delivery s p e body)
unfolding enqueue_delivery
enqueue_delivery-IsConserved s p e body = Keeps-lines _ λ db. refl

enqueue_all-IsConserved :
    (p : ℕ) (e : String) (body : PaymentResponse) (ss : List WebhookSubscription)
    → Keeps IsConserved (enqueue_all p e body ss)
unfolding enqueue_all
enqueue_all-IsConserved p e body [] = Keeps-pure tt
enqueue_all-IsConserved p e body (s ∷ ss) =
    let rest = enqueue_all-IsConserved p e body ss in
    Keeps-if (takes_event e s.event_types) _ _
      (Keeps-then _ _ (enqueue_delivery-IsConserved s.id (some p) e body) rest) rest

enqueue_payment_webhook_event-IsConserved :
    (p : ℕ) (e : String) (body : PaymentResponse)
    → Keeps IsConserved (enqueue_payment_webhook_event p e body)
unfolding enqueue_payment_webhook_event
enqueue_payment_webhook_event-IsConserved p e body =
    search (keeps_rules, list_active_subscriptions-IsConserved, enqueue_all-IsConserved)

ruleset conserving = (
  attempt_rules, get_account-IsConserved, get_account_by_number-IsConserved,
  get_payment-IsConserved, get_latest_rate-IsConserved, create_payment-IsConserved,
  update_payment_status-IsConserved, record_status_transition-IsConserved,
  set_fx_details-IsConserved, begin_attempt-IsConserved, complete_attempt-IsConserved,
  enqueue_payment_webhook_event-IsConserved, get_account_versions-IsConserved,
  bump_accounts-IsConserved,
)

assert_debtor_currency_matches-IsConserved :
    (d : ℕ) (c : String) → Keeps IsConserved (assert_debtor_currency_matches d c)
unfolding assert_debtor_currency_matches
assert_debtor_currency_matches-IsConserved d c = search conserving

create_payment_within-IsConserved :
    (r : PaymentRequest) → Keeps IsConserved (create_payment_within r)
unfolding create_payment_within
create_payment_within-IsConserved r =
    search (conserving, assert_debtor_currency_matches-IsConserved) depth 9

pub initiate_payment-IsConserved : (r : PaymentRequest) → Keeps IsConserved (initiate_payment r)
unfolding initiate_payment
initiate_payment-IsConserved r = search (conserving, create_payment_within-IsConserved) depth 9

claim_phase-IsConserved :
    (digest : Digest) (key : String) (r : PaymentRequest)
    → Keeps IsConserved (claim_phase digest key r)
unfolding claim_phase
claim_phase-IsConserved digest key r =
    search (conserving, assert_debtor_currency_matches-IsConserved) depth 9

create_phase-IsConserved :
    (key : String) (r : PaymentRequest) → Keeps IsConserved (create_phase key r)
unfolding create_phase
create_phase-IsConserved key r = search (conserving, create_payment_within-IsConserved) depth 9

stored_response-IsConserved :
    (code : Option ℕ) (body : Option PaymentResponse)
    → Keeps IsConserved (stored_response code body)
stored_response-IsConserved (some code) (some body) = Keeps-pure _
stored_response-IsConserved (some code) none = Keeps-raise _
stored_response-IsConserved none body = Keeps-raise _

answer-IsConserved :
    (o : IdempotencyOutcome) (key : String) (r : PaymentRequest)
    → Keeps IsConserved (answer o key r)
unfolding answer
answer-IsConserved (replay code body) key r = stored_response-IsConserved code body
answer-IsConserved in_progress_conflict key r = Keeps-raise _
answer-IsConserved hash_mismatch key r = Keeps-raise _
answer-IsConserved started key r = create_phase-IsConserved key r

pub initiate_payment_idempotent-IsConserved :
    (digest : Digest) (key : String) (r : PaymentRequest)
    → Keeps IsConserved (initiate_payment_idempotent digest key r)
unfolding initiate_payment_idempotent
initiate_payment_idempotent-IsConserved digest key r =
    search (keeps_rules, claim_phase-IsConserved, answer-IsConserved)

complete_transition-IsConserved :
    (i : ℕ) (p : Payment) (to : PaymentStatus) (reason : Option String) (o : Option (ℕ × ℤ))
    → Keeps IsConserved (complete_transition i p to reason o)
unfolding complete_transition
complete_transition-IsConserved i p to reason o = search conserving depth 9

status_attempt-IsConserved :
    (i : ℕ) (to : PaymentStatus) (reason : Option String)
    → Keeps IsConserved (status_attempt i to reason)
unfolding status_attempt
status_attempt-IsConserved i to reason =
    search (conserving, complete_transition-IsConserved) depth 9

pub transition_status_only-IsConserved :
    (i : ℕ) (to : PaymentStatus) (reason : Option String) (n : ℕ)
    → Keeps IsConserved (transition_status_only i to reason n)
unfolding transition_status_only
transition_status_only-IsConserved i to reason n =
    Keeps-retry n _ _ (status_attempt-IsConserved i to reason)

update_unless-IsConserved :
    (conflict : Bool) (i v : ℕ) (to : PaymentStatus)
    → Keeps IsConserved (update_unless conflict i v to)
update_unless-IsConserved conflict i v to = search conserving

write_entry-IsConserved :
    (i : ℕ) (p : Payment) (to : PaymentStatus) (entry : JournalEntry) (o : Option (ℕ × ℤ))
    → Keeps IsConserved (insert_journal_entry entry)
    → Keeps IsConserved (write_entry i p to entry o)
unfolding write_entry
write_entry-IsConserved i p to entry o k =
    search (conserving, update_unless-IsConserved, complete_transition-IsConserved) depth 12

post_and_update-IsConserved :
    (i : ℕ) (p : Payment) (to : PaymentStatus) (built : BuildLinesResult)
    → Keeps IsConserved (post_and_update i p to built)
unfolding post_and_update
post_and_update-IsConserved i p to built =
    Keeps-then_lift (validate_journal_entry built.lines) _ λ u valid.
      write_entry-IsConserved i p to (entry_for p built) built.field_overrides
        (insert_journal_entry-IsConserved (entry_for p built) ((validate_iff built.lines).0 valid))

-- A transition that moves money keeps every currency's sum at zero, whatever lines it is built from:
-- entries that do not balance are refused before they are written.
pub transition_with_ledger_entry-IsConserved :
    (i : ℕ) (to : PaymentStatus) (build : BuildLines) (n : ℕ)
    → ((p : Payment) → Keeps IsConserved (build p))
    → Keeps IsConserved (transition_with_ledger_entry i to build n)
unfolding transition_with_ledger_entry ledger_attempt
transition_with_ledger_entry-IsConserved i to build n k =
    Keeps-retry n _ _ (search (conserving, k, post_and_update-IsConserved) depth 9)

fx_settlement-IsConserved : (p : Payment) (d c : Account) → Keeps IsConserved (fx_settlement p d c)
unfolding fx_settlement
fx_settlement-IsConserved p d c = search conserving depth 9

settlement_lines-IsConserved : (p : Payment) → Keeps IsConserved (settlement_lines p)
unfolding settlement_lines
settlement_lines-IsConserved p = search (conserving, fx_settlement-IsConserved) depth 9

fx_reversal-IsConserved : (p : Payment) (x : ℤ) → Keeps IsConserved (fx_reversal p x)
unfolding fx_reversal
fx_reversal-IsConserved p x = search conserving depth 9

reversal_by_booking-IsConserved :
    (b : Option ℤ) (p : Payment) → Keeps IsConserved (reversal_by_booking b p)
reversal_by_booking-IsConserved none p = Keeps-pure _
reversal_by_booking-IsConserved (some x) p = fx_reversal-IsConserved p x

pub settle_payment-IsConserved : (i n : ℕ) → Keeps IsConserved (settle_payment i n)
unfolding settle_payment
settle_payment-IsConserved i n =
    transition_with_ledger_entry-IsConserved i PaymentStatus.settled _ n
      settlement_lines-IsConserved

pub reverse_payment-IsConserved : (i n : ℕ) → Keeps IsConserved (reverse_payment i n)
unfolding reverse_payment reversal_lines
reverse_payment-IsConserved i n =
    transition_with_ledger_entry-IsConserved i PaymentStatus.reversed _ n
      λ p. reversal_by_booking-IsConserved p.creditor_amount p

pub authorise_payment-IsConserved : (i n : ℕ) → Keeps IsConserved (authorise_payment i n)
unfolding authorise_payment
authorise_payment-IsConserved i n = transition_status_only-IsConserved i _ _ n

pub fail_payment-IsConserved :
    (i : ℕ) (reason : Option String) (n : ℕ) → Keeps IsConserved (fail_payment i reason n)
unfolding fail_payment
fail_payment-IsConserved i reason n = transition_status_only-IsConserved i _ _ n
