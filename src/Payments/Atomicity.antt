-- ===== src/Payments/Atomicity.antt =====
-- app/domain/payments/services.py: what a call that raises has committed.
use instant_payment_ledger_a.Prelude.{ℕ, String, ℤ, Bool, Option, some, List, [], ◌∷◌}
use instant_payment_ledger_a.Entities.Ledger.{Account, JournalEntry}
use instant_payment_ledger_a.Entities.Payments.{PaymentStatus, Payment, PaymentResponse}
use instant_payment_ledger_a.Entities.Webhooks.{WebhookSubscription}
use instant_payment_ledger_a.Database.Leaves.{
  Leaves-raise, Leaves, Always, IsErr, IsUndone, Leaves-statement, Leaves-pure, Leaves-if,
  Leaves-then, leaves_rules,
}
use instant_payment_ledger_a.Repositories.Ledger.{get_account, get_account_by_number}
use instant_payment_ledger_a.Repositories.Payments.{
  create_payment, get_payment, update_payment_status, record_status_transition, set_fx_details,
}
use instant_payment_ledger_a.Repositories.Fx.{get_latest_rate}
use instant_payment_ledger_a.Repositories.Webhooks.{list_active_subscriptions, enqueue_delivery}
use instant_payment_ledger_a.Concurrency.Rules.{Leaves-retry, undone_rules}
use instant_payment_ledger_a.Ledger.Atomicity.{
  get_account_versions-Leaves, insert_journal_entry-Leaves, bump_accounts-Leaves,
}
use instant_payment_ledger_a.Webhooks.Outbox.{
  takes_event, enqueue_all, enqueue_payment_webhook_event,
}
use instant_payment_ledger_a.Payments.Services.Initiate.{
  PaymentRequest, create_payment_within, assert_debtor_currency_matches, initiate_payment,
}
use instant_payment_ledger_a.Payments.Services.Lines.{
  BuildLines, BuildLinesResult, settlement_lines, fx_settlement, reversal_by_booking, fx_reversal,
  reversal_lines,
}
use instant_payment_ledger_a.Payments.Services.Transition.{
  complete_transition, status_attempt, transition_status_only, authorise_payment, fail_payment,
  update_unless, write_entry, post_and_update, ledger_attempt, transition_with_ledger_entry,
  settle_payment, reverse_payment,
}

get_account-Leaves : (i : ℕ) → Leaves Always (get_account i)
unfolding get_account
get_account-Leaves i = search leaves_rules

get_account_by_number-Leaves : (n : String) → Leaves Always (get_account_by_number n)
unfolding get_account_by_number
get_account_by_number-Leaves n = search leaves_rules

get_payment-Leaves : (i : ℕ) → Leaves Always (get_payment i)
unfolding get_payment
get_payment-Leaves i = search leaves_rules

get_latest_rate-Leaves : (b q : String) → Leaves Always (get_latest_rate b q)
unfolding get_latest_rate
get_latest_rate-Leaves b q = search leaves_rules

list_active_subscriptions-Leaves : Leaves Always list_active_subscriptions
unfolding list_active_subscriptions
list_active_subscriptions-Leaves = search leaves_rules

create_payment-Leaves :
    (d c : ℕ) (x : ℤ) (currency : String) (e : Option String)
    → Leaves Always (create_payment d c x currency e)
unfolding create_payment
create_payment-Leaves d c x currency e = Leaves-if _ _ _ (Leaves-statement _) (Leaves-raise _)

update_payment_status-Leaves :
    (i v : ℕ) (to : PaymentStatus) → Leaves Always (update_payment_status i v to)
unfolding update_payment_status
update_payment_status-Leaves i v to = Leaves-statement _

record_status_transition-Leaves :
    (i : ℕ) (from : Option PaymentStatus) (to : PaymentStatus) (reason : Option String)
    → Leaves Always (record_status_transition i from to reason)
unfolding record_status_transition
record_status_transition-Leaves i from to reason = search leaves_rules

set_fx_details-Leaves : (i r : ℕ) (x : ℤ) → Leaves Always (set_fx_details i r x)
unfolding set_fx_details
set_fx_details-Leaves i r x = search leaves_rules

enqueue_delivery-Leaves :
    (s : ℕ) (p : Option ℕ) (e : String) (body : PaymentResponse)
    → Leaves Always (enqueue_delivery s p e body)
unfolding enqueue_delivery
enqueue_delivery-Leaves s p e body = Leaves-statement _

enqueue_all-Leaves :
    (p : ℕ) (e : String) (body : PaymentResponse) (ss : List WebhookSubscription)
    → Leaves Always (enqueue_all p e body ss)
unfolding enqueue_all
enqueue_all-Leaves p e body [] = Leaves-pure tt
enqueue_all-Leaves p e body (s ∷ ss) =
    let rest = enqueue_all-Leaves p e body ss in
    Leaves-if (takes_event e s.event_types) _ _
      (Leaves-then _ _ (enqueue_delivery-Leaves s.id (some p) e body) rest) rest

enqueue_payment_webhook_event-Leaves :
    (p : ℕ) (e : String) (body : PaymentResponse)
    → Leaves Always (enqueue_payment_webhook_event p e body)
unfolding enqueue_payment_webhook_event
enqueue_payment_webhook_event-Leaves p e body =
    search (leaves_rules, list_active_subscriptions-Leaves, enqueue_all-Leaves)

ruleset leaving = (
  undone_rules, get_account-Leaves, get_account_by_number-Leaves, get_payment-Leaves,
  get_latest_rate-Leaves, create_payment-Leaves, update_payment_status-Leaves,
  record_status_transition-Leaves, set_fx_details-Leaves, enqueue_payment_webhook_event-Leaves,
  get_account_versions-Leaves, insert_journal_entry-Leaves, bump_accounts-Leaves,
)

assert_debtor_currency_matches-Leaves :
    (d : ℕ) (c : String) → Leaves Always (assert_debtor_currency_matches d c)
unfolding assert_debtor_currency_matches
assert_debtor_currency_matches-Leaves d c = search leaving

create_payment_within-Leaves : (r : PaymentRequest) → Leaves Always (create_payment_within r)
unfolding create_payment_within
create_payment_within-Leaves r = search (leaving, assert_debtor_currency_matches-Leaves) depth 9

-- If the creation of a payment raises, the committed rows are those of before with the commits of
-- others that came in between.
pub initiate_payment-Leaves : (r : PaymentRequest) → Leaves IsErr (initiate_payment r)
unfolding initiate_payment
initiate_payment-Leaves r = search (leaving, create_payment_within-Leaves) depth 9

complete_transition-Leaves :
    (i : ℕ) (p : Payment) (to : PaymentStatus) (reason : Option String) (o : Option (ℕ × ℤ))
    → Leaves IsUndone (complete_transition i p to reason o)
unfolding complete_transition
complete_transition-Leaves i p to reason o = search leaving depth 9

status_attempt-Leaves :
    (i : ℕ) (to : PaymentStatus) (reason : Option String)
    → Leaves IsUndone (status_attempt i to reason)
unfolding status_attempt
status_attempt-Leaves i to reason = search (leaving, complete_transition-Leaves) depth 9

transition_status_only-Leaves :
    (i : ℕ) (to : PaymentStatus) (reason : Option String) (n : ℕ)
    → Leaves IsErr (transition_status_only i to reason n)
unfolding transition_status_only
transition_status_only-Leaves i to reason n = Leaves-retry n _ _ (status_attempt-Leaves i to reason)

-- An authorisation that raises has committed nothing.
pub authorise_payment-Leaves : (i n : ℕ) → Leaves IsErr (authorise_payment i n)
unfolding authorise_payment
authorise_payment-Leaves i n = transition_status_only-Leaves i _ _ n

-- Marking a payment as failed has committed nothing if it raises.
pub fail_payment-Leaves :
    (i : ℕ) (reason : Option String) (n : ℕ) → Leaves IsErr (fail_payment i reason n)
unfolding fail_payment
fail_payment-Leaves i reason n = transition_status_only-Leaves i _ _ n

update_unless-Leaves :
    (conflict : Bool) (i v : ℕ) (to : PaymentStatus) → Leaves Always (update_unless conflict i v to)
update_unless-Leaves conflict i v to = search leaving

write_entry-Leaves :
    (i : ℕ) (p : Payment) (to : PaymentStatus) (entry : JournalEntry) (o : Option (ℕ × ℤ))
    → Leaves IsUndone (write_entry i p to entry o)
unfolding write_entry
write_entry-Leaves i p to entry o =
    search (leaving, update_unless-Leaves, complete_transition-Leaves) depth 12

post_and_update-Leaves :
    (i : ℕ) (p : Payment) (to : PaymentStatus) (built : BuildLinesResult)
    → Leaves IsUndone (post_and_update i p to built)
unfolding post_and_update
post_and_update-Leaves i p to built = search (leaving, write_entry-Leaves)

-- A transition that moves money and raises has committed nothing, if building its lines does not
-- commit.
pub transition_with_ledger_entry-Leaves :
    (i : ℕ) (to : PaymentStatus) (build : BuildLines) (n : ℕ)
    → ((p : Payment) → Leaves Always (build p))
    → Leaves IsErr (transition_with_ledger_entry i to build n)
unfolding transition_with_ledger_entry ledger_attempt
transition_with_ledger_entry-Leaves i to build n l =
    Leaves-retry n _ _ (search (leaving, l, post_and_update-Leaves) depth 9)

fx_settlement-Leaves : (p : Payment) (d c : Account) → Leaves Always (fx_settlement p d c)
unfolding fx_settlement
fx_settlement-Leaves p d c = search leaving depth 9

settlement_lines-Leaves : (p : Payment) → Leaves Always (settlement_lines p)
unfolding settlement_lines
settlement_lines-Leaves p = search (leaving, fx_settlement-Leaves) depth 9

fx_reversal-Leaves : (p : Payment) (x : ℤ) → Leaves Always (fx_reversal p x)
unfolding fx_reversal
fx_reversal-Leaves p x = search leaving depth 9

reversal_by_booking-Leaves : (b : Option ℤ) (p : Payment) → Leaves Always (reversal_by_booking b p)
reversal_by_booking-Leaves Option.none p = Leaves-pure _
reversal_by_booking-Leaves (some x) p = fx_reversal-Leaves p x

-- If a settlement raises, the committed rows are those of before with the commits of others that came
-- in between: no entry, no status change and no delivery of its own is left.
pub settle_payment-Leaves : (i n : ℕ) → Leaves IsErr (settle_payment i n)
unfolding settle_payment
settle_payment-Leaves i n =
    transition_with_ledger_entry-Leaves i PaymentStatus.settled _ n settlement_lines-Leaves

-- If a reversal raises, the committed rows are those of before with the commits of others that came
-- in between.
pub reverse_payment-Leaves : (i n : ℕ) → Leaves IsErr (reverse_payment i n)
unfolding reverse_payment reversal_lines
reverse_payment-Leaves i n =
    transition_with_ledger_entry-Leaves i PaymentStatus.reversed _ n
      λ p. reversal_by_booking-Leaves p.creditor_amount p
