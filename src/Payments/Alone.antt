-- ===== src/Payments/Alone.antt =====
-- With nobody else at work: what the parts of a transition do. The transitions themselves are in the
-- modules below.
pub mod Refused
pub mod Status
pub mod Entry
pub mod Settle
pub mod Reverse
pub mod RoundTrip
pub mod Idempotent
pub mod Replay
pub mod Deliveries
pub mod Rounded
pub mod Balances
use instant_payment_ledger_a.Prelude.{
  ℕ, ◌+◌, String, ◌≡◌, refl, sym, ap, ◌∙◌, ℤ, Bool, true, false, Option, none, some, List, [], ◌∷◌,
  map, arith, ◌==◌, ==_self, if◌then◌else◌, Bool-cases, inl, inr,
}
use instant_payment_ledger_a.Entities.Ledger.{JournalEntry, account_ids}
use instant_payment_ledger_a.Entities.Payments.{
  PaymentStatus, Payment, PaymentResponse, payment_response_dict,
}
use instant_payment_ledger_a.Entities.Webhooks.{WebhookSubscription}
use instant_payment_ledger_a.Entities.Errors.{Result, ok, err}
use instant_payment_ledger_a.Database.Tables.{Db, PaymentStatusHistoryRow}
use instant_payment_ledger_a.Database.Columns.{fits_text, optional}
use instant_payment_ledger_a.Database.Session.{
  Action, continue, statement, query, execute, commit, pure, lift, alone, ◌>>=◌, ◌>>◌,
}
use instant_payment_ledger_a.Database.Run.{quiet}
use instant_payment_ledger_a.Repositories.Ledger.{
  fresh, versions_of, add_entry, get_account_versions, insert_journal_entry,
}
use instant_payment_ledger_a.Repositories.Ledger.Accounts.{frozenset-IsDistinct, bump_all}
use instant_payment_ledger_a.Repositories.Payments.{
  find_payment, get_payment, set_status, payment_is_current, update_payment_status,
  record_status_transition,
}
use instant_payment_ledger_a.Repositories.Webhooks.{
  new_delivery, active_only, enqueue_delivery, list_active_subscriptions,
}
use instant_payment_ledger_a.Concurrency.{succeed}
use instant_payment_ledger_a.Ledger.Services.{bump_accounts}
use instant_payment_ledger_a.Ledger.Alone.{
  posted, bump_accounts_alone, get_account_versions_alone, insert_journal_entry_alone,
}
use instant_payment_ledger_a.Webhooks.Outbox.{
  takes_event, enqueue_all, enqueue_payment_webhook_event,
}
use instant_payment_ledger_a.Payments.Services.Transition.{
  event_type, transitioned, complete_transition, update_unless, write_entry,
}

-- The database with one delivery for each of the subscriptions that takes the event.
unfoldable pub enqueued : ℕ → String → PaymentResponse → List WebhookSubscription → Db → Db
enqueued payment_id event payload [] db = db
enqueued payment_id event payload (s ∷ ss) db = enqueued payment_id event payload ss (
    if takes_event event s.event_types
    then record db {
      webhook_deliveries =
          new_delivery (fresh db) s.id (some payment_id) event payload db.now
          ∷ db.webhook_deliveries;
      draws = db.draws + 1;
    }
    else db)

pub enqueue_all_alone :
    (payment_id : ℕ) (event : String) (payload : PaymentResponse) (ss : List WebhookSubscription)
    (v c : Db)
    → enqueue_all payment_id event payload ss (quiet v c)
      ≡ (ok tt, quiet (enqueued payment_id event payload ss v) c)
unfolding enqueue_all enqueued enqueue_delivery pure statement ◌>>=◌ ◌>>◌
enqueue_all_alone i e p [] v c = refl
enqueue_all_alone i e p (s ∷ ss) v c = elim (Bool-cases (takes_event e s.event_types)) [
  | inl takes ↦ rw takes (enqueue_all_alone i e p ss _ c)
  | inr not_taken ↦ rw not_taken (enqueue_all_alone i e p ss v c)
]

-- The history row of a transition.
abbrev pub with_history : ℕ → Payment → PaymentStatus → Option String → Db → Db
with_history payment_id payment to_status reason db = record db {
  payment_status_history = row ∷ db.payment_status_history;
}
  where
    row : PaymentStatusHistoryRow
    row = record {
      payment_id = payment_id;
      from_status = some payment.status;
      to_status = to_status;
      transitioned_at = db.now;
      reason = reason;
    }

-- The database after the history row and the outbox rows of a transition.
unfoldable pub completed_transition :
    ℕ → Payment → PaymentStatus → Option String → Option (ℕ × ℤ) → Db → Db
unfolding enqueued active_only event_type
completed_transition payment_id payment to_status reason overrides db =
    enqueued payment_id (event_type to_status)
      (payment_response_dict (transitioned payment to_status overrides))
      (active_only db.webhook_subscriptions) (with_history payment_id payment to_status reason db)

pub complete_transition-alone :
    (payment_id : ℕ) (payment : Payment) (to_status : PaymentStatus) (reason : Option String)
    (overrides : Option (ℕ × ℤ)) (v c : Db)
    → optional fits_text reason ≡ true
    → complete_transition payment_id payment to_status reason overrides (quiet v c) ≡ (
      ok (some (transitioned payment to_status overrides)),
      alone (completed_transition payment_id payment to_status reason overrides v),
    )
unfolding complete_transition completed_transition record_status_transition
    enqueue_payment_webhook_event list_active_subscriptions succeed pure commit execute query ◌>>=◌
    ◌>>◌
complete_transition-alone i p to reason o' v c fits = rw fits (
    ap (λ o. continue o (λ u. succeed (transitioned p to o')))
      (enqueue_all_alone i (event_type to) (payment_response_dict (transitioned p to o'))
        (active_only v.webhook_subscriptions) _ c))

-- The same, where the status has been written and the entry posted.
pub write_entry-alone :
    (payment_id : ℕ) (payment : Payment) (to_status : PaymentStatus) (entry : JournalEntry)
    (overrides : Option (ℕ × ℤ)) (v c : Db) {vs : List (ℕ × ℕ)}
    → versions_of (account_ids entry) v.accounts ≡ ok vs
    → payment_is_current payment_id payment.version v.payments ≡ true
    → write_entry payment_id payment to_status entry overrides (quiet v c) ≡ (
      ok (some (transitioned payment to_status overrides)),
      alone (
          completed_transition payment_id payment to_status none overrides
            (record (posted entry vs v) {
              payments = set_status payment_id payment.version to_status v.payments;
            })),
    )
unfolding write_entry update_payment_status account_ids posted add_entry pure statement ◌>>=◌ ◌>>◌
write_entry-alone i p to entry o v c {vs} e current =
    rw
      (
        get_account_versions_alone (account_ids entry) v c e,
        insert_journal_entry_alone entry v c,
        bump_accounts_alone (account_ids entry) (add_entry entry v) c
            (frozenset-IsDistinct (map (λ line. line.account_id) entry.lines)) e,
        current,
      )
      (complete_transition-alone i p to none o _ c refl)
