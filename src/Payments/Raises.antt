-- ===== src/Payments/Raises.antt =====
-- app/domain/payments/services.py: which errors its calls may raise. `E` is a set of errors.
pub mod Create
pub mod Money
use instant_payment_ledger_a.Prelude.{
  ℕ, String, ℤ, Bool, false, Bool-cases, inl, inr, Option, none, some, List, [], ◌∷◌, ◌≡◌,
}
use instant_payment_ledger_a.Entities.Ledger.{Account, JournalEntry}
use instant_payment_ledger_a.Entities.Payments.{
  PaymentStatus, Payment, PaymentResponse, IdempotencyOutcome, started, replay,
  in_progress_conflict, hash_mismatch,
}
use instant_payment_ledger_a.Entities.Webhooks.{WebhookSubscription}
use instant_payment_ledger_a.Entities.Errors.{
  Error, Result, ok, err, account_not_found, account_number_not_found,
  concurrent_payment_modification, invalid_payment_transition, payment_not_found, fx_rate_not_found,
  payment_currency_mismatch, invalid_payment_amount, same_payment_account, integrity_error,
  idempotency_in_progress, idempotency_key_reused, assertion_error, data_error,
}
use instant_payment_ledger_a.Database.Raises.{
  Within, Within-ok, Within-err, Within-if, Raises, Raises-pure, Raises-lift, Raises-raise,
  Raises-statement, Raises-query, Raises-execute, Raises-if, Raises-bind, Raises-then, raises_rules,
}
use instant_payment_ledger_a.Database.Columns.{fits_text, optional}
use instant_payment_ledger_a.Database.Tables.{Db}
use instant_payment_ledger_a.Repositories.Ledger.{
  get_account, get_account_by_number, find_account, or_not_found, insert_journal_entry,
  bump_account_version, get_account_versions, versions_of, add_version,
}
use instant_payment_ledger_a.Repositories.Payments.{
  create_payment, insert_payment, payment_row_allowed, get_payment, find_payment, or_no_payment,
  update_payment_status, record_status_transition, set_fx_details,
}
use instant_payment_ledger_a.Repositories.Fx.{get_latest_rate, latest, or_no_rate}
use instant_payment_ledger_a.Repositories.Idempotency.{
  begin_attempt, claim_key, complete_attempt, find_key,
}
use instant_payment_ledger_a.Repositories.Webhooks.{list_active_subscriptions, enqueue_delivery}
use instant_payment_ledger_a.Concurrency.Raises.{Raises-retry, attempt_raises}
use instant_payment_ledger_a.Webhooks.Outbox.{
  takes_event, enqueue_all, enqueue_payment_webhook_event,
}
use instant_payment_ledger_a.Payments.StateMachine.{assert_transition_allowed}
use instant_payment_ledger_a.Payments.Services.Transition.{
  complete_transition, status_attempt, transition_status_only, authorise_payment, fail_payment,
}

module _ {E : Error → Type 0} where
  pub list_active_subscriptions-Raises : Raises E list_active_subscriptions
  unfolding list_active_subscriptions
  list_active_subscriptions-Raises = Raises-query _ λ db. Within-ok _

  pub enqueue_delivery-Raises :
      (s : ℕ) (p : Option ℕ) (e : String) (body : PaymentResponse)
      → Raises E (enqueue_delivery s p e body)
  unfolding enqueue_delivery
  enqueue_delivery-Raises s p e body = Raises-statement _ λ db. Within-ok _

  pub enqueue_all-Raises :
      (p : ℕ) (e : String) (body : PaymentResponse) (ss : List WebhookSubscription)
      → Raises E (enqueue_all p e body ss)
  unfolding enqueue_all
  enqueue_all-Raises p e body [] = Raises-pure tt
  enqueue_all-Raises p e body (s ∷ ss) =
      let rest = enqueue_all-Raises p e body ss in
      Raises-if (takes_event e s.event_types) _ _
        (Raises-then _ _ (enqueue_delivery-Raises s.id (some p) e body) rest) rest

  pub enqueue_payment_webhook_event-Raises :
      (p : ℕ) (e : String) (body : PaymentResponse)
      → Raises E (enqueue_payment_webhook_event p e body)
  unfolding enqueue_payment_webhook_event
  enqueue_payment_webhook_event-Raises p e body =
      search (raises_rules, list_active_subscriptions-Raises, enqueue_all-Raises)

  pub update_payment_status-Raises :
      (i v : ℕ) (to : PaymentStatus) → Raises E (update_payment_status i v to)
  unfolding update_payment_status
  update_payment_status-Raises i v to = Raises-statement _ λ db. Within-ok _

  pub record_status_transition-Raises :
      (reason : Option String)
      → (optional fits_text reason ≡ false → E data_error)
      → (i : ℕ) (from : Option PaymentStatus) (to : PaymentStatus)
      → Raises E (record_status_transition i from to reason)
  unfolding record_status_transition
  record_status_transition-Raises reason unfit i from to =
      elim (Bool-cases (optional fits_text reason)) [
        | inl fits ↦ rw fits (Raises-execute _)
        | inr not_fits ↦ rw not_fits (Raises-raise _ (unfit not_fits))
      ]

  pub set_fx_details-Raises : E data_error → (i r : ℕ) (x : ℤ) → Raises E (set_fx_details i r x)
  unfolding set_fx_details
  set_fx_details-Raises unfit i r x = Raises-if _ _ _ (Raises-execute _) (Raises-raise _ unfit)

  pub complete_attempt-Raises :
      (k e : String) (code : ℕ) (body : PaymentResponse) → Raises E (complete_attempt k e code body)
  unfolding complete_attempt
  complete_attempt-Raises k e code body = Raises-execute _

  or_no_payment-Within :
      (i : ℕ) (o : Option Payment) → E (payment_not_found i) → Within E (or_no_payment i o)
  or_no_payment-Within i none h = Within-err _ h
  or_no_payment-Within i (some p) h = Within-ok p

  pub get_payment-Raises : (i : ℕ) → E (payment_not_found i) → Raises E (get_payment i)
  unfolding get_payment
  get_payment-Raises i h =
      Raises-query _ λ db. or_no_payment-Within i (find_payment i db.payments) h

  or_not_found-Within : (o : Option Account) (e : Error) → E e → Within E (or_not_found o (err e))
  or_not_found-Within none e h = Within-err e h
  or_not_found-Within (some a) e h = Within-ok a

  pub get_account-Raises : (i : ℕ) → E (account_not_found i) → Raises E (get_account i)
  unfolding get_account
  get_account-Raises i h = Raises-query _ λ db. or_not_found-Within _ _ h

  pub get_account_by_number-Raises :
      (n : String) → E (account_number_not_found n) → Raises E (get_account_by_number n)
  unfolding get_account_by_number
  get_account_by_number-Raises n h = Raises-query _ λ db. or_not_found-Within _ _ h

  pub complete_transition-Raises :
      (reason : Option String)
      → (optional fits_text reason ≡ false → E data_error)
      → (i : ℕ) (p : Payment) (to : PaymentStatus) (o : Option (ℕ × ℤ))
      → Raises E (complete_transition i p to reason o)
  unfolding complete_transition
  complete_transition-Raises reason unfit i p to o =
      search
        (
          attempt_raises, record_status_transition-Raises, unfit,
          enqueue_payment_webhook_event-Raises,
        )
        depth 9

  pub allowed-Within :
      (from to : PaymentStatus)
      → E (invalid_payment_transition from to)
      → Within E (assert_transition_allowed from to)
  unfolding assert_transition_allowed
  allowed-Within from to h = Within-if _ _ _ (Within-ok tt) (Within-err _ h)

  module _ (missing : (i : ℕ) → E (payment_not_found i))
      (refused : (from to : PaymentStatus) → E (invalid_payment_transition from to))
      (beaten : (i n : ℕ) → E (concurrent_payment_modification i n)) (reason : Option String)
      (unfit : optional fits_text reason ≡ false → E data_error) where
    status_attempt-Raises : (i : ℕ) (to : PaymentStatus) → Raises E (status_attempt i to reason)
    unfolding status_attempt
    status_attempt-Raises i to = Raises-bind _ _ (get_payment-Raises i (missing i)) λ p.
        Raises-then _ _ (Raises-lift _ (allowed-Within p.status to (refused p.status to)))
          (search (attempt_raises, update_payment_status-Raises, complete_transition-Raises, unfit))

    pub transition_status_only-Raises :
        (i : ℕ) (to : PaymentStatus) (n : ℕ) → Raises E (transition_status_only i to reason n)
    unfolding transition_status_only
    transition_status_only-Raises i to n =
        Raises-retry n _ _ (beaten i n) (status_attempt-Raises i to)
