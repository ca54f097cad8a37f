-- ===== src/Payments/Alone/Status.antt =====
-- With nobody else at work: changes of status that move no money.
use instant_payment_ledger_a.Prelude.{
  ℕ, suc, ◌+◌, String, ◌≡◌, refl, true, Option, none, some, List, [], ◌∷◌, arith, ◌==◌, ==_self,
  Bool-cases, inl, inr, ℤ,
}
use instant_payment_ledger_a.Entities.Payments.{
  PaymentStatus, Payment, PaymentResponse, payment_response_dict,
}
use instant_payment_ledger_a.Entities.Webhooks.{WebhookSubscription}
use instant_payment_ledger_a.Entities.Errors.{Error, ok}
use instant_payment_ledger_a.Database.Tables.{Db}
use instant_payment_ledger_a.Database.Columns.{fits_text, optional}
use instant_payment_ledger_a.Database.Session.{statement, alone, lift, ◌>>=◌, ◌>>◌}
use instant_payment_ledger_a.Database.Run.{run_retry}
use instant_payment_ledger_a.Concurrency.{retry}
use instant_payment_ledger_a.Repositories.Payments.{
  find_payment, set_status, payment_is_current, update_payment_status,
}
use instant_payment_ledger_a.Repositories.Webhooks.{active_only}
use instant_payment_ledger_a.Webhooks.Outbox.{takes_event}
use instant_payment_ledger_a.Payments.StateMachine.Lifecycle.{Step, assert_transition_allowed_iff}
use instant_payment_ledger_a.Payments.Alone.{
  enqueued, with_history, completed_transition, complete_transition-alone,
}
use instant_payment_ledger_a.Payments.Alone.Refused.{get_payment_alone}
use instant_payment_ledger_a.Payments.Services.Transition.{event_type, transitioned, status_attempt}

-- The parts of a database that payments and their money are in.
abbrev pub IsSameBooks : Db → Db → Type 0
IsSameBooks db db' =
    (db'.payments ≡ db.payments)
    × (db'.journal_lines ≡ db.journal_lines)
    × (db'.accounts ≡ db.accounts)
    × (db'.fx_rates ≡ db.fx_rates)
    × (db'.idempotency_keys ≡ db.idempotency_keys)

pub enqueued-IsSameBooks :
    (i : ℕ) (e : String) (p : PaymentResponse) (ss : List WebhookSubscription) (db : Db)
    → IsSameBooks db (enqueued i e p ss db)
unfolding enqueued
enqueued-IsSameBooks i e p [] db = (refl, refl, refl, refl, refl)
enqueued-IsSameBooks i e p (s ∷ ss) db = elim (Bool-cases (takes_event e s.event_types)) [
  | inl takes ↦ rw (enqueued, takes) (enqueued-IsSameBooks i e p ss _)
  | inr not_taken ↦ rw (enqueued, not_taken) (enqueued-IsSameBooks i e p ss db)
]

pub completed_transition-IsSameBooks :
    (i : ℕ) (p : Payment) (to : PaymentStatus) (reason : Option String) (o : Option (ℕ × ℤ))
    (db : Db)
    → IsSameBooks db (completed_transition i p to reason o db)
unfolding completed_transition
completed_transition-IsSameBooks i p to reason o db =
    enqueued-IsSameBooks i (event_type to) (payment_response_dict (transitioned p to o))
      (active_only db.webhook_subscriptions) (with_history i p to reason db)

pub payment_is_current_lem :
    (i : ℕ) (ps : List Payment) {p : Payment}
    → find_payment i ps ≡ some p
    → payment_is_current i p.version ps ≡ true
unfolding payment_is_current
payment_is_current_lem i ps {p} e = rw (e, payment_is_current) (==_self p.version)

pub find_payment-set_status :
    (i : ℕ) (to : PaymentStatus) (ps : List Payment) {p : Payment}
    → find_payment i ps ≡ some p
    → find_payment i (set_status i p.version to ps)
      ≡ some (record p { status = to; version = p.version + 1 })
unfolding find_payment set_status
find_payment-set_status i to [] e = cc
find_payment-set_status i to (q ∷ ps) {p} e = elim (Bool-cases (q.id == i)) [
  | inl hit ↦ let same : q ≡ p = ground arith in rw (← same) (rw (hit, ==_self q.version, hit))
  | inr miss ↦ simp miss (find_payment-set_status i to ps {p = p} (ground arith))
]

module _ (payment_id : ℕ) (to_status : PaymentStatus) (reason : Option String) (n : ℕ) (db : Db)
    {payment : Payment} (found : find_payment payment_id db.payments ≡ some payment) where
  status_attempt-alone :
      optional fits_text reason ≡ true
      → Step payment.status to_status
      → status_attempt payment_id to_status reason (alone db) ≡ (
        ok (some (transitioned payment to_status none)),
        alone (
            completed_transition payment_id payment to_status reason none (record db {
              payments = set_status payment_id payment.version to_status db.payments;
            })),
      )
  unfolding status_attempt update_payment_status statement lift ◌>>=◌ ◌>>◌
  status_attempt-alone fits st =
      rw
        (
          get_payment_alone payment_id db db found,
          (assert_transition_allowed_iff payment.status to_status).1 st,
          payment_is_current_lem payment_id db.payments found,
        )
        (complete_transition-alone payment_id payment to_status reason none _ db fits)

  -- The loop for any error that it may be given for the last attempt.
  pub retry-status_attempt-alone :
      (e : Error)
      → optional fits_text reason ≡ true
      → Step payment.status to_status
      → (db' : Db) × (retry (suc n) (status_attempt payment_id to_status reason) e (alone db)
          ≡ (ok (transitioned payment to_status none), alone db'))
        × (find_payment payment_id db'.payments ≡ some (transitioned payment to_status none))
        × (db'.journal_lines ≡ db.journal_lines)
        × (db'.accounts ≡ db.accounts)
        × (db'.fx_rates ≡ db.fx_rates)
  retry-status_attempt-alone e fits st =
      let kept =
        completed_transition-IsSameBooks payment_id payment to_status reason none
          (record db { payments = set_status payment_id payment.version to_status db.payments }) in
      (
        _,
        run_retry n (status_attempt payment_id to_status reason) e (status_attempt-alone fits st),
        rw kept.0 (find_payment-set_status payment_id to_status db.payments found),
        kept.1,
        kept.2,
        kept.3,
      )
