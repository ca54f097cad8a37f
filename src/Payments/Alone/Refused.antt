-- ===== src/Payments/Alone/Refused.antt =====
-- With nobody else at work: transitions that the lifecycle does not have.
use instant_payment_ledger_a.Prelude.{ℕ, suc, String, ◌≡◌, refl, ap, Option, some}
use instant_payment_ledger_a.Entities.Payments.{PaymentStatus, Payment}
use instant_payment_ledger_a.Entities.Errors.{ok, err, invalid_payment_transition}
use instant_payment_ledger_a.Database.Tables.{Db}
use instant_payment_ledger_a.Database.Session.{statement, query, alone, lift, ◌>>=◌, ◌>>◌}
use instant_payment_ledger_a.Database.Run.{quiet, run_retry_err}
use instant_payment_ledger_a.Repositories.Payments.{find_payment, get_payment, or_no_payment}
use instant_payment_ledger_a.Payments.StateMachine.Lifecycle.{Step, refused_of_not_Step}
use instant_payment_ledger_a.Payments.Services.Lines.{BuildLines}
use instant_payment_ledger_a.Payments.Services.Transition.{
  status_attempt, transition_status_only, ledger_attempt, transition_with_ledger_entry,
}

pub get_payment_alone :
    (payment_id : ℕ) (v c : Db) {payment : Payment}
    → find_payment payment_id v.payments ≡ some payment
    → get_payment payment_id (quiet v c) ≡ (ok payment, quiet v c)
unfolding get_payment query statement
get_payment_alone i v c e = ap (λ o. (or_no_payment i o, quiet v c)) e

module _ (payment_id : ℕ) (to_status : PaymentStatus) (n : ℕ) (db : Db) where
  module _ {payment : Payment} (found : find_payment payment_id db.payments ≡ some payment) where
    -- With nobody else at work, a change of status that the lifecycle does not have is refused by an
    -- error that names the two statuses, and nothing is written.
    pub transition_status_only_refused :
        (reason : Option String)
        → ¬ Step payment.status to_status
        → transition_status_only payment_id to_status reason (suc n) (alone db)
          ≡ (err (invalid_payment_transition payment.status to_status), alone db)
    unfolding transition_status_only status_attempt lift ◌>>=◌ ◌>>◌
    transition_status_only_refused reason h =
        run_retry_err n (status_attempt payment_id to_status reason) _ {v = db}
          (rw (get_payment_alone payment_id db db found, refused_of_not_Step h) refl)

    -- With nobody else at work, a settlement or reversal that the lifecycle does not have is refused by
    -- an error that names the two statuses, whatever lines it would post, and nothing is written.
    pub transition_with_ledger_entry_refused :
        (build_lines : BuildLines)
        → ¬ Step payment.status to_status
        → transition_with_ledger_entry payment_id to_status build_lines (suc n) (alone db)
          ≡ (err (invalid_payment_transition payment.status to_status), alone db)
    unfolding transition_with_ledger_entry ledger_attempt lift ◌>>=◌ ◌>>◌
    transition_with_ledger_entry_refused build_lines h =
        run_retry_err n (ledger_attempt payment_id to_status build_lines) _ {v = db}
          (rw (get_payment_alone payment_id db db found, refused_of_not_Step h) refl)
