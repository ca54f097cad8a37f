-- ===== src/Payments/Races.antt =====
-- Changes of status that others get ahead of: app/domain/payments/services.py, lines 233 to 269.
use native.Mathlib.Nat.{zero-add, add-zero, suc-add}
use instant_payment_ledger_a.Prelude.{
  ℕ, zero, suc, ◌+◌, String, ◌≡◌, refl, true, false, Option, some, none, List, [], ◌∷◌, ◌==◌,
}
use instant_payment_ledger_a.Entities.Payments.{PaymentStatus, Payment}
use instant_payment_ledger_a.Entities.Errors.{Error, ok, err, concurrent_payment_modification}
use instant_payment_ledger_a.Database.Tables.{Db}
use instant_payment_ledger_a.Database.Columns.{fits_text, optional}
use instant_payment_ledger_a.Database.Session.{
  Session, alone, transaction, lift, statement, query, rollback, pure, raise, ◌>>=◌, ◌>>◌,
}
use instant_payment_ledger_a.Repositories.Payments.{
  find_payment, get_payment, payment_is_current, update_payment_status,
}
use instant_payment_ledger_a.Concurrency.{retry, give_up}
use instant_payment_ledger_a.Payments.StateMachine.Lifecycle.{Step, assert_transition_allowed_iff}
use instant_payment_ledger_a.Payments.Alone.Status.{retry-status_attempt-alone}
use instant_payment_ledger_a.Payments.Services.Transition.{
  transitioned, status_attempt, transition_status_only,
}

-- Others commit before the read and before the update of a round. They leave the payment in a status
-- that the change may start from, and with another version at the update than at the read.
pub record Overtakes (i : ℕ) (to : PaymentStatus) (db : Db) (g h : Db → Db) : Type 0 where
  pub before : Payment
  pub after : Payment
  pub read : find_payment i (g db).payments ≡ some before
  pub allowed : Step before.status to
  pub changed : find_payment i (h (g db)).payments ≡ some after
  pub overtaken : (after.version == before.version) ≡ false

-- `Beaten i to n db others db' rest`: the first of the commits `others`, two for a round, get ahead of
-- each of `n` rounds; they lead from `db` to `db'` and leave `rest`.
pub data Beaten (i : ℕ) (to : PaymentStatus)
    : ℕ → Db → List (Db → Db) → Db → List (Db → Db) → Type 0 where
  not_beaten : {db : Db} {rest : List (Db → Db)} → Beaten i to zero db rest db rest
  beaten_again :
      {n : ℕ} {db db' : Db} {others rest : List (Db → Db)} (g h : Db → Db)
      → Overtakes i to db g h
      → Beaten i to n (h (g db)) others db' rest
      → Beaten i to (suc n) db (g ∷ h ∷ others) db' rest

-- A session over `db` in which `others` are going to commit.
abbrev pub among : Db → List (Db → Db) → Session
among db others = record { view = db; committed = db; others = others }

module _ (i : ℕ) (to : PaymentStatus) (reason : Option String) where
  status_attempt_overtaken :
      (db : Db) (g h : Db → Db) (others : List (Db → Db))
      → Overtakes i to db g h
      → transaction (status_attempt i to reason) (among db (g ∷ h ∷ others))
        ≡ (ok none, among (h (g db)) others)
  unfolding transaction status_attempt get_payment update_payment_status statement query lift
      give_up rollback pure payment_is_current ◌>>=◌ ◌>>◌
  status_attempt_overtaken db g h others o =
      rw
        (
          o.read,
          (assert_transition_allowed_iff o.before.status to).1 o.allowed,
          o.changed,
          o.overtaken,
        )
        refl

  -- Lost rounds use up attempts and nothing else.
  retry-Beaten :
      (n m : ℕ) (e : Error) {db db' : Db} {others rest : List (Db → Db)}
      → Beaten i to n db others db' rest
      → retry (n + m) (status_attempt i to reason) e (among db others)
        ≡ retry m (status_attempt i to reason) e (among db' rest)
  unfolding retry ◌>>=◌
  retry-Beaten zero m e not_beaten = rw zero-add refl
  retry-Beaten (suc n) m e {db} (beaten_again {others = others} g h o b) =
      rw (suc-add n m, status_attempt_overtaken db g h others o) (retry-Beaten n m e b)

  -- A change of status that others get ahead of in every attempt raises the error for concurrent
  -- modification, and the committed rows are those that the others left.
  pub transition_status_only-Beaten :
      (n : ℕ) {db db' : Db} {others rest : List (Db → Db)}
      → Beaten i to n db others db' rest
      → transition_status_only i to reason n (among db others)
        ≡ (err (concurrent_payment_modification i n), among db' rest)
  unfolding transition_status_only retry raise
  transition_status_only-Beaten n b =
      rw add-zero at (retry-Beaten n 0 (concurrent_payment_modification i n) b)

  -- If others get ahead of the first `n` attempts of a change of status, commit nothing more, and leave
  -- the payment in a status that the change may start from, and the column takes the reason, then the
  -- next attempt, if there is one, succeeds on the payment as the others left it: it returns the payment with the new status and the
  -- next version, the database has that payment too, and the journal lines, the accounts and the rates
  -- are as the others left them.
  pub transition_status_only_after_races :
      (n m : ℕ) {db db' : Db} {others : List (Db → Db)} {payment : Payment}
      → Beaten i to n db others db' []
      → find_payment i db'.payments ≡ some payment
      → Step payment.status to
      → optional fits_text reason ≡ true
      → (done : Db) × (transition_status_only i to reason (n + suc m) (among db others)
          ≡ (ok (transitioned payment to none), alone done))
        × (find_payment i done.payments ≡ some (transitioned payment to none))
        × (done.journal_lines ≡ db'.journal_lines)
        × (done.accounts ≡ db'.accounts)
        × (done.fx_rates ≡ db'.fx_rates)
  unfolding transition_status_only
  transition_status_only_after_races n m {db' = db'} b found st fits =
      let raised = concurrent_payment_modification i (n + suc m) in
      let won = retry-status_attempt-alone i to reason m db' found raised fits st in
      (won.0, rw (retry-Beaten n (suc m) raised b) won.1, won.2, won.3, won.4, won.5)
