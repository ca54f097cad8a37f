-- ===== src/Database/Run.antt =====
-- Stepping through an action whose parts are known, and sessions with nobody else at work.
use instant_payment_ledger_a.Prelude.{ℕ, suc, ◌≡◌, ap, Option, some, []}
use instant_payment_ledger_a.Entities.Errors.{Error, Result, ok, err}
use instant_payment_ledger_a.Database.Tables.{Db}
use instant_payment_ledger_a.Database.Session.{
  Session, Action, continue, close, ◌>>=◌, ◌>>◌, lift, transaction, alone,
}
use instant_payment_ledger_a.Concurrency.{retry, finish}

-- Nobody else at work; `v` is seen and `c` committed.
abbrev pub quiet : Db → Db → Session
quiet v c = record { view = v; committed = c; others = [] }

module _ {A B : Type 0} {s t : Session} where
  pub run_bind : (m : Action A) {a : A} (f : A → Action B) → m s ≡ (ok a, t) → (m >>= f) s ≡ f a t
  unfolding ◌>>=◌
  run_bind m f e = ap (λ o. continue o f) e

  pub run_then : (m : Action A) {a : A} (k : Action B) → m s ≡ (ok a, t) → (m >> k) s ≡ k t
  unfolding ◌>>◌
  run_then m k e = run_bind m (λ a. k) e

  pub run_bind_err :
      (m : Action A) {x : Error} (f : A → Action B) → m s ≡ (err x, t) → (m >>= f) s ≡ (err x, t)
  unfolding ◌>>=◌
  run_bind_err m f e = ap (λ o. continue o f) e

  pub run_then_err :
      (m : Action A) {x : Error} (k : Action B) → m s ≡ (err x, t) → (m >> k) s ≡ (err x, t)
  unfolding ◌>>◌
  run_then_err m k e = run_bind_err m (λ a. k) e

pub run_lift : {A : Type 0} {r : Result A} {a : A} {s : Session} → r ≡ ok a → lift r s ≡ (ok a, s)
unfolding lift
run_lift {s = s} e = ap (λ x. (x, s)) e

pub run_lift_err :
    {A : Type 0} {r : Result A} {x : Error} {s : Session} → r ≡ err x → lift r s ≡ (err x, s)
unfolding lift
run_lift_err {s = s} e = ap (λ y. (y, s)) e

module _ {A : Type 0} {db db' : Db} where
  -- An attempt that succeeds at once.
  pub run_retry :
      (n : ℕ) (attempt : Action (Option A)) (e : Error) {a : A}
      → attempt (alone db) ≡ (ok (some a), alone db')
      → retry (suc n) attempt e (alone db) ≡ (ok a, alone db')
  unfolding retry transaction
  run_retry n attempt e h = ap (λ o. continue (close o) (λ r. finish r (retry n attempt e))) h

  -- An attempt that raises.
  pub run_retry_err :
      (n : ℕ) (attempt : Action (Option A)) (e : Error) {x : Error} {v : Db}
      → attempt (alone db) ≡ (err x, quiet v db')
      → retry (suc n) attempt e (alone db) ≡ (err x, alone db')
  unfolding retry transaction
  run_retry_err n attempt e h = ap (λ o. continue (close o) (λ r. finish r (retry n attempt e))) h

  pub run_transaction :
      (m : Action A) {r : Result A} {v : Db}
      → m (alone db) ≡ (r, quiet v db')
      → transaction m (alone db) ≡ (r, alone db')
  unfolding transaction
  run_transaction m h = ap close h
