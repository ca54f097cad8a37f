-- ===== src/Concurrency/Raises.antt =====
-- Which errors the retry loop may raise.
use instant_payment_ledger_a.Prelude.{ℕ, zero, suc, Option, none, some}
use instant_payment_ledger_a.Entities.Errors.{Error}
use instant_payment_ledger_a.Database.Session.{Action, pure, commit, rollback, transaction}
use instant_payment_ledger_a.Database.Raises.{
  Raises, Raises-pure, Raises-raise, Raises-commit, Raises-rollback, Raises-transaction,
  Raises-bind, Raises-then, raises_rules,
}
use instant_payment_ledger_a.Concurrency.{retry, finish, give_up, succeed}

module _ {E : Error → Type 0} {A : Type 0} where
  Raises-finish : (r : Option A) (again : Action A) → Raises E again → Raises E (finish r again)
  Raises-finish (some a) again h = Raises-pure a
  Raises-finish none again h = h

  pub Raises-retry :
      (n : ℕ) (attempt : Action (Option A)) (e : Error)
      → E e
      → Raises E attempt
      → Raises E (retry n attempt e)
  unfolding retry
  Raises-retry zero attempt e h k = Raises-raise e h
  Raises-retry (suc n) attempt e h k =
      Raises-bind (transaction attempt) (λ r. finish r (retry n attempt e))
        (Raises-transaction attempt k)
        (λ r. Raises-finish r (retry n attempt e) (Raises-retry n attempt e h k))

  pub Raises-give_up : Raises E (give_up {A = A})
  unfolding give_up
  Raises-give_up = Raises-then rollback (pure none) Raises-rollback (Raises-pure none)

  pub Raises-succeed : (a : A) → Raises E (succeed a)
  unfolding succeed
  Raises-succeed a = Raises-then commit (pure (some a)) Raises-commit (Raises-pure (some a))

pub ruleset attempt_raises = (raises_rules, Raises-give_up, Raises-succeed)
