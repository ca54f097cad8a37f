-- ===== src/Concurrency/Rules.antt =====
-- What the retry loop keeps, and what it leaves alone.
use instant_payment_ledger_a.Prelude.{ℕ, zero, suc, Option, none, some}
use instant_payment_ledger_a.Entities.Errors.{Error, Result, ok, err}
use instant_payment_ledger_a.Database.Tables.{Db}
use instant_payment_ledger_a.Database.Session.{
  Session, Action, transaction, pure, commit, continue, ◌>>◌,
}
use instant_payment_ledger_a.Database.Keeps.{
  Keeps, keeps_rules, Keeps-pure, Keeps-raise, Keeps-bind, Keeps-transaction,
}
use instant_payment_ledger_a.Database.Leaves.{
  leaves_rules, ByOthers, ByOthers-refl, ByOthers-trans, Leaves, IsErr, IsUndone,
  Leaves-transaction,
}
use instant_payment_ledger_a.Concurrency.{retry, finish, give_up, succeed}

module _ {A : Type 0} where
  Keeps-finish :
      {P : Db → Type 0} (r : Option A) (again : Action A) → Keeps P again → Keeps P (finish r again)
  Keeps-finish (some a) again k = Keeps-pure a
  Keeps-finish none again k = k

  pub Keeps-retry :
      {P : Db → Type 0} (n : ℕ) (attempt : Action (Option A)) (e : Error)
      → Keeps P attempt
      → Keeps P (retry n attempt e)
  unfolding retry
  Keeps-retry zero attempt e k = Keeps-raise e
  Keeps-retry (suc n) attempt e k =
      Keeps-bind (transaction attempt) (λ r. finish r (retry n attempt e))
        (Keeps-transaction attempt k)
        (λ r. Keeps-finish r (retry n attempt e) (Keeps-retry n attempt e k))

  pub Keeps-give_up : {P : Db → Type 0} → Keeps P (give_up {A = A})
  unfolding give_up
  Keeps-give_up = search keeps_rules

  pub Keeps-succeed : {P : Db → Type 0} (a : A) → Keeps P (succeed a)
  unfolding succeed
  Keeps-succeed a = search keeps_rules

  pub Leaves-give_up : {Q : Result (Option A) → Type 0} → Leaves Q (give_up {A = A})
  unfolding give_up
  Leaves-give_up = search leaves_rules

  pub Leaves-succeed : (a : A) → Leaves IsUndone (succeed a)
  unfolding succeed commit pure ◌>>◌
  Leaves-succeed a = record { at = λ s q. absurd q }

  after_attempt :
      (r : Result (Option A)) (s t : Session) (again : Action A)
      → (IsUndone r → ByOthers s t)
      → Leaves IsErr again
      → IsErr (continue (r, t) (λ o. finish o again)).0
      → ByOthers s (continue (r, t) (λ o. finish o again)).1
  unfolding pure
  after_attempt (ok (some a)) s t again o l q = absurd q
  after_attempt (ok none) s t again o l q = ByOthers-trans (o tt) (l.at t q)
  after_attempt (err e) s t again o l q = o tt

  -- If attempts that do not succeed leave the committed rows alone, so does a loop that raises.
  pub Leaves-retry :
      (n : ℕ) (attempt : Action (Option A)) (e : Error)
      → Leaves IsUndone attempt
      → Leaves IsErr (retry n attempt e)
  unfolding retry transaction
  Leaves-retry zero attempt e l = record { at = λ s q. ByOthers-refl s }
  Leaves-retry (suc n) attempt e l = record {
    at = λ s q.
        let (r, t) = transaction attempt s in
        after_attempt r s t (retry n attempt e) ((Leaves-transaction attempt l).at s)
          (Leaves-retry n attempt e l) q;
  }

pub ruleset attempt_rules = (keeps_rules, Keeps-give_up, Keeps-succeed)

pub ruleset undone_rules = (leaves_rules, Leaves-give_up, Leaves-succeed)
