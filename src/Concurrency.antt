-- ===== src/Concurrency.antt =====
-- app/domain/concurrency.py, and the retry loop that the services share: `for attempt in
-- range(max_attempts)`, one transaction each. An attempt that lost a race gives `none`. The pause
-- between attempts, whose length is random, only lets others run.
pub mod Rules
pub mod Raises
use instant_payment_ledger_a.Prelude.{ℕ, zero, suc, Option, none, some}
use instant_payment_ledger_a.Entities.Errors.{Error}
use instant_payment_ledger_a.Database.Session.{
  Action, transaction, pure, raise, commit, rollback, ◌>>=◌, ◌>>◌,
}

abbrev pub default_max_attempts : ℕ
default_max_attempts = 5

abbrev pub finish {ℓ} : {A : Type ℓ} → Option A → Action A → Action A
finish (some a) again = pure a
finish none again = again

-- How an attempt ends: it rolls back and lets the loop go on, or it commits and returns.
unfoldable pub give_up {ℓ} : {A : Type ℓ} → Action (Option A)
give_up = rollback >> pure none

unfoldable pub succeed {ℓ} : {A : Type ℓ} → A → Action (Option A)
succeed a = commit >> pure (some a)

-- `e` is raised when no attempt is left.
unfoldable pub retry {ℓ} : {A : Type ℓ} → ℕ → Action (Option A) → Error → Action A
retry zero attempt e = raise e
retry (suc n) attempt e = do r ← transaction attempt; finish r (retry n attempt e)
