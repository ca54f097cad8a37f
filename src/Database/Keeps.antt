-- ===== src/Database/Keeps.antt =====
-- Properties of the database that an action keeps, whatever other clients commit in between, as long
-- as their commits keep it too. One rule for each way to build an action.
use instant_payment_ledger_a.Prelude.{
  ◌≡◌, refl, Bool, true, false, List, [], ◌∷◌, All, if◌then◌else◌,
}
use instant_payment_ledger_a.Entities.Errors.{Error, Result, ok, err}
use instant_payment_ledger_a.Database.Tables.{Db}
use instant_payment_ledger_a.Database.Session.{
  Session, Action, pure, raise, lift, continue, ◌>>=◌, ◌>>◌, interfere_with, interfere, statement,
  query, execute, commit, rollback, transaction,
}

-- `P` holds of what the session sees and of what is committed, and the others keep it.
pub record Holds (P : Db → Type 0) (s : Session) : Type 0 where
  pub seen : P s.view
  pub stored : P s.committed
  pub kept : All (λ (g : Db → Db). (db : Db) → P db → P (g db)) s.others

pub record Keeps {A : Type 0} (P : Db → Type 0) (m : Action A) : Type 0 where
  pub at : (s : Session) → Holds P s → Holds P (m s).1

module _ {P : Db → Type 0} where
  Holds-interfere_with :
      (gs : List (Db → Db)) (s : Session)
      → All (λ (g : Db → Db). (db : Db) → P db → P (g db)) gs
      → Holds P s
      → Holds P (interfere_with gs s)
  Holds-interfere_with [] s k h = h
  Holds-interfere_with (g ∷ gs) s k h = record {
    seen = k.0 s.view h.seen;
    stored = k.0 s.committed h.stored;
    kept = k.1;
  }

  pub Holds-interfere : (s : Session) → Holds P s → Holds P (interfere s)
  Holds-interfere s h = Holds-interfere_with s.others s h.kept h

  pub Keeps-commit : Keeps P commit
  unfolding commit
  Keeps-commit = record { at = λ s h. record { seen = h.seen; stored = h.seen; kept = h.kept } }

  pub Keeps-rollback : Keeps P rollback
  unfolding rollback
  Keeps-rollback = record {
    at = λ s h. record { seen = h.stored; stored = h.stored; kept = h.kept };
  }

module _ {P : Db → Type 0} {A : Type 0} where
  pub Keeps-lift : (result : Result A) → Keeps P (lift result)
  unfolding lift
  Keeps-lift result = record { at = λ s held. held }

  pub Keeps-pure : (value : A) → Keeps P (pure value)
  unfolding pure
  Keeps-pure value = record { at = λ s held. held }

  pub Keeps-raise : (error : Error) → Keeps P (raise {A = A} error)
  unfolding raise
  Keeps-raise error = record { at = λ s held. held }

  pub Keeps-statement :
      (f : Db → Result A × Db) → ((db : Db) → P db → P (f db).1) → Keeps P (statement f)
  unfolding statement
  Keeps-statement f k = record {
    at = λ s h.
        let i = Holds-interfere s h in
        record { seen = k (interfere s).view i.seen; stored = i.stored; kept = i.kept };
  }

  pub Keeps-query : (f : Db → Result A) → Keeps P (query f)
  unfolding query
  Keeps-query f = Keeps-statement (λ db. (f db, db)) λ db h. h

  pub Keeps-transaction : (m : Action A) → Keeps P m → Keeps P (transaction m)
  unfolding transaction
  Keeps-transaction m k = record {
    at = λ s h.
        let i =
          k.at (record s { view = s.committed })
            (record { seen = h.stored; stored = h.stored; kept = h.kept }) in
        record { seen = i.stored; stored = i.stored; kept = i.kept };
  }

  pub Keeps-if : (b : Bool) (m n : Action A) → Keeps P m → Keeps P n → Keeps P (if b then m else n)
  Keeps-if true m n km kn = km
  Keeps-if false m n km kn = kn

module _ {P : Db → Type 0} {A B : Type 0} where
  Holds-continue :
      (r : Result A) (s : Session) (f : A → Action B)
      → ((a : A) → r ≡ ok a → Keeps P (f a))
      → Holds P s
      → Holds P (continue (r, s) f).1
  Holds-continue (ok a) s f k h = (k a refl).at s h
  Holds-continue (err e) s f k h = h

  -- The rest of a block may use that `r` did not raise.
  pub Keeps-bind-lift :
      (r : Result A) (f : A → Action B)
      → ((a : A) → r ≡ ok a → Keeps P (f a))
      → Keeps P (lift r >>= f)
  unfolding lift ◌>>=◌
  Keeps-bind-lift r f k = record { at = λ s h. Holds-continue r s f k h }

  pub Keeps-bind :
      (first : Action A) (next : A → Action B)
      → Keeps P first
      → ((value : A) → Keeps P (next value))
      → Keeps P (first >>= next)
  unfolding ◌>>=◌
  Keeps-bind first next keeps_first keeps_next = record {
    at = λ s held.
        Holds-continue (first s).0 (first s).1 next (λ value _. keeps_next value)
          (keeps_first.at s held);
  }

pub Keeps-execute :
    {P : Db → Type 0} (f : Db → Db) → ((db : Db) → P db → P (f db)) → Keeps P (execute f)
unfolding execute
Keeps-execute f k = Keeps-statement (λ db. (ok tt, f db)) k

pub Keeps-then :
    {P : Db → Type 0} {A B : Type 0} (m : Action A) (k : Action B)
    → Keeps P m
    → Keeps P k
    → Keeps P (m >> k)
unfolding ◌>>◌
Keeps-then m k km kk = Keeps-bind m (λ a. k) km λ a. kk

pub Keeps-then_lift :
    {P : Db → Type 0} {A B : Type 0} (r : Result A) (k : Action B)
    → ((a : A) → r ≡ ok a → Keeps P k)
    → Keeps P (lift r >> k)
unfolding ◌>>◌
Keeps-then_lift r k h = Keeps-bind-lift r (λ a. k) h

pub ruleset keeps_rules = (
  Keeps-pure, Keeps-raise, Keeps-lift, Keeps-query, Keeps-commit, Keeps-rollback, Keeps-transaction,
  Keeps-if, Keeps-bind, Keeps-then,
)
