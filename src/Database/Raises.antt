-- ===== src/Database/Raises.antt =====
-- Which errors an action may raise, whatever other clients commit in between. One rule for each way
-- to build an action.
use instant_payment_ledger_a.Prelude.{◌≡◌, refl, Bool, true, false, if◌then◌else◌}
use instant_payment_ledger_a.Entities.Errors.{Error, Result, ok, err}
pub use instant_payment_ledger_a.Entities.Results.{Covers, Within, Within-ok, Within-err, Within-if}
use instant_payment_ledger_a.Database.Tables.{Db}
use instant_payment_ledger_a.Database.Session.{
  Session, Action, pure, raise, lift, continue, ◌>>=◌, ◌>>◌, statement, query, execute, commit,
  rollback, transaction,
}

pub record Raises {A : Type 0} (E : Error → Type 0) (m : Action A) : Type 0 where
  pub at : (s : Session) → Within E (m s).0

module _ {E : Error → Type 0} {A : Type 0} where
  pub Raises-pure : (a : A) → Raises E (pure a)
  unfolding pure
  Raises-pure a = record { at = λ s. Within-ok a }

  pub Raises-raise : (e : Error) → E e → Raises E (raise {A = A} e)
  unfolding raise
  Raises-raise e h = record { at = λ s. Within-err e h }

  pub Raises-lift : (r : Result A) → Within E r → Raises E (lift r)
  unfolding lift
  Raises-lift r h = record { at = λ s. h }

  pub Raises-statement :
      (f : Db → Result A × Db) → ((db : Db) → Within E (f db).0) → Raises E (statement f)
  unfolding statement
  Raises-statement f h = record { at = λ s. h _ }

  pub Raises-query : (f : Db → Result A) → ((db : Db) → Within E (f db)) → Raises E (query f)
  unfolding query
  Raises-query f h = Raises-statement (λ db. (f db, db)) h

  pub Raises-transaction : (m : Action A) → Raises E m → Raises E (transaction m)
  unfolding transaction
  Raises-transaction m h = record { at = λ s. h.at (record s { view = s.committed }) }

  pub Raises-if :
      (b : Bool) (m n : Action A) → Raises E m → Raises E n → Raises E (if b then m else n)
  Raises-if true m n hm hn = hm
  Raises-if false m n hm hn = hn

module _ {E : Error → Type 0} where
  pub Raises-execute : (f : Db → Db) → Raises E (execute f)
  unfolding execute
  Raises-execute f = Raises-statement (λ db. (ok tt, f db)) (λ db. Within-ok tt)

  pub Raises-commit : Raises E commit
  unfolding commit
  Raises-commit = record { at = λ s. Within-ok tt }

  pub Raises-rollback : Raises E rollback
  unfolding rollback
  Raises-rollback = record { at = λ s. Within-ok tt }

module _ {E : Error → Type 0} {A B : Type 0} where
  Within-continue :
      (r : Result A) (s : Session) (f : A → Action B)
      → Within E r
      → ((a : A) → r ≡ ok a → Raises E (f a))
      → Within E (continue (r, s) f).0
  Within-continue (ok a) s f h k = (k a refl).at s
  Within-continue (err e) s f h k = record { covered = h.covered }

  pub Raises-bind :
      (m : Action A) (f : A → Action B)
      → Raises E m
      → ((a : A) → Raises E (f a))
      → Raises E (m >>= f)
  unfolding ◌>>=◌
  Raises-bind m f h k = record { at = λ s. Within-continue (m s).0 (m s).1 f (h.at s) (λ a e. k a) }

  pub Raises-then : (m : Action A) (k : Action B) → Raises E m → Raises E k → Raises E (m >> k)
  unfolding ◌>>◌
  Raises-then m k h hk = Raises-bind m (λ a. k) h (λ a. hk)

  -- The rest may use that `r` did not raise.
  pub Raises-then_lift :
      (r : Result A) (k : Action B)
      → Within E r
      → ((a : A) → r ≡ ok a → Raises E k)
      → Raises E (lift r >> k)
  unfolding lift ◌>>◌ ◌>>=◌
  Raises-then_lift r k h hk = record { at = λ s. Within-continue r s (λ a. k) h hk }

pub ruleset raises_rules = (
  Within-ok, Within-err, Within-if, Raises-lift, Raises-query, Raises-pure, Raises-raise,
  Raises-execute, Raises-commit, Raises-rollback, Raises-transaction, Raises-if, Raises-bind,
  Raises-then,
)

-- What the results of an action satisfy.
abbrev pub Meets : {A : Type 0} → (A → Type 0) → Result A → Type 0
Meets Q (ok a) = Q a
Meets Q (err e) = Unit

pub record Gives {A : Type 0} (Q : A → Type 0) (m : Action A) : Type 0 where
  pub at : (s : Session) → Meets Q (m s).0

module _ {B : Type 0} {Q : B → Type 0} where
  pub Gives-pure : (b : B) → Q b → Gives Q (pure b)
  unfolding pure
  Gives-pure b q = record { at = λ s. q }

  pub Gives-if : (b : Bool) (m n : Action B) → Gives Q m → Gives Q n → Gives Q (if b then m else n)
  Gives-if true m n hm hn = hm
  Gives-if false m n hm hn = hn

  Meets-continue :
      {A : Type 0} (r : Result A) (s : Session) (f : A → Action B)
      → ((a : A) → Gives Q (f a))
      → Meets Q (continue (r, s) f).0
  Meets-continue (ok a) s f k = (k a).at s
  Meets-continue (err e) s f k = tt

  pub Gives-bind :
      {A : Type 0} (m : Action A) (f : A → Action B) → ((a : A) → Gives Q (f a)) → Gives Q (m >>= f)
  unfolding ◌>>=◌
  Gives-bind m f k = record { at = λ s. Meets-continue (m s).0 (m s).1 f k }

  pub Gives-then : {A : Type 0} (m : Action A) (k : Action B) → Gives Q k → Gives Q (m >> k)
  unfolding ◌>>◌
  Gives-then m k h = Gives-bind m (λ a. k) (λ a. h)

pub ruleset gives_rules = (Gives-pure, Gives-if, Gives-bind, Gives-then)

-- The rest may use what the first action's results satisfy.
pub Raises-bind_Gives :
    {E : Error → Type 0} {A B : Type 0} (Q : A → Type 0) (m : Action A) (f : A → Action B)
    → Raises E m
    → Gives Q m
    → ((a : A) → Q a → Raises E (f a))
    → Raises E (m >>= f)
unfolding ◌>>=◌
Raises-bind_Gives Q m f h g k = record {
  at = λ s. Within-continue (m s).0 (m s).1 f (h.at s) λ a e. k a (met a e (g.at s));
}
  where
    met : {r : Result _} (a : _) → r ≡ ok a → Meets Q r → Q a
    met a e q = rw e at q
