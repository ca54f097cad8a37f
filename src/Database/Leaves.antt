-- ===== src/Database/Leaves.antt =====
-- Actions that leave the committed rows alone: after them the committed rows are what they were, with
-- the commits of others that came in between. One rule for each way to build an action.
use mathlib.Core.List.{append_assoc}
use instant_payment_ledger_a.Prelude.{
  ◌≡◌, refl, sym, ap, ◌∙◌, Bool, true, false, Option, none, some, List, [], ◌∷◌, ◌++◌,
  if◌then◌else◌,
}
use instant_payment_ledger_a.Entities.Errors.{Error, Result, ok, err}
use instant_payment_ledger_a.Database.Tables.{Db}
use instant_payment_ledger_a.Database.Session.{
  Session, Action, pure, raise, lift, continue, ◌>>=◌, ◌>>◌, interfere_with, statement, query,
  execute, rollback, commit, transaction,
}

abbrev pub commit_all : List (Db → Db) → Db → Db
commit_all [] db = db
commit_all (g ∷ gs) db = commit_all gs (g db)

-- From `s` to `t` only others have committed, those at the front of the schedule.
pub record ByOthers (s t : Session) : Type 0 where
  pub done : List (Db → Db)
  pub scheduled : s.others ≡ done ++ t.others
  pub result : t.committed ≡ commit_all done s.committed

commit_all-append :
    (gs hs : List (Db → Db)) (db : Db) → commit_all (gs ++ hs) db ≡ commit_all hs (commit_all gs db)
commit_all-append [] hs db = refl
commit_all-append (g ∷ gs) hs db = commit_all-append gs hs (g db)

pub ByOthers-refl : (s : Session) → ByOthers s s
ByOthers-refl s = record { done = []; scheduled = refl; result = refl }

pub ByOthers-trans : {s t u : Session} → ByOthers s t → ByOthers t u → ByOthers s u
ByOthers-trans {s} {t} {u} p q = record {
  done = p.done ++ q.done;
  scheduled =
      p.scheduled ∙ ap (λ l. p.done ++ l) q.scheduled ∙ sym (append_assoc p.done q.done u.others);
  result =
      q.result
      ∙ ap (commit_all q.done) p.result
      ∙ sym (commit_all-append p.done q.done s.committed);
}

interfere_with-ByOthers :
    (gs : List (Db → Db)) (s : Session) → s.others ≡ gs → ByOthers s (interfere_with gs s)
interfere_with-ByOthers [] s e = ByOthers-refl s
interfere_with-ByOthers (g ∷ gs) s e = record { done = g ∷ []; scheduled = e; result = refl }

-- On the outcomes `Q` the action has committed nothing.
pub record Leaves {A : Type 0} (Q : Result A → Type 0) (m : Action A) : Type 0 where
  pub at : (s : Session) → Q (m s).0 → ByOthers s (m s).1

abbrev pub Always : {A : Type 0} → Result A → Type 0
Always r = Unit

abbrev pub IsErr : {A : Type 0} → Result A → Type 0
IsErr (ok a) = ⊥
IsErr (err e) = Unit

-- An attempt that raised or lost a race.
abbrev pub IsUndone : {A : Type 0} → Result (Option A) → Type 0
IsUndone (ok (some a)) = ⊥
IsUndone (ok none) = Unit
IsUndone (err e) = Unit

module _ {A : Type 0} {Q : Result A → Type 0} where
  pub Leaves-pure : (a : A) → Leaves Q (pure a)
  unfolding pure
  Leaves-pure a = record { at = λ s q. ByOthers-refl s }

  pub Leaves-raise : (e : Error) → Leaves Q (raise {A = A} e)
  unfolding raise
  Leaves-raise e = record { at = λ s q. ByOthers-refl s }

  pub Leaves-lift : (r : Result A) → Leaves Q (lift r)
  unfolding lift
  Leaves-lift r = record { at = λ s q. ByOthers-refl s }

  pub Leaves-statement : (f : Db → Result A × Db) → Leaves Q (statement f)
  unfolding statement
  Leaves-statement f = record {
    at = λ s q.
        let i = interfere_with-ByOthers s.others s refl in
        record { done = i.done; scheduled = i.scheduled; result = i.result };
  }

  pub Leaves-query : (f : Db → Result A) → Leaves Q (query f)
  unfolding query
  Leaves-query f = Leaves-statement λ db. (f db, db)

  pub Leaves-if :
      (b : Bool) (m n : Action A) → Leaves Q m → Leaves Q n → Leaves Q (if b then m else n)
  Leaves-if true m n lm ln = lm
  Leaves-if false m n lm ln = ln

  pub Leaves-transaction : (m : Action A) → Leaves Q m → Leaves Q (transaction m)
  unfolding transaction
  Leaves-transaction m l = record {
    at = λ s q.
        let i = l.at (record s { view = s.committed }) q in
        record { done = i.done; scheduled = i.scheduled; result = i.result };
  }

-- A commit whose outcome is not one of `Q`.
pub Leaves-commit_then :
    {A : Type 0} {Q : Result A → Type 0} (a : A) → ¬ Q (ok a) → Leaves Q (commit >> pure a)
unfolding commit pure ◌>>◌
Leaves-commit_then a n = record { at = λ s q. absurd (n q) }

pub Leaves-rollback : {Q : Result (Unit {0}) → Type 0} → Leaves Q rollback
unfolding rollback
Leaves-rollback = record { at = λ s q. record { done = []; scheduled = refl; result = refl } }

module _ {A B : Type 0} {Q : Result B → Type 0} where
  continue-ByOthers :
      (r : Result A) (s t : Session) (f : A → Action B)
      → ((a : A) → Leaves Q (f a))
      → ByOthers s t
      → Q (continue (r, t) f).0
      → ByOthers s (continue (r, t) f).1
  continue-ByOthers (ok a) s t f l o q = ByOthers-trans o ((l a).at t q)
  continue-ByOthers (err e) s t f l o q = o

  pub Leaves-bind :
      (m : Action A) (f : A → Action B)
      → Leaves Always m
      → ((a : A) → Leaves Q (f a))
      → Leaves Q (m >>= f)
  unfolding ◌>>=◌
  Leaves-bind m f lm lf = record {
    at = λ s q. let (r, t) = m s in continue-ByOthers r s t f lf (lm.at s tt) q;
  }

pub Leaves-execute : {Q : Result (Unit {0}) → Type 0} (f : Db → Db) → Leaves Q (execute f)
unfolding execute
Leaves-execute f = Leaves-statement λ db. (ok tt, f db)

pub Leaves-then :
    {A B : Type 0} {Q : Result B → Type 0} (m : Action A) (k : Action B)
    → Leaves Always m
    → Leaves Q k
    → Leaves Q (m >> k)
unfolding ◌>>◌
Leaves-then m k lm lk = Leaves-bind m (λ a. k) lm λ a. lk

pub ruleset leaves_rules = (
  Leaves-pure, Leaves-raise, Leaves-lift, Leaves-query, Leaves-execute, Leaves-rollback,
  Leaves-transaction, Leaves-if, Leaves-bind, Leaves-then, Leaves-commit_then,
)
