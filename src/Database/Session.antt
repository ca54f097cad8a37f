-- ===== src/Database/Session.antt =====
-- app/infra/db/unit_of_work.py over a database that other clients use at the same time (READ
-- COMMITTED). A session has the rows that its statements see, `view`, the rows that are committed,
-- and `others`: what other clients commit, one entry before each statement. Such a commit reaches the
-- committed rows and, at the next statement, the view. A rollback keeps the others' commits only.
-- That rows which this transaction has changed are locked for the others is not built in.
use instant_payment_ledger_a.Prelude.{List, [], ◌∷◌}
use instant_payment_ledger_a.Entities.Errors.{Error, Result, ok, err}
use instant_payment_ledger_a.Database.Tables.{Db}

pub record Session : Type 0 where
  pub view : Db
  pub committed : Db
  pub others : List (Db → Db)

-- A call: it returns or raises, and leaves a session.
abbrev pub Action {ℓ} : Type ℓ → Type ℓ
Action A = Session → Result A × Session

unfoldable pub pure {ℓ} : {A : Type ℓ} → A → Action A
pure a s = (ok a, s)

unfoldable pub raise {ℓ} : {A : Type ℓ} → Error → Action A
raise e s = (err e, s)

unfoldable pub lift {ℓ} : {A : Type ℓ} → Result A → Action A
lift r s = (r, s)

-- The continuation of a `bind`, on what the first action left.
abbrev pub continue {ℓ κ} :
    {A : Type ℓ} {B : Type κ} → Result A × Session → (A → Action B) → Result B × Session
continue (ok a, s) f = f a s
continue (err e, s) f = (err e, s)

infixl 5 ◌>>=◌ ◌>>◌
unfoldable pub ◌>>=◌ {ℓ κ} : {A : Type ℓ} {B : Type κ} → Action A → (A → Action B) → Action B
◌>>=◌ m f s = continue (m s) f

unfoldable pub ◌>>◌ {ℓ κ} : {A : Type ℓ} {B : Type κ} → Action A → Action B → Action B
unfolding ◌>>=◌
m >> k = m >>= λ _. k

abbrev pub interfere_with : List (Db → Db) → Session → Session
interfere_with [] s = s
interfere_with (g ∷ rest) s = record s { view = g s.view; committed = g s.committed; others = rest }

-- The commits of others that come before the next statement.
abbrev pub interfere : Session → Session
interfere s = interfere_with s.others s

abbrev pub put_view {ℓ} : {A : Type ℓ} → Session → Result A × Db → Result A × Session
put_view s (r, db) = (r, record s { view = db })

-- One statement of the transaction: it may fail, and changes the view.
unfoldable pub statement {ℓ} : {A : Type ℓ} → (Db → Result A × Db) → Action A
statement f s = let s' = interfere s in put_view s' (f s'.view)

unfoldable pub query {ℓ} : {A : Type ℓ} → (Db → Result A) → Action A
unfolding statement
query f = statement λ db. (f db, db)

unfoldable pub execute : (Db → Db) → Action (Unit {0})
unfolding statement
execute f = statement λ db. (ok tt, f db)

unfoldable pub commit : Action (Unit {0})
commit s = (ok tt, record s { committed = s.view })

unfoldable pub rollback : Action (Unit {0})
rollback s = (ok tt, record s { view = s.committed })

-- `__aenter__`, and `__aexit__` on each way out: what has not been committed is dropped.
abbrev pub close {ℓ} : {A : Type ℓ} → Result A × Session → Result A × Session
close (r, s) = (r, record s { view = s.committed })

-- `async with uow_factory() as uow: ...`
unfoldable pub transaction {ℓ} : {A : Type ℓ} → Action A → Action A
unfolding pure raise lift ◌>>=◌ ◌>>◌ statement query execute commit rollback
transaction body s = close (body (record s { view = s.committed }))

-- A session over `db` with nobody else at work.
abbrev pub alone : Db → Session
alone db = record { view = db; committed = db; others = [] }
