-- ===== src/Api/Requests.antt =====
-- app/api/v1/payments.py and accounts.py: the requests that write, and the states that they lead to.
use instant_payment_ledger_a.Prelude.{ℕ, String, Option, List, ◌≡◌, [], All}
use instant_payment_ledger_a.Database.Tables.{Db}
use instant_payment_ledger_a.Database.Session.{Session}
use instant_payment_ledger_a.Ledger.Conservation.{IsConserved}
use instant_payment_ledger_a.Payments.Services.Initiate.{PaymentRequest, Digest}
use instant_payment_ledger_a.Api.{status_code}
use instant_payment_ledger_a.Api.Payments.{create_payment, authorise, settle, reverse, fail}
use instant_payment_ledger_a.Api.Accounts.{CreateAccountRequest, create_account}

pub data Request : Type 0 where
  post_accounts : CreateAccountRequest → Request
  post_payments : String → PaymentRequest → Request
  post_authorise : ℕ → Request
  post_settle : ℕ → Request
  post_reverse : ℕ → Request
  post_fail : ℕ → Option String → Request

-- The database over which a request runs, and what other clients commit meanwhile.
abbrev pub with_others : Db → List (Db → Db) → Session
with_others db others = record { view = db; committed = db; others = others }

module _ (upper : String → String) (digest : Digest) where
  -- What a request leaves.
  unfoldable pub serve : Request → Session → Session
  unfolding create_account create_payment authorise settle reverse fail
  serve (post_accounts body) s = (create_account upper body s).1
  serve (post_payments key body) s = (create_payment upper digest key body s).1
  serve (post_authorise i) s = (authorise i s).1
  serve (post_settle i) s = (settle i s).1
  serve (post_reverse i) s = (reverse i s).1
  serve (post_fail i reason) s = (fail i reason s).1

  -- From an empty journal, by any requests, in between the commits of others that keep the sums.
  pub data Reachable : Db → Type 0 where
    empty_journal : (db : Db) → db.journal_lines ≡ [] → Reachable db
    served :
        {db : Db}
        → Reachable db
        → (q : Request) (others : List (Db → Db))
        → All (λ (g : Db → Db). (db : Db) → IsConserved db → IsConserved (g db)) others
        → Reachable (serve q (with_others db others)).committed

  -- What a request is answered with.
  unfoldable pub answer_code : Request → Session → ℕ
  unfolding create_account create_payment authorise settle reverse fail status_code
  answer_code (post_accounts body) s = status_code (create_account upper body s).0
  answer_code (post_payments key body) s = status_code (create_payment upper digest key body s).0
  answer_code (post_authorise i) s = status_code (authorise i s).0
  answer_code (post_settle i) s = status_code (settle i s).0
  answer_code (post_reverse i) s = status_code (reverse i s).0
  answer_code (post_fail i reason) s = status_code (fail i reason s).0
