-- ===== src/Api/Atomicity.antt =====
-- app/api/v1: what a request that is not answered with success has committed.
use instant_payment_ledger_a.Prelude.{ℕ, String, ◌≤◌, Bool, true, false, if◌then◌else◌, arith}
use instant_payment_ledger_a.Entities.Ledger.{Account}
use instant_payment_ledger_a.Entities.Payments.{Payment, payment_response_dict}
use instant_payment_ledger_a.Entities.Errors.{Result, ok, err}
use instant_payment_ledger_a.Database.Session.{
  Session, Action, pure, ◌>>=◌, continue, rollback, transaction,
}
use instant_payment_ledger_a.Database.Leaves.{
  ByOthers, ByOthers-refl, Leaves, IsErr, Always, Leaves-statement, Leaves-transaction,
  leaves_rules,
}
use instant_payment_ledger_a.Repositories.Ledger.{create_account as insert_account_row}
use instant_payment_ledger_a.Concurrency.{default_max_attempts}
use instant_payment_ledger_a.Payments.Services.Initiate.{Digest}
use instant_payment_ledger_a.Payments.Atomicity.{
  settle_payment-Leaves, reverse_payment-Leaves, authorise_payment-Leaves, fail_payment-Leaves,
}
use instant_payment_ledger_a.Api.{Response, Handler, status_code, response, endpoint, invalid_body}
use instant_payment_ledger_a.Api.Payments.{
  run_transition, run_transition_status, authorise, settle, reverse, fail,
}
use instant_payment_ledger_a.Api.Accounts.{
  CreateAccountRequest, is_valid_account_request, rolled_back_if, is_integrity_error,
  undo_integrity_error, add_account, create_account_status, create_account,
}
use instant_payment_ledger_a.Api.Requests.{
  Request, post_accounts, post_payments, post_authorise, post_settle, post_reverse, post_fail,
  serve, answer_code,
}

-- All but the creation of a payment, whose first transaction keeps the idempotency key.
abbrev pub IsKeyless : Request → Type 0
IsKeyless (post_payments key body) = ⊥
IsKeyless _ = Unit

rolled_back_if-ByOthers :
    (b : Bool) (s t : Session) → ByOthers s t → ByOthers s (rolled_back_if b t)
unfolding rollback
rolled_back_if-ByOthers true s t o = record {
  done = o.done;
  scheduled = o.scheduled;
  result = o.result;
}
rolled_back_if-ByOthers false s t o = o

undo-Leaves : {A : Type 0} (m : Action A) → Leaves IsErr m → Leaves IsErr (undo_integrity_error m)
undo-Leaves m l = record {
  at = λ s q. rolled_back_if-ByOthers (is_integrity_error (m s).0) s (m s).1 (l.at s q);
}

insert_account-Leaves : (n o t c : String) → Leaves Always (insert_account_row n o t c)
unfolding insert_account_row
insert_account-Leaves n o t c = Leaves-statement _

add_account-Leaves :
    (upper : String → String) (body : CreateAccountRequest) → Leaves IsErr (add_account upper body)
unfolding add_account
add_account-Leaves upper body = search (leaves_rules, insert_account-Leaves)

-- A success has a status code below 400.
not_success :
    {A : Type 0} (code : ℕ) (handler : Handler) (r : Result A)
    → code ≤ 399
    → 400 ≤ status_code (response code handler r)
    → IsErr r
unfolding status_code
not_success code handler (ok a) below above = absurd (omega arith)
not_success code handler (err e) below above = tt

endpoint-ByOthers :
    {A : Type 0} (code : ℕ) (handler : Handler) (m : Action A) (s : Session)
    → Leaves IsErr m
    → code ≤ 399
    → 400 ≤ status_code (endpoint code handler m s).0
    → ByOthers s (endpoint code handler m s).1
unfolding endpoint
endpoint-ByOthers code handler m s l below above =
    l.at s (not_success code handler (m s).0 below above)

answer-Leaves :
    (m : Action Payment) → Leaves IsErr m → Leaves IsErr (m >>= λ p. pure (payment_response_dict p))
unfolding ◌>>=◌ pure
answer-Leaves m l = record { at = λ s. passed (m s) (l.at s) }
  where
    passed :
        {s : Session} (o : Result Payment × Session)
        → (IsErr o.0 → ByOthers s o.1)
        → IsErr (continue o (λ p. pure (payment_response_dict p))).0
        → ByOthers s (continue o (λ p. pure (payment_response_dict p))).1
    passed (ok p, t) h q = absurd q
    passed (err e, t) h q = h tt

module _ (upper : String → String) (digest : Digest) where
  account-ByOthers :
      (valid : Bool) (body : CreateAccountRequest) (s : Session)
      → let answer : Response Account × Session =
          if valid
          then endpoint 201 create_account_status
              (transaction (undo_integrity_error (add_account upper body)))
              s
          else (invalid_body, s) in
        400 ≤ status_code (answer.0) → ByOthers s (answer.1)
  account-ByOthers true body s h =
      endpoint-ByOthers 201 create_account_status _ s
        (Leaves-transaction _ (undo-Leaves _ (add_account-Leaves upper body))) (omega arith) h
  account-ByOthers false body s h = ByOthers-refl s

  transition-ByOthers :
      (m : Action Payment) (s : Session)
      → Leaves IsErr m
      → 400 ≤ status_code (run_transition m s).0
      → ByOthers s (run_transition m s).1
  unfolding run_transition
  transition-ByOthers m s l h =
      endpoint-ByOthers 200 run_transition_status _ s (answer-Leaves m l) (omega arith) h

  -- If a request that creates an account, or authorises, settles, reverses or fails a payment, is
  -- answered with a status code of 400 or more, the committed rows are those of before with the
  -- commits of others that came in between.
  pub serve-ByOthers :
      (q : Request) (s : Session)
      → IsKeyless q
      → 400 ≤ answer_code upper digest q s
      → ByOthers s (serve upper digest q s)
  unfolding serve answer_code authorise settle reverse fail create_account
  serve-ByOthers (post_accounts body) s k h =
      account-ByOthers (is_valid_account_request body) body s h
  serve-ByOthers (post_payments key body) s k h = absurd k
  serve-ByOthers (post_authorise i) s k h =
      transition-ByOthers _ s (authorise_payment-Leaves i default_max_attempts) h
  serve-ByOthers (post_settle i) s k h =
      transition-ByOthers _ s (settle_payment-Leaves i default_max_attempts) h
  serve-ByOthers (post_reverse i) s k h =
      transition-ByOthers _ s (reverse_payment-Leaves i default_max_attempts) h
  serve-ByOthers (post_fail i reason) s k h =
      transition-ByOthers _ s (fail_payment-Leaves i reason default_max_attempts) h
