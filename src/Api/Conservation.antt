-- ===== src/Api/Conservation.antt =====
-- app/api/v1: the sum of all journal lines in each currency, over every request that writes.
use instant_payment_ledger_a.Prelude.{ℕ, String, refl, Bool, true, false, if◌then◌else◌, arith}
use instant_payment_ledger_a.Database.Tables.{Db}
use instant_payment_ledger_a.Database.Session.{Session, Action}
use instant_payment_ledger_a.Database.Keeps.{
  Holds, Keeps, Keeps-rollback, Keeps-transaction, Keeps-bind, Keeps-pure, keeps_rules,
}
use instant_payment_ledger_a.Repositories.Ledger.{
  insert_account, create_account as insert_account_row,
}
use instant_payment_ledger_a.Ledger.Conservation.{IsConserved, Keeps-lines, total}
use instant_payment_ledger_a.Payments.Services.Initiate.{Digest}
use instant_payment_ledger_a.Payments.Conservation.{
  initiate_payment_idempotent-IsConserved, settle_payment-IsConserved, reverse_payment-IsConserved,
  authorise_payment-IsConserved, fail_payment-IsConserved,
}
use instant_payment_ledger_a.Api.{Response, Handler, endpoint, invalid_body}
use instant_payment_ledger_a.Api.Payments.{
  is_valid_request, create_payment, create_payment_status, run_transition, run_transition_status,
  authorise, settle, reverse, fail,
}
use instant_payment_ledger_a.Api.Accounts.{
  CreateAccountRequest, is_valid_account_request, is_integrity_error, rolled_back_if,
  undo_integrity_error, add_account, create_account_status, create_account,
}
use instant_payment_ledger_a.Api.Requests.{
  Request, post_accounts, post_payments, post_authorise, post_settle, post_reverse, post_fail,
  with_others, serve, Reachable, empty_journal, served,
}

-- The state that an endpoint leaves is its service's.
endpoint-Holds :
    {A : Type 0} (code : ℕ) (handler : Handler) (m : Action A) (s : Session)
    → Keeps IsConserved m
    → Holds IsConserved s
    → Holds IsConserved (endpoint code handler m s).1
unfolding endpoint
endpoint-Holds code handler m s k h = k.at s h

if_Holds :
    {A : Type 0} (valid : Bool) (answer : Response A × Session) (s : Session)
    → Holds IsConserved (answer.1)
    → Holds IsConserved s
    → Holds IsConserved (if valid then answer else (invalid_body, s)).1
if_Holds true answer s h h' = h
if_Holds false answer s h h' = h'

rolled_back_if-Holds :
    (b : Bool) (s : Session) → Holds IsConserved s → Holds IsConserved (rolled_back_if b s)
rolled_back_if-Holds true s h = Keeps-rollback.at s h
rolled_back_if-Holds false s h = h

undo-IsConserved :
    {A : Type 0} (m : Action A) → Keeps IsConserved m → Keeps IsConserved (undo_integrity_error m)
undo-IsConserved m k = record {
  at = λ s h. rolled_back_if-Holds (is_integrity_error (m s).0) (m s).1 (k.at s h);
}

insert_account-IsConserved : (n o t c : String) → Keeps IsConserved (insert_account_row n o t c)
unfolding insert_account_row insert_account
insert_account-IsConserved n o t c = Keeps-lines _ λ db. ground arith

add_account-IsConserved :
    (upper : String → String) (body : CreateAccountRequest)
    → Keeps IsConserved (add_account upper body)
unfolding add_account
add_account-IsConserved upper body = search (keeps_rules, insert_account-IsConserved)

module _ (upper : String → String) (digest : Digest) where
  serve-Holds :
      (q : Request) (s : Session) → Holds IsConserved s → Holds IsConserved (serve upper digest q s)
  unfolding serve authorise settle reverse fail run_transition create_payment create_account
  serve-Holds (post_accounts body) s h =
      if_Holds (is_valid_account_request body) _ s
        (endpoint-Holds 201 create_account_status _ s
          (Keeps-transaction _ (undo-IsConserved _ (add_account-IsConserved upper body))) h)
        h
  serve-Holds (post_payments key body) s h =
      if_Holds (is_valid_request body) _ s
        (endpoint-Holds 201 create_payment_status _ s
          (Keeps-bind _ _ (initiate_payment_idempotent-IsConserved _ key _) λ x. Keeps-pure _) h)
        h
  serve-Holds (post_authorise i) s h =
      endpoint-Holds 200 run_transition_status _ s
        (Keeps-bind _ _ (authorise_payment-IsConserved i _) λ p. Keeps-pure _) h
  serve-Holds (post_settle i) s h =
      endpoint-Holds 200 run_transition_status _ s
        (Keeps-bind _ _ (settle_payment-IsConserved i _) λ p. Keeps-pure _) h
  serve-Holds (post_reverse i) s h =
      endpoint-Holds 200 run_transition_status _ s
        (Keeps-bind _ _ (reverse_payment-IsConserved i _) λ p. Keeps-pure _) h
  serve-Holds (post_fail i reason) s h =
      endpoint-Holds 200 run_transition_status _ s
        (Keeps-bind _ _ (fail_payment-IsConserved i reason _) λ p. Keeps-pure _) h

  -- In every state that is reached from an empty journal by requests that create accounts and
  -- payments, authorise, settle, reverse and fail, whatever they are answered, in between commits
  -- of others that keep this, every currency's journal lines sum to zero over all accounts.
  pub Reachable-IsConserved : {db : Db} → Reachable upper digest db → IsConserved db
  unfolding total
  Reachable-IsConserved (empty_journal db e) c = rw e refl
  Reachable-IsConserved (served {db} r q others kept) c =
      (serve-Holds q (with_others db others) (record {
        seen = Reachable-IsConserved r;
        stored = Reachable-IsConserved r;
        kept = kept;
      })).stored
        c
