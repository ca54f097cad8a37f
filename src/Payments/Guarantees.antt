-- ===== src/Payments/Guarantees.antt =====
-- The services of app/domain/ledger and app/domain/payments in any session, with others at work.
use instant_payment_ledger_a.Prelude.{ℕ, String, ◌≡◌, Option}
use instant_payment_ledger_a.Entities.Ledger.{JournalEntry}
use instant_payment_ledger_a.Entities.Errors.{Error, err}
use instant_payment_ledger_a.Database.Session.{Session, Action}
use instant_payment_ledger_a.Database.Keeps.{Holds}
use instant_payment_ledger_a.Database.Leaves.{ByOthers, Leaves, IsErr}
use instant_payment_ledger_a.Ledger.Conservation.{IsConserved, post_journal_entry-IsConserved}
use instant_payment_ledger_a.Ledger.Services.{post_journal_entry}
use instant_payment_ledger_a.Ledger.Atomicity.{post_journal_entry-Leaves}
use instant_payment_ledger_a.Payments.Services.Initiate.{
  Digest, PaymentRequest, initiate_payment, initiate_payment_idempotent,
}
use instant_payment_ledger_a.Payments.Services.Transition.{
  authorise_payment, fail_payment, settle_payment, reverse_payment,
}
use instant_payment_ledger_a.Payments.Conservation.{
  initiate_payment_idempotent-IsConserved, settle_payment-IsConserved, reverse_payment-IsConserved,
}
use instant_payment_ledger_a.Payments.Atomicity.{
  initiate_payment-Leaves, authorise_payment-Leaves, fail_payment-Leaves, settle_payment-Leaves,
  reverse_payment-Leaves,
}

-- A call that raised, read off a rule for calls that commit nothing when they raise.
nothing_left :
    {A : Type 0} (m : Action A) (s : Session) (x : Error)
    → Leaves IsErr m
    → (m s).0 ≡ err x
    → ByOthers s (m s).1
nothing_left m s x l e = l.at s (rw e tt)

-- If every currency's journal lines sum to zero, over all accounts, in what the session sees and in
-- what is committed, and the commits of others keep this, then it is so after posting an entry.
pub post_journal_entry-Holds :
    (entry : JournalEntry) (max_attempts : ℕ) (s : Session)
    → Holds IsConserved s
    → Holds IsConserved (post_journal_entry entry max_attempts s).1
post_journal_entry-Holds entry max_attempts s h =
    (post_journal_entry-IsConserved entry max_attempts).at s h

-- If every currency's journal lines sum to zero, over all accounts, in what the session sees and in
-- what is committed, and the commits of others keep this, then it is so after a settlement, in one
-- currency or two, whether it succeeds or raises.
pub settle_payment-Holds :
    (payment_id max_attempts : ℕ) (s : Session)
    → Holds IsConserved s
    → Holds IsConserved (settle_payment payment_id max_attempts s).1
settle_payment-Holds payment_id max_attempts s h =
    (settle_payment-IsConserved payment_id max_attempts).at s h

-- If every currency's journal lines sum to zero, over all accounts, in what the session sees and in
-- what is committed, and the commits of others keep this, then it is so after a reversal, whether it
-- succeeds or raises.
pub reverse_payment-Holds :
    (payment_id max_attempts : ℕ) (s : Session)
    → Holds IsConserved s
    → Holds IsConserved (reverse_payment payment_id max_attempts s).1
reverse_payment-Holds payment_id max_attempts s h =
    (reverse_payment-IsConserved payment_id max_attempts).at s h

-- If every currency's journal lines sum to zero, over all accounts, in what the session sees and in
-- what is committed, and the commits of others keep this, then it is so after a request under an
-- idempotency key, however it is answered.
pub initiate_payment_idempotent-Holds :
    (digest : Digest) (idempotency_key : String) (r : PaymentRequest) (s : Session)
    → Holds IsConserved s
    → Holds IsConserved (initiate_payment_idempotent digest idempotency_key r s).1
initiate_payment_idempotent-Holds digest idempotency_key r s h =
    (initiate_payment_idempotent-IsConserved digest idempotency_key r).at s h

-- If posting an entry raises, be it refused or beaten in every attempt, the committed rows are those of
-- before with the commits of others that came in between.
pub post_journal_entry-ByOthers :
    (entry : JournalEntry) (max_attempts : ℕ) (s : Session) (x : Error)
    → (post_journal_entry entry max_attempts s).0 ≡ err x
    → ByOthers s (post_journal_entry entry max_attempts s).1
post_journal_entry-ByOthers entry max_attempts s x e =
    nothing_left (post_journal_entry entry max_attempts) s x
      (post_journal_entry-Leaves entry max_attempts) e

-- If the plain creation of a payment raises, the committed rows are those of before with the commits
-- of others that came in between.
pub initiate_payment-ByOthers :
    (r : PaymentRequest) (s : Session) (x : Error)
    → (initiate_payment r s).0 ≡ err x
    → ByOthers s (initiate_payment r s).1
initiate_payment-ByOthers r s x e =
    nothing_left (initiate_payment r) s x (initiate_payment-Leaves r) e

-- If an authorisation raises, the committed rows are those of before with the commits of others that
-- came in between.
pub authorise_payment-ByOthers :
    (payment_id max_attempts : ℕ) (s : Session) (x : Error)
    → (authorise_payment payment_id max_attempts s).0 ≡ err x
    → ByOthers s (authorise_payment payment_id max_attempts s).1
authorise_payment-ByOthers payment_id max_attempts s x e =
    nothing_left (authorise_payment payment_id max_attempts) s x
      (authorise_payment-Leaves payment_id max_attempts) e

-- If marking a payment as failed raises, the committed rows are those of before with the commits of
-- others that came in between.
pub fail_payment-ByOthers :
    (payment_id : ℕ) (reason : Option String) (max_attempts : ℕ) (s : Session) (x : Error)
    → (fail_payment payment_id reason max_attempts s).0 ≡ err x
    → ByOthers s (fail_payment payment_id reason max_attempts s).1
fail_payment-ByOthers payment_id reason max_attempts s x e =
    nothing_left (fail_payment payment_id reason max_attempts) s x
      (fail_payment-Leaves payment_id reason max_attempts) e

-- If a settlement raises, the committed rows are those of before with the commits of others that came
-- in between: no entry, no status change, no booked rate and no delivery of its own is left.
pub settle_payment-ByOthers :
    (payment_id max_attempts : ℕ) (s : Session) (x : Error)
    → (settle_payment payment_id max_attempts s).0 ≡ err x
    → ByOthers s (settle_payment payment_id max_attempts s).1
settle_payment-ByOthers payment_id max_attempts s x e =
    nothing_left (settle_payment payment_id max_attempts) s x
      (settle_payment-Leaves payment_id max_attempts) e

-- If a reversal raises, the committed rows are those of before with the commits of others that came in
-- between.
pub reverse_payment-ByOthers :
    (payment_id max_attempts : ℕ) (s : Session) (x : Error)
    → (reverse_payment payment_id max_attempts s).0 ≡ err x
    → ByOthers s (reverse_payment payment_id max_attempts s).1
reverse_payment-ByOthers payment_id max_attempts s x e =
    nothing_left (reverse_payment payment_id max_attempts) s x
      (reverse_payment-Leaves payment_id max_attempts) e
