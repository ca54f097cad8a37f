-- ===== src/Api/Answers.antt =====
-- app/api/v1/payments.py: which errors end as server errors.
use instant_payment_ledger_a.Prelude.{
  ℕ, String, ◌≡◌, refl, Bool, true, false, if◌then◌else◌, Option, some, none,
}
use instant_payment_ledger_a.Entities.Payments.{PaymentStatus, Payment}
use instant_payment_ledger_a.Entities.Errors.{
  Error, Result, ok, err, assertion_error, account_not_found, account_number_not_found,
  invalid_line_amount, data_error,
}
use instant_payment_ledger_a.Database.Columns.{fits_text, optional}
use instant_payment_ledger_a.Database.Session.{Session, Action}
use instant_payment_ledger_a.Database.Raises.{Covers, Raises, Raises-bind, Raises-pure}
use instant_payment_ledger_a.Payments.Raises.{transition_status_only-Raises}
use instant_payment_ledger_a.Payments.Services.Transition.{
  transition_status_only, authorise_payment, fail_payment,
}
use instant_payment_ledger_a.Concurrency.{default_max_attempts}
use instant_payment_ledger_a.Api.{
  Response, answered, invalid_body, refused, uncaught, by_handler, response, Handler, endpoint,
}
use instant_payment_ledger_a.Api.Payments.{run_transition, run_transition_status, authorise, fail}

-- If the answer is a server error, its cause is of the set `T`.
abbrev pub ServerErrorIs : {A : Type 0} → (Error → Type 0) → Response A → Type 0
ServerErrorIs T (answered code body) = Unit
ServerErrorIs T invalid_body = Unit
ServerErrorIs T (refused code e) = Unit
ServerErrorIs T (uncaught e) = T e

-- What is enough for a service: an error that the handler does not catch is of the set.
abbrev pub Uncaught : Handler → (Error → Type 0) → Error → Type 0
Uncaught handler T e = handler e ≡ none → T e

handled :
    (A : Type 0) (code : Option ℕ) (e : Error) (T : Error → Type 0)
    → (code ≡ none → T e)
    → ServerErrorIs {A = A} T (by_handler code e)
handled A (some code) e T h = tt
handled A none e T h = h refl

pub result-ServerErrorIs :
    {A : Type 0} (code : ℕ) (handler : Handler) (r : Result A) (T : Error → Type 0)
    → Covers (Uncaught handler T) r
    → ServerErrorIs T (response code handler r)
result-ServerErrorIs code handler (ok a) T h = tt
result-ServerErrorIs code handler (err e) T h = handled _ (handler e) e T h

pub endpoint-ServerErrorIs :
    {A : Type 0} (code : ℕ) (handler : Handler) (m : Action A) (T : Error → Type 0) (s : Session)
    → Raises (Uncaught handler T) m
    → ServerErrorIs T (endpoint code handler m s).0
unfolding endpoint
endpoint-ServerErrorIs code handler m T s h =
    result-ServerErrorIs code handler (m s).0 T (h.at s).covered

pub if_ServerErrorIs :
    {A : Type 0} (valid : Bool) (T : Error → Type 0) (answer : Response A × Session) (s : Session)
    → ServerErrorIs T answer.0
    → ServerErrorIs T (if valid then answer else (invalid_body, s)).0
if_ServerErrorIs true T answer s h = h
if_ServerErrorIs false T answer s h = tt

-- A completed key without a response, or a value that a column does not take.
abbrev pub IsCreationError : Error → Type 0
IsCreationError assertion_error = Unit
IsCreationError data_error = Unit
IsCreationError e = ⊥

module _ (payment_id : ℕ) (s : Session) where
  run_transition-ServerErrorIs :
      (T : Error → Type 0) (m : Action Payment)
      → Raises (Uncaught run_transition_status T) m
      → ServerErrorIs T (run_transition m s).0
  unfolding run_transition
  run_transition-ServerErrorIs T m h =
      endpoint-ServerErrorIs 200 run_transition_status _ T s (Raises-bind m _ h λ p. Raises-pure _)

  status_only :
      (T : Error → Type 0) (to : PaymentStatus) (reason : Option String)
      → (optional fits_text reason ≡ false → T data_error)
      → ServerErrorIs T
          (run_transition (transition_status_only payment_id to reason default_max_attempts) s).0
  unfolding run_transition_status
  status_only T to reason unfit = run_transition-ServerErrorIs T _ (
      transition_status_only-Raises (λ i h. cc) (λ from to h. cc) (λ i n h. cc) reason
        (λ h k. unfit h) payment_id to default_max_attempts)

-- Whatever others commit meanwhile, authorising a payment never ends in a server error, and marking it
-- as failed only where the reason has the character of code 0, which the column does not take.
pub status_endpoints-ServerErrorIs :
    (payment_id : ℕ) (reason : Option String) (s : Session)
    → ServerErrorIs (λ e. ⊥) (authorise payment_id s).0
      × ServerErrorIs
          (λ e. (e ≡ data_error) × (optional fits_text reason ≡ false))
          (fail payment_id reason s).0
unfolding authorise fail authorise_payment fail_payment
status_endpoints-ServerErrorIs payment_id reason s = (
  status_only payment_id s (λ e. ⊥) PaymentStatus.authorised none (λ h. cc),
  status_only payment_id s _ PaymentStatus.failed reason (λ h. (refl, h)),
)

-- A row that a foreign key or a migration puts there is missing, an amount of a line is not positive, or
-- a column does not take a value.
abbrev pub IsMoneyError : Error → Type 0
IsMoneyError (account_not_found i) = Unit
IsMoneyError (account_number_not_found n) = Unit
IsMoneyError (invalid_line_amount l) = Unit
IsMoneyError data_error = Unit
IsMoneyError e = ⊥
