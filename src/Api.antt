-- ===== src/Api.antt =====
-- app/api/v1: the endpoints, as what they answer and leave in the database. Routing, the reading of
-- bodies and headers, and the text of a response are left to the framework.
pub mod Payments
pub mod Accounts
pub mod Iso20022
pub mod Qr
pub mod Webhooks
pub mod Reconciliation
pub mod Requests
pub mod Conservation
pub mod Answers
pub mod Ingestion
pub mod Atomicity
use Prim.Native.String.{count}
use instant_payment_ledger_a.Prelude.{ℕ, String, Bool, ◌&&◌, leb, Option, none, some}
use instant_payment_ledger_a.Entities.Errors.{Error, Result, ok, err}
use instant_payment_ledger_a.Database.Session.{Session, Action}

-- A body that the schema refuses never reaches the handler. `refused` is an `HTTPException` with its
-- status code, raised from an error; an error that the handler does not catch is a server error.
pub data Response (A : Type 0) : Type 0 where
  answered : ℕ → A → Response A
  invalid_body : Response A
  refused : ℕ → Error → Response A
  uncaught : Error → Response A

unfoldable pub status_code : {A : Type 0} → Response A → ℕ
status_code (answered code body) = code
status_code invalid_body = 422
status_code (refused code e) = code
status_code (uncaught e) = 500

-- `except ...` clauses: the status code for an error that they catch.
abbrev pub Handler : Type 0
Handler = Error → Option ℕ

abbrev pub by_handler : {A : Type 0} → Option ℕ → Error → Response A
by_handler (some code) e = refused code e
by_handler none e = uncaught e

abbrev pub response : {A : Type 0} → ℕ → Handler → Result A → Response A
response code handler (ok a) = answered code a
response code handler (err e) = by_handler (handler e) e

abbrev pub Endpoint : Type 0 → Type 0
Endpoint A = Session → Response A × Session

abbrev pub respond : {A : Type 0} → ℕ → Handler → Result A × Session → Response A × Session
respond code handler (r, s) = (response code handler r, s)

unfoldable pub endpoint : {A : Type 0} → ℕ → Handler → Action A → Endpoint A
endpoint code handler service s = respond code handler (service s)

-- `Field(min_length=..., max_length=...)`
abbrev pub length_between : ℕ → ℕ → String → Bool
length_between least most text = leb least (count text) && leb (count text) most
