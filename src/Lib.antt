-- ===== src/Lib.antt =====
-- The instant payment ledger: accounts, a double-entry journal, payments with a lifecycle, exchange
-- between currencies, webhooks, reconciliation, payment QR codes and ISO 20022 messages. The code is
-- the Python package app; this library is a model of its domain layer, of its database repositories,
-- of its message formats and of its HTTP endpoints, with proofs.
--
-- How the parts interact. The services of app/domain open a unit of work, read and write rows through
-- the repositories of app/infra/db, and commit. post_journal_entry and the transitions that move money
-- validate an entry, write its lines and move the version of each account that it touches; if a version
-- has moved meanwhile, they roll back and try again. A transition of a payment writes its history and
-- queues a delivery for each subscription in the same transaction. The dispatcher sends due deliveries;
-- the reconciliation compares the settled payments with a settlement file. The endpoints of app/api/v1
-- call the services and repositories and turn their errors into status codes; an error that an endpoint
-- does not catch is a server error.
--
-- Where each part is.
--   Prelude         names of the libraries passed on, Boolean tests, integers over native numbers.
--   Entities        the data of app/domain: ledger, payments, webhooks, reconciliation, errors.
--   Database        the tables of app/infra/db/models.py as a record of lists, the values that its
--                   columns take (Columns), the unit of work of app/infra/db/unit_of_work.py as a
--                   session, and the rules by which properties of an action follow from those of its
--                   parts.
--   Repositories    app/infra/db/repositories, one file for each, one definition for each method.
--   Concurrency     the attempt loop of the services and app/domain/concurrency.py.
--   Fx              convert_amount of app/domain/fx/conversion.py.
--   Ledger          app/domain/ledger: validate_journal_entry and post_journal_entry.
--   Payments        app/domain/payments: the table of transitions; the services in
--                   Payments/Services (Initiate, Lines, Transition); Conservation, Atomicity, Raises,
--                   Guarantees and Races for sessions with others at work, Alone for sessions without.
--   Webhooks        app/domain/webhooks: the outbox, the dispatcher and the retry policy.
--   Reconciliation  app/domain/reconciliation: the matcher and the run; app/infra/reconciliation: the
--                   loader of settlement files.
--   Qr              app/infra/qr/sgqr.py: fields of tag, length and value, the checksum, build_sgqr and
--                   parse_tlv, over lists of code points.
--   Iso20022        app/infra/iso20022: the reading of pain.001 and the document of pacs.008.
--   Api             app/api/v1, app/api/schemas and app/workers/reconciliation_job.py: each endpoint as
--                   its answer and the session it leaves; Requests has the ones that write, and the
--                   states that they lead to.
--   Tests           the theorems at concrete inputs.
--
-- How the state is modelled. A call is a function from a session to a result or an error and a session.
-- A session has the rows that its transaction sees, the rows that are committed, and a schedule of what
-- other clients commit, one change before each statement (READ COMMITTED). Row locks are not built in,
-- so a theorem with others at work also covers interleavings that the database would not allow.
-- Uniqueness of account numbers and of idempotency keys, the foreign keys of payments and the check on
-- their amount are part of the inserts. An exception is a value of Error.
--
-- Numbers. An amount is an integer number of cents and a rate an integer in units of 10^-8, as the
-- columns store them; amounts with parts of a cent and the 28 digits of the decimal context are not
-- modelled. Identifiers are natural numbers, drawn from a stream that the database record holds. The
-- attempt loop recurs on the number of attempts, which is the code's own bound. The loop of parse_tlv has
-- none: it runs for at most a given number of rounds, and none is the outcome of a loop that has not
-- ended by then. A round more than the payload has characters is enough without a minus sign; with one
-- it may not end.
--
-- Parameters. json.dumps, SHA-256, HMAC, str of an identifier and of a decimal, str.strip and str.upper,
-- the clock and the HTTP sender are arguments of the definitions that use them. So are the packages lxml
-- (Iso20022.Pain001.Xml, Iso20022.Pacs008.Printer) and csv (Reconciliation.CsvLoader.Csv), Decimal on
-- text, and Python's digits and spaces beyond ASCII (Qr.Python.Unicode). Routing, the reading of bodies
-- and headers, and the text of an answer belong to the web framework.
--
-- The limits of the columns are modelled for what creates and changes payments: Numeric(18, 2),
-- String(n) and text without the character of code 0. A statement with another value raises an error of
-- its own, data_error, which no handler catches.
--
-- Not modelled: numbers that a pain.001 message or a settlement file gives in parts of a cent, as NaN
-- or as an infinity; the limits of the other columns; the picture of a QR code, the health check and the
-- assembly of the application, the engine, settings, the scheduler and the command line of the worker,
-- migrations and scripts. Columns with time stamps of creation and change, and the random pauses between
-- attempts, are left out.
pub mod Prelude
pub mod Entities
pub mod Database
pub mod Repositories
pub mod Concurrency
pub mod Fx
pub mod Ledger
pub mod Webhooks
pub mod Payments
pub mod Qr
pub mod Iso20022
pub mod Api
pub mod Reconciliation
pub mod Tests
