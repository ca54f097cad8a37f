-- ===== src/Tests/Data.antt =====
-- A small ledger: two accounts in US dollars, one in euros, the suspense account, and one rate.
use instant_payment_ledger_a.Prelude.{ℕ, ◌+◌, String, ℤ, pos, true, none, some, [], ◌∷◌}
use instant_payment_ledger_a.Entities.Ledger.{Account, FxRate, JournalEntry}
use instant_payment_ledger_a.Entities.Payments.{PaymentStatus, Payment}
use instant_payment_ledger_a.Entities.Webhooks.{WebhookSubscription}
use instant_payment_ledger_a.Database.Tables.{Db}
use instant_payment_ledger_a.Payments.Services.Initiate.{Digest, PaymentRequest}
use instant_payment_ledger_a.Payments.Services.Lines.{transfer_lines}

abbrev pub account : ℕ → String → String → Account
account i number currency = record {
  id = i;
  account_number = number;
  owner_name = "owner";
  account_type = "customer";
  currency = currency;
  status = "active";
  version = 0;
}

abbrev pub payment_of : ℕ → ℕ → ℤ → PaymentStatus → Payment
payment_of i creditor amount status = record {
  id = i;
  debtor_account_id = 1;
  creditor_account_id = creditor;
  amount = amount;
  currency = "USD";
  status = status;
  version = 1;
  end_to_end_id = none;
  fx_rate_id = none;
  creditor_amount = none;
}

abbrev pub rate : FxRate
rate = record {
  id = 70;
  base_currency = "USD";
  quote_currency = "EUR";
  rate = pos 40_000_000;
  booked_at = 5;
  source = "test";
}

abbrev pub everything : WebhookSubscription
everything = record { id = 80; url = "https://hook"; secret = "s"; event_types = []; active = true }

-- Payment 100 is in one currency, 101 in two, 102 is worth less than half a cent, 103 is new.
abbrev pub start : Db
start = record {
  accounts =
      account 1 "A-1" "USD"
      ∷ account 2 "B-2" "USD"
      ∷ account 3 "C-3" "EUR"
      ∷ account 9 "FX-SUSPENSE" "EUR"
      ∷ [];
  journal_entries = [];
  journal_lines = [];
  payments =
      payment_of 100 2 (pos 2500) PaymentStatus.authorised
      ∷ payment_of 101 3 (pos 1000) PaymentStatus.authorised
      ∷ payment_of 102 3 (pos 1) PaymentStatus.authorised
      ∷ payment_of 103 2 (pos 40) PaymentStatus.initiated
      ∷ [];
  payment_status_history = [];
  idempotency_keys = [];
  webhook_subscriptions = everything ∷ [];
  webhook_deliveries = [];
  settlement_file_records = [];
  reconciliation_runs = [];
  reconciliation_breaks = [];
  fx_rates = rate ∷ [];
  uuid4 = λ n. n + 1000;
  draws = 0;
  now = 12;
}

abbrev pub transfer : JournalEntry
transfer = record {
  entry_type = "transfer";
  lines = transfer_lines 1 2 (pos 300) "USD";
  payment_id = none;
  idempotency_key_id = none;
}

abbrev pub no_lines : JournalEntry
no_lines = record {
  entry_type = "transfer";
  lines = [];
  payment_id = none;
  idempotency_key_id = none;
}

abbrev pub request : ℕ → String → PaymentRequest
request creditor reference = record {
  debtor_account_id = 1;
  creditor_account_id = creditor;
  amount = pos 500;
  currency = "USD";
  end_to_end_id = some reference;
}

abbrev pub bad_request : PaymentRequest
bad_request = record {
  debtor_account_id = 1;
  creditor_account_id = 1;
  amount = pos 500;
  currency = "USD";
  end_to_end_id = none;
}

abbrev pub reference_of : PaymentRequest → String
reference_of r = elim r.end_to_end_id [ none ↦ "" | some e ↦ e ]

abbrev pub digest : Digest
digest = record { json_dumps = reference_of; sha256 = λ s. s }
