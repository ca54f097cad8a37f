-- ===== src/Tests/Others.antt =====
-- The theorems on reconciliation, webhooks and conversion.
use instant_payment_ledger_a.Prelude.{
  ℕ, ◌*◌, ◌≤◌, String, false, ◌≡◌, ◌↔◌, refl, inl, pos, some, [], ◌∷◌,
}
use instant_payment_ledger_a.Entities.Errors.{ok}
use instant_payment_ledger_a.Entities.Payments.{PaymentStatus, payment_response_dict}
use instant_payment_ledger_a.Entities.Webhooks.{WebhookDelivery}
use instant_payment_ledger_a.Entities.Reconciliation.{SettlementRecord, LedgerSettledPayment}
use instant_payment_ledger_a.Database.Tables.{Db}
use instant_payment_ledger_a.Database.Session.{alone}
use instant_payment_ledger_a.Repositories.Webhooks.{
  new_delivery, find_delivery, active_only, due_by_time,
}
use instant_payment_ledger_a.Fx.{convert_amount}
use instant_payment_ledger_a.Fx.Rounding.{IsNearest, convert_amount-IsNearest}
use instant_payment_ledger_a.Reconciliation.Matcher.{
  ledger_by_ref, settlement_by_ref, all_refs, match_payments,
}
use instant_payment_ledger_a.Reconciliation.Matcher.Agreement.{
  IsAgreed, match_payments_iff, match_payments-duplicate,
}
use instant_payment_ledger_a.Reconciliation.Matcher.Assertion.{IsKnown, all_refs-IsKnown}
use instant_payment_ledger_a.Webhooks.Dispatch.{
  Outside, raised, dispatch_one_delivery, dispatch_due_deliveries, subscription_by_id,
  backoff_seconds,
}
use instant_payment_ledger_a.Webhooks.Dispatch.Verdict.{
  Judged, verdict, backoff_seconds-bounds, dispatch_one_delivery-alone,
  dispatch_due_deliveries_orphans,
}
use instant_payment_ledger_a.Database.Run.{quiet}
use instant_payment_ledger_a.Webhooks.Outbox.{enqueue_payment_webhook_event}
use instant_payment_ledger_a.Payments.Alone.Deliveries.{
  Queued, enqueue_payment_webhook_event-Queued,
}
use instant_payment_ledger_a.Tests.Data.{payment_of, start, everything}

abbrev settled : ℕ → LedgerSettledPayment
settled i = record { payment_id = i; external_ref = "E2E"; amount = pos 700; currency = "USD" }

abbrev in_file : SettlementRecord
in_file = record {
  external_ref = "E2E";
  amount = pos 700;
  currency = "USD";
  settled_at = 3;
  raw_line = "E2E,7.00,USD";
}

match_payments_iff_example : ((match_payments (settled 1 ∷ []) (in_file ∷ [])).breaks ≡ []) ↔ (
    (ref : String)
    → IsAgreed (ledger_by_ref ref (settled 1 ∷ [])) (settlement_by_ref ref (in_file ∷ [])))
match_payments_iff_example = match_payments_iff (settled 1 ∷ []) (in_file ∷ [])

all_refs-IsKnown_example :
    IsKnown (ledger_by_ref "E2E" (settled 1 ∷ [])) (settlement_by_ref "E2E" (in_file ∷ []))
unfolding all_refs
all_refs-IsKnown_example = all_refs-IsKnown (settled 1 ∷ []) (in_file ∷ []) "E2E" (inl refl)

match_payments-duplicate_example :
    ((match_payments (settled 1 ∷ settled 2 ∷ []) (in_file ∷ [])).breaks ≡ [])
    ↔ ((match_payments (settled 2 ∷ []) (in_file ∷ [])).breaks ≡ [])
unfolding ledger_by_ref
match_payments-duplicate_example =
    match_payments-duplicate (settled 1) (settled 2 ∷ []) (in_file ∷ []) {later = settled 2} refl

convert_amount-IsNearest_example :
    (cents : ℕ) × (convert_amount (pos 1250) (pos 40_000_000) ≡ pos cents)
    × IsNearest (1250 * 40_000_000) cents
convert_amount-IsNearest_example = convert_amount-IsNearest 1250 40_000_000

backoff_seconds-bounds_example :
    (2 ≤ backoff_seconds 3) × (backoff_seconds 3 ≤ 900) × (backoff_seconds 3 ≤ backoff_seconds 4)
backoff_seconds-bounds_example = backoff_seconds-bounds 3

-- A receiver that never answers.
abbrev unreachable : Outside
unreachable = record {
  send = λ call url headers body. raised "ConnectTimeout: ";
  clock = λ call. 50;
  json_dumps = λ payload. "{}";
  hmac_sha256 = λ secret body. "signature";
  http_text = λ code. "HTTP";
}

abbrev delivery : WebhookDelivery
delivery =
    new_delivery 90 80 (some 103) "payment.initiated"
      (payment_response_dict (payment_of 103 2 (pos 40) PaymentStatus.initiated)) 12

abbrev waiting : Db
waiting = record start { webhook_deliveries = delivery ∷ [] }

abbrev deactivated : Db
deactivated = record waiting { webhook_subscriptions = record everything { active = false } ∷ [] }

dispatch_one_delivery-alone_example :
    (db' : Db) × (dispatch_one_delivery unreachable 0 delivery everything 8 (alone waiting)
      ≡ (ok tt, alone db'))
    × (find_delivery 90 db'.webhook_deliveries
        ≡ some (verdict 8 50 (some "ConnectTimeout: ") delivery))
unfolding find_delivery
dispatch_one_delivery-alone_example =
    dispatch_one_delivery-alone unreachable 0 delivery everything 8 waiting refl
      (Judged.is_raised "ConnectTimeout: ")

dispatch_due_deliveries_orphans_example :
    dispatch_due_deliveries unreachable 12 50 8 (alone deactivated) ≡ (ok 1, alone deactivated)
unfolding active_only due_by_time subscription_by_id
dispatch_due_deliveries_orphans_example =
    dispatch_due_deliveries_orphans unreachable 12 50 8 deactivated (refl, tt)

enqueue_payment_webhook_event-Queued_example :
    (v' : Db) × (enqueue_payment_webhook_event 103 "payment.initiated" delivery.payload
        (quiet waiting start)
      ≡ (ok tt, quiet v' start))
    × Queued 103 "payment.initiated" delivery.payload 12
        (everything ∷ [])
        (delivery ∷ [])
        v'.webhook_deliveries
    × (v'.payments ≡ start.payments)
    × (v'.journal_lines ≡ [])
    × (v'.accounts ≡ start.accounts)
enqueue_payment_webhook_event-Queued_example =
    enqueue_payment_webhook_event-Queued 103 "payment.initiated" delivery.payload waiting start

abbrev show_id : ℕ → String
show_id i = "id"
