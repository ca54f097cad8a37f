-- ===== src/Webhooks/Outbox.antt =====
-- app/domain/webhooks/services.py.
use instant_payment_ledger_a.Prelude.{
  ℕ, String, Bool, true, false, ◌||◌, some, List, [], ◌∷◌, str_eq, if◌then◌else◌,
}
use instant_payment_ledger_a.Entities.Payments.{PaymentResponse}
use instant_payment_ledger_a.Entities.Webhooks.{WebhookSubscription}
use instant_payment_ledger_a.Database.Session.{Action, pure, ◌>>=◌, ◌>>◌}
use instant_payment_ledger_a.Repositories.Webhooks.{list_active_subscriptions, enqueue_delivery}

abbrev pub mem_text : String → List String → Bool
mem_text s [] = false
mem_text s (t ∷ ts) = str_eq s t || mem_text s ts

-- A subscription with no event types takes every event.
abbrev pub takes_event : String → List String → Bool
takes_event event_type [] = true
takes_event event_type (t ∷ ts) = mem_text event_type (t ∷ ts)

unfoldable pub enqueue_all :
    ℕ → String → PaymentResponse → List WebhookSubscription → Action (Unit {0})
enqueue_all payment_id event_type payload [] = pure tt
enqueue_all payment_id event_type payload (s ∷ ss) =
    let rest = enqueue_all payment_id event_type payload ss in
    if takes_event event_type s.event_types
    then (enqueue_delivery s.id (some payment_id) event_type payload >> rest)
    else rest

unfoldable pub enqueue_payment_webhook_event : ℕ → String → PaymentResponse → Action (Unit {0})
unfolding enqueue_all
enqueue_payment_webhook_event payment_id event_type payload = do
  subscriptions ← list_active_subscriptions
  enqueue_all payment_id event_type payload subscriptions
