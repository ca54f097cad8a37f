-- ===== src/Webhooks/Dispatch.antt =====
-- app/domain/webhooks/dispatch.py and app/domain/webhooks/retry_policy.py.
pub mod Verdict
use instant_payment_ledger_a.Prelude.{
  ℕ, suc, ◌+◌, ◌*◌, ◌^◌, ◌-◌, String, Bool, ◌&&◌, Option, none, some, List, [], ◌∷◌, ◌==◌, leb, ltb,
  length, if◌then◌else◌,
}
use instant_payment_ledger_a.Entities.Payments.{PaymentResponse}
use instant_payment_ledger_a.Entities.Webhooks.{WebhookSubscription, WebhookDelivery}
use instant_payment_ledger_a.Database.Session.{Action, pure, commit, transaction, ◌>>=◌, ◌>>◌}
use instant_payment_ledger_a.Repositories.Webhooks.{
  list_active_subscriptions, list_due_deliveries, mark_delivered, mark_retry, mark_dead_letter,
}

abbrev pub max_seconds : ℕ
max_seconds = 900

-- `min(max_seconds, base_seconds * (2**attempt))`, in whole seconds: both constants are whole.
unfoldable pub backoff_seconds : ℕ → ℕ
backoff_seconds attempt = if leb max_seconds (2 * 2 ^ attempt) then max_seconds else 2 * 2 ^ attempt

-- What `sender.send` does: it returns a status code, or raises; then the text is
-- f"{type(exc).__name__}: {exc}".
pub data Sent : Type 0 where
  returned : ℕ → Sent
  raised : String → Sent

-- What the dispatcher calls outside of this program. Calls of `send` and of the clock are numbered.
pub record Outside : Type 0 where
  pub send : ℕ → String → List (String × String) → String → Sent
  pub clock : ℕ → ℕ
  pub json_dumps : PaymentResponse → String
  pub hmac_sha256 : String → String → String
  -- f"HTTP {status_code}"
  pub http_text : ℕ → String

abbrev pub headers : Outside → WebhookDelivery → WebhookSubscription → List (String × String)
headers outside delivery subscription =
    ("Content-Type", "application/json")
    ∷ ("X-Webhook-Event", delivery.event_type)
    ∷ (
      "X-Webhook-Signature",
      outside.hmac_sha256 subscription.secret (outside.json_dumps delivery.payload),
    )
    ∷ []

-- The error of an attempt, or none where it succeeded.
abbrev pub error_of : Outside → Sent → Option String
error_of outside (returned code) =
    if leb 200 code && ltb code 300 then none else some (outside.http_text code)
error_of outside (raised text) = some text

abbrev pub conclude : WebhookDelivery → ℕ → ℕ → Option String → Action (Unit {0})
conclude delivery max_attempts now none = mark_delivered delivery.id
conclude delivery max_attempts now (some error) =
    if leb max_attempts (delivery.attempt_count + 1)
    then mark_dead_letter delivery.id (delivery.attempt_count + 1) error
    else mark_retry delivery.id (delivery.attempt_count + 1)
        (now + backoff_seconds (delivery.attempt_count + 1 - 1)) error

abbrev pub attempt_of : Outside → ℕ → WebhookDelivery → WebhookSubscription → Option String
attempt_of outside call delivery subscription = error_of outside (
    outside.send call subscription.url (headers outside delivery subscription)
      (outside.json_dumps delivery.payload))

unfoldable pub dispatch_one_delivery :
    Outside → ℕ → WebhookDelivery → WebhookSubscription → ℕ → Action (Unit {0})
unfolding backoff_seconds
dispatch_one_delivery outside call delivery subscription max_attempts = transaction do
  conclude delivery max_attempts (outside.clock call)
      (attempt_of outside call delivery subscription)
  commit

-- `subscriptions_by_id.get(...)`
unfoldable pub subscription_by_id : ℕ → List WebhookSubscription → Option WebhookSubscription
subscription_by_id i [] = none
subscription_by_id i (s ∷ ss) = elim (subscription_by_id i ss) [
  | some later ↦ some later
  | none ↦ if s.id == i then some s else none
]

-- The loop: a delivery whose subscription is not among the active ones is passed over.
unfoldable pub dispatch_each :
    Outside → ℕ → List WebhookDelivery → List WebhookSubscription → ℕ → Action (Unit {0})
unfolding dispatch_one_delivery subscription_by_id
dispatch_each outside call [] subscriptions max_attempts = pure tt
dispatch_each outside call (d ∷ ds) subscriptions max_attempts =
    elim (subscription_by_id d.subscription_id subscriptions) [
      | none ↦ dispatch_each outside call ds subscriptions max_attempts
      | some s ↦
          dispatch_one_delivery outside call d s max_attempts
          >> dispatch_each outside (suc call) ds subscriptions max_attempts
    ]

-- The first transaction, which only reads.
unfoldable pub due_and_active : ℕ → ℕ → Action (List WebhookDelivery × List WebhookSubscription)
due_and_active now limit = transaction do
  due ← list_due_deliveries now limit
  subscriptions ← list_active_subscriptions
  pure (due, subscriptions)

unfoldable pub dispatch_due_deliveries : Outside → ℕ → ℕ → ℕ → Action ℕ
unfolding due_and_active dispatch_each
dispatch_due_deliveries outside now limit max_attempts = do
  (due, subscriptions) ← due_and_active now limit
  dispatch_each outside 0 due subscriptions max_attempts
  pure (length due)
