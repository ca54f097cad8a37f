-- ===== src/Entities/Webhooks.antt =====
-- app/domain/webhooks/entities.py. The only payload that the program queues is a payment response.
use instant_payment_ledger_a.Prelude.{ℕ, String, Bool, Option, List}
use instant_payment_ledger_a.Entities.Payments.{PaymentResponse}

pub data DeliveryStatus : Type 0 where
  pending delivered dead_letter : DeliveryStatus

pub record WebhookSubscription : Type 0 where
  pub id : ℕ
  pub url : String
  pub secret : String
  pub event_types : List String
  pub active : Bool

pub record WebhookDelivery : Type 0 where
  pub id : ℕ
  pub subscription_id : ℕ
  pub payment_id : Option ℕ
  pub event_type : String
  pub payload : PaymentResponse
  pub status : DeliveryStatus
  pub attempt_count : ℕ
  pub next_attempt_at : ℕ
  pub last_error : Option String
