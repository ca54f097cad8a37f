-- ===== src/Api/Webhooks.antt =====
-- app/api/v1/webhooks.py and app/api/schemas/webhooks.py.
use instant_payment_ledger_a.Prelude.{ℕ, String, Bool, ◌&&◌, Option, none, List, map, if◌then◌else◌}
use instant_payment_ledger_a.Entities.Payments.{PaymentResponse}
use instant_payment_ledger_a.Entities.Webhooks.{WebhookSubscription, WebhookDelivery}
use instant_payment_ledger_a.Database.Session.{pure, commit, transaction, ◌>>=◌, ◌>>◌}
use instant_payment_ledger_a.Repositories.Webhooks.{
  create_subscription as insert_subscription, list_dead_letters as list_dead_letter_rows,
}
use instant_payment_ledger_a.Api.{invalid_body, Endpoint, endpoint, length_between}

pub record CreateWebhookSubscriptionRequest : Type 0 where
  pub url : String
  pub secret : String
  pub event_types : List String

unfoldable pub is_valid_subscription_request : CreateWebhookSubscriptionRequest → Bool
is_valid_subscription_request body =
    length_between 1 2048 body.url && length_between 8 255 body.secret

-- The secret is not echoed.
pub record WebhookSubscriptionResponse : Type 0 where
  pub id : ℕ
  pub url : String
  pub event_types : List String
  pub active : Bool

abbrev pub subscription_response : WebhookSubscription → WebhookSubscriptionResponse
subscription_response subscription = record {
  id = subscription.id;
  url = subscription.url;
  event_types = subscription.event_types;
  active = subscription.active;
}

unfoldable pub create_subscription :
    CreateWebhookSubscriptionRequest → Endpoint WebhookSubscriptionResponse
unfolding is_valid_subscription_request endpoint
create_subscription body s =
    if is_valid_subscription_request body
    then endpoint 201 (λ e. none)
        (transaction do
          subscription ← insert_subscription body.url body.secret body.event_types
          commit
          pure (subscription_response subscription))
        s
    else (invalid_body, s)

pub record WebhookDeadLetterResponse : Type 0 where
  pub id : ℕ
  pub subscription_id : ℕ
  pub payment_id : Option ℕ
  pub event_type : String
  pub payload : PaymentResponse
  pub attempt_count : ℕ
  pub last_error : Option String
  pub next_attempt_at : ℕ

abbrev pub dead_letter_response : WebhookDelivery → WebhookDeadLetterResponse
dead_letter_response d = record {
  id = d.id;
  subscription_id = d.subscription_id;
  payment_id = d.payment_id;
  event_type = d.event_type;
  payload = d.payload;
  attempt_count = d.attempt_count;
  last_error = d.last_error;
  next_attempt_at = d.next_attempt_at;
}

unfoldable pub list_dead_letters : Endpoint (List WebhookDeadLetterResponse)
unfolding endpoint
list_dead_letters =
    endpoint 200 (λ e. none)
      (transaction
        do deliveries ← list_dead_letter_rows; pure (map dead_letter_response deliveries))
