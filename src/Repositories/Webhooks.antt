-- ===== src/Repositories/Webhooks.antt =====
-- app/infra/db/repositories/webhook_repository.py.
use instant_payment_ledger_a.Prelude.{
  ℕ, ◌+◌, String, Bool, true, false, ◌&&◌, Option, none, some, List, [], ◌∷◌, ◌==◌, leb, take,
  if◌then◌else◌,
}
use instant_payment_ledger_a.Entities.Payments.{PaymentResponse}
use instant_payment_ledger_a.Entities.Webhooks.{
  DeliveryStatus, WebhookSubscription, WebhookDelivery,
}
use instant_payment_ledger_a.Entities.Errors.{ok, err, assertion_error}
use instant_payment_ledger_a.Database.Session.{Action, statement, query}
use instant_payment_ledger_a.Repositories.Ledger.{fresh}

unfoldable pub create_subscription : String → String → List String → Action WebhookSubscription
create_subscription url secret event_types = statement λ db. (
  ok (row (fresh db)),
  record db {
    webhook_subscriptions = row (fresh db) ∷ db.webhook_subscriptions;
    draws = db.draws + 1;
  },
)
  where
    row : ℕ → WebhookSubscription
    row i = record { id = i; url = url; secret = secret; event_types = event_types; active = true }

unfoldable pub active_only : List WebhookSubscription → List WebhookSubscription
active_only [] = []
active_only (s ∷ ss) = if s.active then s ∷ active_only ss else active_only ss

unfoldable pub list_active_subscriptions : Action (List WebhookSubscription)
unfolding active_only
list_active_subscriptions = query λ db. ok (active_only db.webhook_subscriptions)

-- The row that `enqueue_delivery` adds, due at once.
abbrev pub new_delivery : ℕ → ℕ → Option ℕ → String → PaymentResponse → ℕ → WebhookDelivery
new_delivery i subscription_id payment_id event_type payload now = record {
  id = i;
  subscription_id = subscription_id;
  payment_id = payment_id;
  event_type = event_type;
  payload = payload;
  status = DeliveryStatus.pending;
  attempt_count = 0;
  next_attempt_at = now;
  last_error = none;
}

unfoldable pub enqueue_delivery : ℕ → Option ℕ → String → PaymentResponse → Action ℕ
enqueue_delivery subscription_id payment_id event_type payload = statement λ db. (
  ok (fresh db),
  record db {
    webhook_deliveries =
        new_delivery (fresh db) subscription_id payment_id event_type payload db.now
        ∷ db.webhook_deliveries;
    draws = db.draws + 1;
  },
)

abbrev pub is_pending : DeliveryStatus → Bool
is_pending DeliveryStatus.pending = true
is_pending _ = false

abbrev pub is_due : ℕ → WebhookDelivery → Bool
is_due now d = is_pending d.status && leb d.next_attempt_at now

-- `ORDER BY next_attempt_at`: insertion into a sorted list.
unfoldable pub insert_by_time : WebhookDelivery → List WebhookDelivery → List WebhookDelivery
insert_by_time d [] = d ∷ []
insert_by_time d (e ∷ es) =
    if leb d.next_attempt_at e.next_attempt_at then d ∷ e ∷ es else e ∷ insert_by_time d es

unfoldable pub due_by_time : ℕ → List WebhookDelivery → List WebhookDelivery
unfolding insert_by_time
due_by_time now [] = []
due_by_time now (d ∷ ds) =
    let rest = due_by_time now ds in if is_due now d then insert_by_time d rest else rest

unfoldable pub list_due_deliveries : ℕ → ℕ → Action (List WebhookDelivery)
unfolding due_by_time
list_due_deliveries now limit = query λ db. ok (take limit (due_by_time now db.webhook_deliveries))

unfoldable pub find_delivery : ℕ → List WebhookDelivery → Option WebhookDelivery
find_delivery i [] = none
find_delivery i (d ∷ ds) = if d.id == i then some d else find_delivery i ds

-- The change of the row with an identifier.
unfoldable pub change_delivery :
    ℕ → (WebhookDelivery → WebhookDelivery) → List WebhookDelivery → List WebhookDelivery
change_delivery i f [] = []
change_delivery i f (d ∷ ds) = (if d.id == i then f d else d) ∷ change_delivery i f ds

-- `row = session.get(...)`, `assert row is not None`, and assignments to the row.
unfoldable pub mark : ℕ → (WebhookDelivery → WebhookDelivery) → Action (Unit {0})
unfolding find_delivery change_delivery
mark delivery_id f = statement λ db. elim (find_delivery delivery_id db.webhook_deliveries) [
  | none ↦ (err assertion_error, db)
  | some row ↦ (
    ok tt,
    record db { webhook_deliveries = change_delivery delivery_id f db.webhook_deliveries },
  )
]

unfoldable pub mark_delivered : ℕ → Action (Unit {0})
unfolding mark
mark_delivered delivery_id =
    mark delivery_id λ row. record row { status = DeliveryStatus.delivered }

unfoldable pub mark_retry : ℕ → ℕ → ℕ → String → Action (Unit {0})
unfolding mark
mark_retry delivery_id attempt_count next_attempt_at last_error = mark delivery_id λ row.
    record row {
      attempt_count = attempt_count;
      next_attempt_at = next_attempt_at;
      last_error = some last_error;
    }

unfoldable pub mark_dead_letter : ℕ → ℕ → String → Action (Unit {0})
unfolding mark
mark_dead_letter delivery_id attempt_count last_error = mark delivery_id λ row. record row {
  status = DeliveryStatus.dead_letter;
  attempt_count = attempt_count;
  last_error = some last_error;
}

-- The rows come newest first, which is the order by `created_at` descending.
unfoldable pub dead_letters : List WebhookDelivery → List WebhookDelivery
dead_letters [] = []
dead_letters (d ∷ ds) = elim d.status [
  | DeliveryStatus.dead_letter ↦ d ∷ dead_letters ds
  | _ ↦ dead_letters ds
]

unfoldable pub list_dead_letters : Action (List WebhookDelivery)
unfolding dead_letters
list_dead_letters = query λ db. ok (dead_letters db.webhook_deliveries)
