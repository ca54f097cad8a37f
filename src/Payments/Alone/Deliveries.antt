-- ===== src/Payments/Alone/Deliveries.antt =====
-- With nobody else at work: the deliveries that an event queues.
use instant_payment_ledger_a.Prelude.{
  ℕ, String, ◌≡◌, ◌⊎◌, refl, true, false, none, some, List, [], ◌∷◌, arith, Bool-cases, inl, inr,
  text_cases,
}
use instant_payment_ledger_a.Entities.Payments.{PaymentResponse}
use instant_payment_ledger_a.Entities.Webhooks.{
  DeliveryStatus, WebhookSubscription, WebhookDelivery,
}
use instant_payment_ledger_a.Entities.Errors.{ok}
use instant_payment_ledger_a.Database.Tables.{Db}
use instant_payment_ledger_a.Database.Session.{query, ◌>>=◌}
use instant_payment_ledger_a.Database.Run.{quiet}
use instant_payment_ledger_a.Repositories.Webhooks.{
  new_delivery, active_only, list_active_subscriptions,
}
use instant_payment_ledger_a.Repositories.Ledger.{fresh}
use instant_payment_ledger_a.Webhooks.Outbox.{mem_text, takes_event, enqueue_payment_webhook_event}
use instant_payment_ledger_a.Payments.Alone.{enqueued, enqueue_all_alone}
use instant_payment_ledger_a.Payments.Alone.Status.{enqueued-IsSameBooks}

abbrev IsListed : String → List String → Type 0
IsListed event [] = ⊥
IsListed event (e ∷ es) = (event ≡ e) ⊎ IsListed event es

-- A subscription with no event types takes every event, another one those that it lists.
abbrev pub Takes : String → List String → Type 0
Takes event [] = Unit
Takes event (e ∷ es) = IsListed event (e ∷ es)

module _ (payment_id : ℕ) (event : String) (payload : PaymentResponse) (now : ℕ) where
  -- A delivery to a subscription, due now and not attempted yet.
  pub record IsDelivery (s : WebhookSubscription) (d : WebhookDelivery) : Type 0 where
    pub subscription : d.subscription_id ≡ s.id
    pub payment : d.payment_id ≡ some payment_id
    pub of_event : d.event_type ≡ event
    pub body : d.payload ≡ payload
    pub status : d.status ≡ DeliveryStatus.pending
    pub attempts : d.attempt_count ≡ 0
    pub due : d.next_attempt_at ≡ now
    pub error : d.last_error ≡ none

  -- `Queued ss ds ds'`: one delivery in front of `ds` for each of `ss` that is active and takes the event.
  pub data Queued
      : List WebhookSubscription → List WebhookDelivery → List WebhookDelivery → Type 0 where
    no_more : {ds : List WebhookDelivery} → Queued [] ds ds
    queued :
        {s : WebhookSubscription} {ss : List WebhookSubscription} {ds ds' : List WebhookDelivery}
        (d : WebhookDelivery)
        → s.active ≡ true
        → Takes event s.event_types
        → IsDelivery s d
        → Queued ss (d ∷ ds) ds'
        → Queued (s ∷ ss) ds ds'
    not_active :
        {s : WebhookSubscription} {ss : List WebhookSubscription} {ds ds' : List WebhookDelivery}
        → s.active ≡ false
        → Queued ss ds ds'
        → Queued (s ∷ ss) ds ds'
    other_events :
        {s : WebhookSubscription} {ss : List WebhookSubscription} {ds ds' : List WebhookDelivery}
        → ¬ Takes event s.event_types
        → Queued ss ds ds'
        → Queued (s ∷ ss) ds ds'

IsListed-mem_text : (e : String) (es : List String) → mem_text e es ≡ true → IsListed e es
IsListed-mem_text e [] h = cc
IsListed-mem_text e (x ∷ xs) h = elim (text_cases e x) [
  | inl (same, hit) ↦ inl same
  | inr (differ, miss) ↦ inr (IsListed-mem_text e xs (ground arith))
]

mem_text-IsListed : (e : String) (es : List String) → mem_text e es ≡ false → ¬ IsListed e es
mem_text-IsListed e [] h k = k
mem_text-IsListed e (x ∷ xs) h k = elim (text_cases e x) [
  | inl (same, hit) ↦ ground arith
  | inr (differ, miss) ↦ elim k [
    | inl same ↦ differ same
    | inr later ↦ mem_text-IsListed e xs (ground arith) later
  ]
]

is_taken : (e : String) (es : List String) → takes_event e es ≡ true → Takes e es
is_taken e [] h = tt
is_taken e (x ∷ xs) h = IsListed-mem_text e (x ∷ xs) h

is_not_taken : (e : String) (es : List String) → takes_event e es ≡ false → ¬ Takes e es
is_not_taken e [] h = cc
is_not_taken e (x ∷ xs) h = mem_text-IsListed e (x ∷ xs) h

enqueued-Queued :
    (i : ℕ) (e : String) (p : PaymentResponse) (ss : List WebhookSubscription) (db : Db)
    → Queued i e p db.now ss db.webhook_deliveries
        (enqueued i e p (active_only ss) db).webhook_deliveries
unfolding enqueued active_only
enqueued-Queued i e p [] db = Queued.no_more
enqueued-Queued i e p (s ∷ ss) db = elim (Bool-cases s.active) [
  | inr off ↦ Queued.not_active off (rw (active_only, off) (enqueued-Queued i e p ss db))
  | inl on ↦ elim (Bool-cases (takes_event e s.event_types)) [
    | inr not_taken ↦
        Queued.other_events (is_not_taken e s.event_types not_taken)
          (rw (active_only, on, enqueued, not_taken) (enqueued-Queued i e p ss db))
    | inl takes ↦
        Queued.queued (new_delivery (fresh db) s.id (some i) e p db.now) on
          (is_taken e s.event_types takes)
          (record {
            subscription = refl;
            payment = refl;
            of_event = refl;
            body = refl;
            status = refl;
            attempts = refl;
            due = refl;
            error = refl;
          })
          (rw (active_only, on, enqueued, takes) (enqueued-Queued i e p ss _))
  ]
]

-- With nobody else at work, an event of a payment puts into the outbox, in the transaction that it
-- happens in, one delivery for each subscription that is active and takes the event, addressed to it,
-- with the event and its payload, due at once; payments, journal lines and accounts stay as they are.
pub enqueue_payment_webhook_event-Queued :
    (payment_id : ℕ) (event : String) (payload : PaymentResponse) (v c : Db)
    → (v' : Db) × (enqueue_payment_webhook_event payment_id event payload (quiet v c)
        ≡ (ok tt, quiet v' c))
      × Queued payment_id event payload v.now v.webhook_subscriptions v.webhook_deliveries
          v'.webhook_deliveries
      × (v'.payments ≡ v.payments)
      × (v'.journal_lines ≡ v.journal_lines)
      × (v'.accounts ≡ v.accounts)
unfolding enqueue_payment_webhook_event list_active_subscriptions query ◌>>=◌
enqueue_payment_webhook_event-Queued i e p v c =
    let ss = active_only v.webhook_subscriptions in
    let same = enqueued-IsSameBooks i e p ss v in
    (
      enqueued i e p ss v,
      enqueue_all_alone i e p ss v c,
      enqueued-Queued i e p v.webhook_subscriptions v,
      same.0,
      same.1,
      same.2,
    )
