-- ===== src/Webhooks/Dispatch/Verdict.antt =====
-- What a dispatch leaves of a delivery, and how the delays grow.
use instant_payment_ledger_a.Prelude.{
  ℕ, zero, suc, ◌+◌, ◌-◌, ◌*◌, ◌^◌, ◌≤◌, ◌<◌, ◌≡◌, refl, ap, ◌∙◌, String, Option, none, some, List,
  [], ◌∷◌, All, arith, ◌==◌, leb, length, take, Bool-cases, inl, inr, if◌then◌else◌,
}
use instant_payment_ledger_a.Entities.Errors.{ok}
use instant_payment_ledger_a.Entities.Webhooks.{
  DeliveryStatus, WebhookSubscription, WebhookDelivery,
}
use instant_payment_ledger_a.Database.Tables.{Db}
use instant_payment_ledger_a.Database.Session.{alone, statement, query, pure, transaction}
use instant_payment_ledger_a.Database.Run.{quiet}
use instant_payment_ledger_a.Repositories.Webhooks.{
  find_delivery, change_delivery, mark, mark_delivered, mark_retry, mark_dead_letter, active_only,
  due_by_time, list_due_deliveries, list_active_subscriptions,
}
use instant_payment_ledger_a.Webhooks.Dispatch.{
  Outside, conclude, dispatch_one_delivery, dispatch_each, due_and_active, dispatch_due_deliveries,
  subscription_by_id, backoff_seconds, Sent, returned, raised, error_of,
}

pow_suc : (n : ℕ) → 2 ^ suc n ≡ 2 * 2 ^ n
pow_suc n = omega arith

pow_pos : (n : ℕ) → 1 ≤ 2 ^ n
pow_pos zero = omega arith
pow_pos (suc n) = omega (arith, pow_suc n, pow_pos n)

-- Delays are two seconds at least and fifteen minutes at most, and do not shrink from one attempt to
-- the next.
pub backoff_seconds-bounds :
    (attempt : ℕ)
    → (2 ≤ backoff_seconds attempt)
      × (backoff_seconds attempt ≤ 900)
      × (backoff_seconds attempt ≤ backoff_seconds (suc attempt))
unfolding backoff_seconds
backoff_seconds-bounds attempt = (
  ground (arith, pow_pos attempt),
  ground arith,
  ground (arith, pow_pos attempt, pow_suc attempt),
)

find_delivery-change :
    (i : ℕ) (f : WebhookDelivery → WebhookDelivery) (ds : List WebhookDelivery)
    {d : WebhookDelivery}
    → find_delivery i ds ≡ some d
    → (f d).id ≡ d.id
    → find_delivery i (change_delivery i f ds) ≡ some (f d)
unfolding find_delivery change_delivery
find_delivery-change i f [] h k = cc
find_delivery-change i f (x ∷ xs) {d} h k = elim (Bool-cases (x.id == i)) [
  | inl hit ↦
      let same : x ≡ d = ground arith in rw hit (rw same (rw (k) (rw (← same) (rw hit refl))))
  | inr miss ↦ simp miss (find_delivery-change i f xs {d = d} (ground arith) k)
]

-- What becomes of a delivery, by the error of the attempt.
abbrev pub verdict : ℕ → ℕ → Option String → WebhookDelivery → WebhookDelivery
verdict max_attempts now none d = record d { status = DeliveryStatus.delivered }
verdict max_attempts now (some error) d =
    if leb max_attempts (d.attempt_count + 1)
    then record d {
      status = DeliveryStatus.dead_letter;
      attempt_count = d.attempt_count + 1;
      last_error = some error;
    }
    else record d {
      attempt_count = d.attempt_count + 1;
      next_attempt_at = now + backoff_seconds d.attempt_count;
      last_error = some error;
    }

mark_alone :
    (i : ℕ) (f : WebhookDelivery → WebhookDelivery) (v c : Db) {d : WebhookDelivery}
    → find_delivery i v.webhook_deliveries ≡ some d
    → mark i f (quiet v c) ≡ (
      ok tt,
      quiet (record v { webhook_deliveries = change_delivery i f v.webhook_deliveries }) c,
    )
unfolding mark statement
mark_alone i f v c h = rw h refl

conclude-mark :
    (d : WebhookDelivery) (max_attempts now : ℕ) (e : Option String)
    → (f : WebhookDelivery → WebhookDelivery) × (conclude d max_attempts now e ≡ mark d.id f)
      × (f d ≡ verdict max_attempts now e d)
      × ((f d).id ≡ d.id)
unfolding mark_delivered mark_retry mark_dead_letter
conclude-mark d m now none = (_, refl, refl, refl)
conclude-mark d m now (some e) = elim (Bool-cases (leb m (d.attempt_count + 1))) [
  | inl last ↦ (
    λ row. record row {
      status = DeliveryStatus.dead_letter;
      attempt_count = d.attempt_count + 1;
      last_error = some e;
    },
    rw last refl,
    rw last refl,
    refl,
  )
  | inr again ↦ (
    λ row. record row {
      attempt_count = d.attempt_count + 1;
      next_attempt_at = now + backoff_seconds (d.attempt_count + 1 - 1);
      last_error = some e;
    },
    rw again refl,
    rw again (
        ap
          (λ n. record d {
            attempt_count = d.attempt_count + 1;
            next_attempt_at = now + backoff_seconds n;
            last_error = some e;
          })
          minus_one),
    refl,
  )
]
  where
    minus_one : d.attempt_count + 1 - 1 ≡ d.attempt_count
    minus_one = omega arith

-- The request that an attempt sends: the payload as JSON, signed with the subscription's secret.
abbrev pub posted_to : Outside → ℕ → WebhookDelivery → WebhookSubscription → Sent
posted_to outside call d s =
    outside.send call s.url
      (("Content-Type", "application/json")
        ∷ ("X-Webhook-Event", d.event_type)
        ∷ ("X-Webhook-Signature", outside.hmac_sha256 s.secret (outside.json_dumps d.payload))
        ∷ [])
      (outside.json_dumps d.payload)

-- Which answers are a success, and the error of each of the others.
pub data Judged (outside : Outside) : Sent → Option String → Type 0 where
  is_success : (code : ℕ) → 200 ≤ code → code ≤ 299 → Judged outside (returned code) none
  is_below :
      (code : ℕ) → code < 200 → Judged outside (returned code) (some (outside.http_text code))
  is_above :
      (code : ℕ) → 299 < code → Judged outside (returned code) (some (outside.http_text code))
  is_raised : (text : String) → Judged outside (raised text) (some text)

error_of_lem :
    (outside : Outside) {sent : Sent} {error : Option String}
    → Judged outside sent error
    → error_of outside sent ≡ error
error_of_lem outside (is_success code low high) = ground arith
error_of_lem outside (is_below code low) = ground arith
error_of_lem outside (is_above code high) = ground arith
error_of_lem outside (is_raised text) = refl

-- With nobody else at work, one attempt on a delivery decides it: on a status from 200 to 299 it is
-- delivered. Otherwise the attempt is counted, the error kept, and the delivery is a dead letter if it
-- was the last attempt allowed, and else due again after the delay.
pub dispatch_one_delivery-alone :
    (outside : Outside) (call : ℕ) (d : WebhookDelivery) (s : WebhookSubscription)
    (max_attempts : ℕ) (db : Db) {error : Option String}
    → find_delivery d.id db.webhook_deliveries ≡ some d
    → Judged outside (posted_to outside call d s) error
    → (db' : Db) × (dispatch_one_delivery outside call d s max_attempts (alone db)
        ≡ (ok tt, alone db'))
      × (find_delivery d.id db'.webhook_deliveries
          ≡ some (verdict max_attempts (outside.clock call) error d))
unfolding dispatch_one_delivery transaction
dispatch_one_delivery-alone outside call d s m db {error} h judged =
    let (f, marks, result, keeps_id) = conclude-mark d m (outside.clock call) error in
    (
      record db { webhook_deliveries = change_delivery d.id f db.webhook_deliveries },
      rw (error_of_lem outside judged, marks, mark_alone d.id f db db h) refl,
      find_delivery-change d.id f db.webhook_deliveries h keeps_id ∙ ap some result,
    )

-- Deliveries whose subscription is not active.
abbrev pub IsOrphan : List WebhookSubscription → WebhookDelivery → Type 0
IsOrphan ss d = subscription_by_id d.subscription_id ss ≡ none

dispatch_each_orphans :
    (outside : Outside) (call : ℕ) (ds : List WebhookDelivery) (ss : List WebhookSubscription)
    (max_attempts : ℕ)
    → All (IsOrphan ss) ds
    → dispatch_each outside call ds ss max_attempts ≡ pure tt
unfolding dispatch_each
dispatch_each_orphans outside call [] ss m h = refl
dispatch_each_orphans outside call (d ∷ ds) ss m h =
    rw (dispatch_each, h.0) (dispatch_each_orphans outside call ds ss m h.1)

-- With nobody else at work and no delivery of the batch with an active subscription, a polling cycle
-- changes nothing, so the next one gets the same batch again, and it reports the whole batch as
-- processed.
pub dispatch_due_deliveries_orphans :
    (outside : Outside) (now limit max_attempts : ℕ) (db : Db)
    → All {A = WebhookDelivery}
        (IsOrphan (active_only db.webhook_subscriptions))
        (take limit (due_by_time now db.webhook_deliveries))
    → dispatch_due_deliveries outside now limit max_attempts (alone db)
      ≡ (ok (length (take limit (due_by_time now db.webhook_deliveries))), alone db)
unfolding dispatch_due_deliveries due_and_active list_due_deliveries list_active_subscriptions query
    transaction
dispatch_due_deliveries_orphans outside now limit m db h =
    rw (dispatch_each_orphans outside 0 _ _ m h) refl
