-- ===== src/Webhook/Dispatch/FanOut.antt =====
-- The jobs that an event leaves in the queue.
use envelope.Prelude.{
  ℕ, suc, ◌+◌, ◌≤◌, ◌<◌, ◌≡◌, ◌≢◌, ◌⊎◌, false, Bool, not, ◌&&◌, Option, none, some, String, List,
  [], ◌∷◌, length,
}
use envelope.Prelude.Dict.{Dict, lookup}
use envelope.Context.{Error}
use envelope.Queue.Claims.{Backend}
use envelope.Webhook.{Payload, Subscription, DeliveryJob}
use envelope.Webhook.Dispatch.{matches_event_type}

-- One of the types is this one.
abbrev pub Names : String → List String → Type 0
Names t [] = ⊥
Names t (x ∷ rest) = (t ≡ x) ⊎ Names t rest

-- The subscription is enabled, and lists this type or no type at all.
abbrev pub Asks : String → Subscription → Type 0
Asks event_type sub =
    (sub.disabled ≡ false) × ((sub.event_types ≡ []) ⊎ (Names event_type sub.event_types))

-- The job of a subscription: to its URL and with its secret, not attempted yet, and due now.
abbrev pub delivery_job :
    String → String → Subscription → String → String → Payload → ℕ → String → DeliveryJob
delivery_job id vhost sub event_id event_type payload now correlation_id = record {
  id = id;
  vhost = vhost;
  subscription_id = sub.id;
  url = sub.url;
  secret = sub.secret;
  event_id = event_id;
  event_type = event_type;
  payload = payload;
  attempts = 0;
  next_attempt_at = now;
  last_error = "";
  correlation_id = correlation_id;
}

abbrev pub wants : String → Subscription → Bool
wants event_type sub = not sub.disabled && matches_event_type sub event_type

module _ (correlation_id vhost event_id event_type : String) (payload : Payload) (now : ℕ)
    (uuids : ℕ → String) where
  -- The queue holds a job for each subscription, under consecutive UUIDs from the n-th on.
  abbrev pub HasDeliveries : ℕ → List Subscription → Dict DeliveryJob → Type 0
  HasDeliveries n [] jobs = Unit
  HasDeliveries n (sub ∷ rest) jobs =
      (lookup (uuids n) jobs
        ≡ some (delivery_job (uuids n) vhost sub event_id event_type payload now correlation_id))
      × HasDeliveries (suc n) rest jobs

  -- The event went to these subscriptions, and nothing else in the queue changed.
  pub record FannedOut (n : ℕ) (subs : List Subscription) (before after : Backend DeliveryJob)
      : Type 0 where
    pub has_deliveries : HasDeliveries n subs after.jobs
    pub kept :
        (id : String)
        → ((m : ℕ) → n ≤ m → m < n + length subs → id ≢ uuids m)
        → lookup id after.jobs ≡ lookup id before.jobs

  Outcome :
      ℕ → List Subscription → Backend DeliveryJob → Option Error × Backend DeliveryJob → Type 0
  Outcome n subs before r = (r.0 ≡ none) × FannedOut n subs before r.1
