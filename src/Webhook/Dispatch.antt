-- ===== src/Webhook/Dispatch.antt =====
-- internal/webhook/dispatcher.go and signer.go: events fanned out to the subscriptions, delivered,
-- retried and redriven. The store of subscriptions is an interface, as in the source.
pub mod Redriving
pub mod FanOut
pub mod Settling
use envelope.Prelude.{
  ℕ, suc, ◌+◌, ℤ, pos, ltb, ltb_ℤ, Bool, true, false, not, ◌||◌, ◌&&◌, Option, none, some, String,
  ◌<>◌, ◌=ₛ◌, quote, decimal, List, [], ◌∷◌, if◌then◌else◌,
}
use envelope.Context.{
  Context, SmtpError, Error, plain, wrap, sentinel, webhook_not_found, Result, ok, err, message,
}
use envelope.Queue.Claims.{Backend, enqueue, complete, fail}
use envelope.Queue.Backoff.{Rand, full_jitter}
use envelope.Webhook.{Payload, Subscription, DeliveryAttempt, DeliveryJob, event_queue}

-- The methods of Store that the dispatcher calls; the UUID of an attempt is the store's.
pub record Store : Type 1 where
  pub State : Type 0
  pub list_subscriptions : Context → String → State → Result (List Subscription)
  pub record_attempt : Context → DeliveryAttempt → State → Option Error × State
  pub list_attempts : Context → String → String → State → Result (List DeliveryAttempt)

-- An *http.Request: URL, signature, event type and body.
pub record Request : Type 0 where
  pub url : String
  pub signature : String
  pub event_type : String
  pub body : Payload

-- What the dispatcher runs on. `hex_mac` is the HMAC-SHA256 of a body in hexadecimal, `new_request`
-- the error of http.NewRequest at a URL, and `do_request` the status code of the response.
pub record Parts : Type 1 where
  pub store : Store
  pub rand : Rand
  pub smtp_text : SmtpError → String
  pub hex_mac : String → Payload → String
  pub new_request : String → Option Error
  pub do_request : Request → Result ℕ

pub record Config : Type 0 where
  pub backoff_base : ℤ
  pub backoff_max : ℤ
  pub max_attempts : ℤ

pub record World (p : Parts) : Type 0 where
  pub queue : Backend DeliveryJob
  pub history : p.store.State
  pub draws : p.rand.State

-- The defaults, in nanoseconds.
unfoldable pub default_config : Config
default_config = record {
  backoff_base = pos 30_000_000_000;
  backoff_max = pos 1_800_000_000_000;
  max_attempts = pos 8;
}

unfoldable pub has_type : List String → String → Bool
has_type [] event_type = false
has_type (t ∷ rest) event_type = (t =ₛ event_type) || has_type rest event_type

unfoldable pub matches_event_type : Subscription → String → Bool
matches_event_type sub event_type = elim sub.event_types [
  | [] ↦ true
  | t ∷ rest ↦ has_type (t ∷ rest) event_type
]

unfoldable pub new_job :
    String → String → Subscription → String → String → Payload → ℕ → String → DeliveryJob
new_job id vhost sub event_id event_type payload now correlation_id = record {
  id = id;
  vhost = vhost;
  subscription_id = sub.id;
  url = sub.url;
  secret = sub.secret;
  event_id = event_id;
  event_type = event_type;
  payload = payload;
  attempts = 0;
  next_attempt_at = now;
  last_error = "";
  correlation_id = correlation_id;
}

for_subscription : String → String → Error → Error
for_subscription event_type id e =
    wrap ("webhook: enqueue " <> (event_type <> (" for subscription " <> (quote id <> ": ")))) e

-- The loop of Enqueue, over the jobs that it builds from subscriptions; `uuids` are the fresh UUIDs.
unfoldable pub fan_out :
    Context
    → String
    → String
    → String
    → Payload
    → ℕ
    → (ℕ → String)
    → ℕ
    → List Subscription
    → Backend DeliveryJob
    → Option Error × Backend DeliveryJob
unfolding for_subscription
fan_out ctx vhost event_id event_type payload now uuids n [] m = (none, m)
fan_out ctx vhost event_id event_type payload now uuids n (sub ∷ rest) m =
    let skipped = fan_out ctx vhost event_id event_type payload now uuids n rest m in
    let job = new_job (uuids n) vhost sub event_id event_type payload now ctx.correlation_id in
    let (refused, after) = enqueue event_queue ctx job m in
    let others = fan_out ctx vhost event_id event_type payload now uuids (suc n) rest after in
    if sub.disabled || not (matches_event_type sub event_type) then skipped else elim refused [
      | none ↦ others
      | some e ↦ (some (for_subscription event_type sub.id e), after)
    ]

unfoldable pub find_subscription : String → List Subscription → Option Subscription
find_subscription id [] = none
find_subscription id (sub ∷ rest) =
    let later = find_subscription id rest in if sub.id =ₛ id then some sub else later

-- The loop of Redrive over the attempts, oldest first; `last` is the latest match so far.
unfoldable pub last_attempt :
    String → List DeliveryAttempt → Option DeliveryAttempt → Option DeliveryAttempt
last_attempt event_id [] last = last
last_attempt event_id (a ∷ rest) last =
    last_attempt event_id rest (if a.event_id =ₛ event_id then some a else last)

unfoldable pub prefixed : String → Option Error → Option Error
prefixed text none = none
prefixed text (some e) = some (wrap text e)

unfoldable pub sign : (String → Payload → String) → String → Payload → String
sign hex_mac secret body = "sha256=" <> hex_mac secret body

module _ (p : Parts) (cfg : Config) where
  unfoldable pub enqueue_event :
      Context → String → String → Payload → ℕ → (ℕ → String) → World p → Option Error × World p
  enqueue_event ctx vhost event_type payload now uuids w =
      elim (p.store.list_subscriptions ctx vhost w.history) [
        | err e ↦ (
          some (
              wrap ("webhook: enqueue " <> (event_type <> (" for vhost " <> (quote vhost <> ": "))))
                e),
          w,
        )
        | ok subs ↦
            let (refused, m) =
              fan_out ctx vhost (uuids 0) event_type payload now uuids 1 subs w.queue in
            (refused, record w { queue = m })
      ]

  -- The part of Redrive after the subscription is found and enabled.
  unfoldable pub redrive_to :
      Context → String → Subscription → String → ℕ → String → World p → Option Error × World p
  unfolding prefixed
  redrive_to ctx vhost sub event_id now uuid w =
      elim (p.store.list_attempts ctx vhost sub.id w.history) [
        | err e ↦ (some (wrap "webhook: redrive: list attempts: " e), w)
        | ok attempts ↦ elim (last_attempt event_id attempts none) [
          | none ↦ (
            some (
                wrap
                  ("webhook: redrive: event "
                    <> (quote event_id
                        <> (" was never attempted against subscription "
                            <> (quote sub.id <> ": "))))
                  (sentinel webhook_not_found)),
            w,
          )
          | some last ↦
              let job =
                new_job uuid vhost sub event_id last.event_type last.payload now
                  ctx.correlation_id in
              let (refused, m) = enqueue event_queue ctx job w.queue in
              (prefixed "webhook: redrive: enqueue: " refused, record w { queue = m })
        ]
      ]

  unfoldable pub redrive :
      Context → String → String → String → ℕ → String → World p → Option Error × World p
  unfolding redrive_to
  redrive ctx vhost subscription_id event_id now uuid w =
      elim (p.store.list_subscriptions ctx vhost w.history) [
        | err e ↦ (some (wrap "webhook: redrive: list subscriptions: " e), w)
        | ok subs ↦ elim (find_subscription subscription_id subs) [
          | none ↦ (
            some (
                wrap ("webhook: redrive: subscription " <> (quote subscription_id <> ": "))
                  (sentinel webhook_not_found)),
            w,
          )
          | some sub ↦
              if sub.disabled
              then (
                some (
                    plain (
                      "webhook: redrive: subscription "
                      <> (quote subscription_id <> " is disabled"))),
                w,
              )
              else redrive_to ctx vhost sub event_id now uuid w
        ]
      ]

  -- The status code of the response, and whether the delivery failed.
  unfoldable pub answer : Result ℕ → ℕ × Option Error
  answer (err e) = (0, some (wrap "webhook: request failed: " e))
  answer (ok code) =
      if ltb code 200 || not (ltb code 300)
      then (code, some (plain ("webhook: endpoint returned status " <> decimal code)))
      else (code, none)

  -- The part of send after http.NewRequestWithContext, on the error that it returned.
  unfoldable pub delivery : DeliveryJob → Option Error → ℕ × Option Error
  delivery job (some e) = (0, some (wrap "webhook: build request: " e))
  delivery job none = answer (
      p.do_request (record {
        url = job.url;
        signature = sign p.hex_mac job.secret job.payload;
        event_type = job.event_type;
        body = job.payload;
      }))

  unfoldable pub send : DeliveryJob → ℕ × Option Error
  send job = delivery job (p.new_request job.url)

  error_text : Option Error → String
  error_text none = ""
  error_text (some e) = message p.smtp_text e

  unfoldable pub attempt_of : DeliveryJob → ℕ × Option Error → ℕ → DeliveryAttempt
  unfolding error_text
  attempt_of job (code, failure) now = record {
    id = "";
    vhost = job.vhost;
    subscription_id = job.subscription_id;
    event_id = job.event_id;
    attempt = job.attempts + 1;
    status_code = code;
    error_text = error_text failure;
    attempted_at = now;
    payload = job.payload;
    event_type = job.event_type;
  }

  unfoldable pub retry : Context → DeliveryJob → Error → ℕ → World p → World p
  retry ctx job e now w =
      let (delay, draws) =
        full_jitter p.rand (pos job.attempts) cfg.backoff_base cfg.backoff_max w.draws in
      record w {
        draws = draws;
        queue =
            (fail event_queue ctx job.id (some (message p.smtp_text e)) (now + delay) w.queue).1;
      }

  unfoldable pub settle : Context → DeliveryJob → Option Error → ℕ → World p → World p
  unfolding retry
  settle ctx job none now w = record w { queue = (complete event_queue ctx job.id w.queue).1 }
  settle ctx job (some e) now w =
      if not (ltb_ℤ (pos (job.attempts + 1)) cfg.max_attempts)
      then record w { queue = (complete event_queue ctx job.id w.queue).1 }
      else retry ctx job e now w

  -- deliverOne; `done` is that of the context of Run, and `attempted` and `now` are the two readings
  -- of the clock.
  unfoldable pub deliver_one : Option Error → DeliveryJob → ℕ → ℕ → World p → World p
  deliver_one done job attempted now w =
      let ctx : Context = record { done = done; correlation_id = job.correlation_id } in
      let sent = send job in
      let history = (p.store.record_attempt ctx (attempt_of job sent attempted) w.history).1 in
      settle ctx job sent.1 now (record w { history = history })
