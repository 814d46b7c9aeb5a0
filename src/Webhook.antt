-- ===== src/Webhook.antt =====
-- internal/webhook: signed and retried delivery of events. The types that its parts and its callers
-- share: event.go, store.go and delivery.go.
pub mod Memory
pub mod Dispatch
mod Tests
use envelope.Prelude.{ℕ, ◌+◌, Option, none, some, ◌<>◌, quote, refl, Bool, String, List}
use envelope.Context.{Context, Error, plain}
use envelope.Queue.Claims.{RetryJob, IsLawful}

abbrev pub message_received : String
message_received = "message.received"

abbrev pub message_queued : String
message_queued = "message.queued"

abbrev pub message_delivered : String
message_delivered = "message.delivered"

abbrev pub message_bounced : String
message_bounced = "message.bounced"

abbrev pub message_deferred : String
message_deferred = "message.deferred"

-- The `data` of an event: the maps that the program marshals, one constructor for each.
pub data EventData : Type 0 where
  delivered_data : String → String → EventData
  bounced_data : String → String → ℕ → String → EventData
  deferred_data : String → String → ℕ → String → ℕ → EventData
  received_data : String → List String → Bool → EventData
  queued_data : String → List String → EventData

-- The JSON envelope of NewEventPayload, kept as the value that is marshalled.
pub record Payload : Type 0 where
  pub event_id : String
  pub event_type : String
  pub vhost : String
  pub created_at : ℕ
  pub content : EventData

unfoldable pub new_event_payload : String → String → String → ℕ → EventData → Payload
new_event_payload event_id event_type vhost now content = record {
  event_id = event_id;
  event_type = event_type;
  vhost = vhost;
  created_at = now;
  content = content;
}

-- A call of Enqueuer.Enqueue. Every caller drops its result.
pub record Fired : Type 0 where
  pub ctx : Context
  pub vhost : String
  pub event_type : String
  pub payload : Payload

pub record Subscription : Type 0 where
  pub id : String
  pub vhost : String
  pub url : String
  pub secret : String
  pub event_types : List String
  pub disabled : Bool

pub record DeliveryAttempt : Type 0 where
  pub id : String
  pub vhost : String
  pub subscription_id : String
  pub event_id : String
  pub attempt : ℕ
  pub status_code : ℕ
  pub error_text : String
  pub attempted_at : ℕ
  pub payload : Payload
  pub event_type : String

pub record DeliveryJob : Type 0 where
  pub id : String
  pub vhost : String
  pub subscription_id : String
  pub url : String
  pub secret : String
  pub event_id : String
  pub event_type : String
  pub payload : Payload
  pub attempts : ℕ
  pub next_attempt_at : ℕ
  pub last_error : String
  pub correlation_id : String

abbrev or_else : Option String → String → String
or_else none old = old
or_else (some text) old = text

unfoldable pub reschedule : DeliveryJob → Option String → ℕ → DeliveryJob
reschedule job cause next = record job {
  attempts = job.attempts + 1;
  next_attempt_at = next;
  last_error = or_else cause job.last_error;
}

unfoldable pub delivery_not_found : String → Error
delivery_not_found id = plain ("webhook: delivery job " <> (quote id <> " not found"))

-- MemoryEventQueue, with its methods in envelope.Queue.Claims.
unfoldable pub event_queue : RetryJob DeliveryJob
unfolding reschedule delivery_not_found
event_queue = record {
  id = λ j. j.id;
  next_attempt_at = λ j. j.next_attempt_at;
  attempts = λ j. j.attempts;
  reschedule = reschedule;
  id_required = plain "webhook: delivery job ID is required";
  not_found = delivery_not_found;
}

pub event_queue-IsLawful : IsLawful event_queue
unfolding event_queue
event_queue-IsLawful = record { id_kept = λ j cause t. refl }
