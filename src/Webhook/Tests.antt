-- ===== src/Webhook/Tests.antt =====
-- The dispatcher on two subscriptions of one vhost.
use envelope.Prelude.{◌≡◌, ◌≢◌, refl, true, false, none, some, eq_iff, List, [], ◌∷◌, arith}
use envelope.Prelude.Dict.{lookup}
use envelope.Context.{background, ok}
use envelope.Queue.Claims.{new_backend}
use envelope.Samples.{counting, live}
use envelope.Webhook.{
  Payload, queued_data, message_queued, message_bounced, Subscription, DeliveryAttempt, DeliveryJob,
}
use envelope.Webhook.Memory.{MemoryStore, disable_subscription, list_attempts}
use envelope.Webhook.Memory.Tenants.{disable_subscription-isolated}
use envelope.Webhook.Dispatch.{Parts, World, default_config, redrive, deliver_one}
use envelope.Webhook.Dispatch.Redriving.{Redriven, redrive-Redriven}
use envelope.Webhook.Dispatch.Settling.{Settled, deliver_one-Settled}

abbrev all_events : Subscription
all_events = record {
  id = "s1";
  vhost = "a.example";
  url = "https://a.example/hook";
  secret = "x";
  event_types = [];
  disabled = false;
}

abbrev bounces_only : Subscription
bounces_only = record all_events { id = "s2"; event_types = message_bounced ∷ [] }

abbrev two_subscriptions : List Subscription
two_subscriptions = all_events ∷ bounces_only ∷ []

-- A store that lists the two, an endpoint that answers 204.
abbrev endpoint : Parts
endpoint = record {
  store = record {
    State = Unit;
    list_subscriptions = λ ctx vhost s. ok two_subscriptions;
    record_attempt = λ ctx a s. (none, s);
    list_attempts = λ ctx vhost id s. ok [];
  };
  rand = counting;
  smtp_text = λ e. e.text;
  hex_mac = λ secret body. "00";
  new_request = λ url. none;
  do_request = λ r. ok 204;
}

abbrev event : Payload
event = record {
  event_id = "e";
  event_type = message_queued;
  vhost = "a.example";
  created_at = 7;
  content = queued_data "ann@a.example" [];
}

abbrev idle : World endpoint
idle = record { queue = new_backend; history = tt; draws = 0 }

abbrev pending : DeliveryJob
pending = record {
  id = "d1";
  vhost = "a.example";
  subscription_id = "s1";
  url = "https://a.example/hook";
  secret = "x";
  event_id = "e";
  event_type = message_queued;
  payload = event;
  attempts = 0;
  next_attempt_at = 7;
  last_error = "";
  correlation_id = "c1";
}

abbrev busy : World endpoint
busy = record {
  queue = record { jobs = ("d1", pending) ∷ []; claimed = ("d1", true) ∷ [] };
  history = tt;
  draws = 0;
}

deliver_one-Settled_example :
    Settled endpoint default_config pending pending 9
      (deliver_one endpoint default_config none pending 8 9 busy)
unfolding lookup
deliver_one-Settled_example =
    deliver_one-Settled endpoint default_config pending pending 8 9 busy refl

abbrev registered : MemoryStore
registered = record { subscriptions = ("s1", all_events) ∷ []; attempts = [] }

other_tenant : all_events.vhost ≢ "b.example"
other_tenant = λ e. ground (arith, e, eq_iff "a.example" "b.example")

disable_subscription-isolated_example :
    (lookup "s1" (disable_subscription live "b.example" "s1" registered).1.subscriptions
      ≡ some all_events)
    × (live.done ≡ none → list_attempts live "b.example" "s1" registered ≡ ok [])
unfolding lookup
disable_subscription-isolated_example =
    disable_subscription-isolated live "b.example" "s1" "s1" all_events registered refl other_tenant

-- An endpoint that refused the event once.
abbrev past : DeliveryAttempt
past = record {
  id = "t1";
  vhost = "a.example";
  subscription_id = "s1";
  event_id = "e";
  attempt = 1;
  status_code = 500;
  error_text = "";
  attempted_at = 8;
  payload = event;
  event_type = message_queued;
}

abbrev remembering : Parts
remembering = record endpoint {
  store = record {
    State = Unit;
    list_subscriptions = λ ctx vhost s. ok two_subscriptions;
    record_attempt = λ ctx a s. (none, s);
    list_attempts = λ ctx vhost id s. ok (past ∷ []);
  };
}

abbrev resting : World remembering
resting = record { queue = new_backend; history = tt; draws = 0 }

named : pending.id ≢ ""
named = λ e. ground (arith, e, eq_iff "d1" "")

redrive-Redriven_example :
    Redriven remembering default_config "c1" "a.example" "s1" "e" 9 "d1" resting
      (redrive remembering default_config (background "c1") "a.example" "s1" "e" 9 "d1" resting)
redrive-Redriven_example =
    redrive-Redriven remembering default_config "c1" "a.example" "s1" "e" 9 "d1" resting named
