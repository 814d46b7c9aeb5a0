-- ===== src/Deliverer/Tests.antt =====
-- The deliverer on one job, with peers that accept, defer or refuse it.
use envelope.Prelude.{
  arith, ◌≡◌, ◌<◌, ◌⊎◌, ℕ, ◌≤◌, refl, pos, true, Option, none, some, List, [], ◌∷◌,
}
use envelope.Prelude.Dict.{lookup, insert}
use envelope.Context.{Error, ok}
use envelope.Samples.{
  live, counting, shelf_store, peer, four_hundreds, reply, first_job, hosts_nothing,
}
use envelope.Queue.{job_type}
use envelope.Queue.Claims.{new_backend, enqueue}
use envelope.Queue.Claims.Invariant.{new_backend-Inv, enqueue-Inv}
use envelope.Deliverer.Config.{Config, with_defaults}
use envelope.Deliverer.Send.{Mx, lookup_mx, send}
use envelope.Deliverer.Send.Preference.{Looked, lookup_mx-Looked}
use envelope.Deliverer.Send.Outcome.{Sent, answers_from, send-Sent}
use envelope.Deliverer.Semaphore.{
  DomainSemaphores, Running, Reach, here, next, enters, leaves, start, new_domain_semaphores, taken,
  acquire, release,
}
use envelope.Deliverer.Semaphore.Limit.{running_for, running_for-le-limit}
use envelope.Deliverer.Handle.{Parts, Surroundings, World, attempt, handle}
use envelope.Deliverer.Handle.Outcomes.{Handled, IsSoon, handle-Handled}
use envelope.Deliverer.Handle.Retries.{attempts_made, attempts_made-le-left}

abbrev parts : Parts
parts = record {
  temporary = four_hundreds;
  smtp_text = λ e. e.text;
  store = shelf_store;
  dir = hosts_nothing;
  rand = counting;
}

abbrev plain_config : Config
plain_config = record {
  webhooks = true;
  domain = "mx.example";
  port = pos 25;
  backoff_base = pos 100;
  backoff_max = pos 1000;
  max_attempts = pos 3;
  per_domain_concurrency = pos 2;
  poll_interval = pos 1;
  dial_timeout = pos 1;
  queue_depth_sample_interval = pos 1;
}

abbrev two_hosts : List Mx
two_hosts = record { host = "mx2."; pref = 20 } ∷ record { host = "mx1."; pref = 10 } ∷ []

abbrev answering : Option Error → ℕ → Surroundings
answering r now = record {
  resolver = λ domain. ok two_hosts;
  nets = λ n. peer r;
  now = now;
  event_uuid = "e1";
  dsn = record { date = "today"; boundary_id = "b"; message_id = "m" };
}

abbrev queued : World parts
queued = record {
  queue = (enqueue job_type live first_job new_backend).1;
  stored = [];
  fired = [];
  bounces = 0;
  draws = 0;
}

handle-Handled_example :
    Handled parts plain_config
      (IsSoon parts plain_config 9)
      live
      (answering none 9)
      first_job
      queued
      (attempt parts plain_config live (answering none 9) first_job [])
      (handle parts plain_config live (answering none 9) first_job queued)
unfolding enqueue job_type lookup insert new_backend
handle-Handled_example =
    handle-Handled parts plain_config live (answering none 9) first_job queued
      (100, refl, omega arith, omega arith) (1000, refl, omega arith) refl refl

attempts_made-le-left_example :
    attempts_made parts plain_config live "j1" (answering none 9 ∷ answering none 10 ∷ []) queued
    ≤ 3
unfolding enqueue job_type lookup insert new_backend
attempts_made-le-left_example =
    attempts_made-le-left parts plain_config live "j1" (answering none 9 ∷ answering none 10 ∷ [])
      queued refl (enqueue-Inv job_type live first_job new_backend (new_backend-Inv job_type))

send-Sent_example :
    Sent four_hundreds
      (answers_from
        (λ n. peer (some (reply 450)))
        four_hundreds
        0
        two_hosts
        plain_config
        first_job
        "x")
      (send (λ n. peer (some (reply 450))) four_hundreds two_hosts plain_config first_job "x")
send-Sent_example =
    send-Sent (λ n. peer (some (reply 450))) four_hundreds two_hosts plain_config first_job "x"

lookup_mx-Looked_example : Looked (ok two_hosts) (lookup_mx (ok two_hosts) "b.example")
lookup_mx-Looked_example = lookup_mx-Looked (ok two_hosts) "b.example"

-- Two goroutines deliver to one domain, and one of them is done.
abbrev one_left : Running
one_left = record {
  slots = release "b.example" (record { sems = ("b.example", 2) ∷ []; limit = 2 });
  domains = "b.example" ∷ [];
}

one_left-Reach : Reach (start (with_defaults plain_config).per_domain_concurrency) one_left
unfolding start new_domain_semaphores with_defaults acquire taken release lookup insert
one_left-Reach =
    next (next (next here (enters "b.example" refl)) (enters "b.example" refl))
      (leaves [] "b.example" ("b.example" ∷ []) refl)

running_for-le-limit_example :
    (running_for "b.example" one_left.domains ≤ 2)
    × (((running_for "b.example" one_left.domains < 2)
          × ((d : DomainSemaphores) × (acquire "b.example" one_left.slots ≡ some d)))
        ⊎ ((running_for "b.example" one_left.domains ≡ 2)
            × (acquire "b.example" one_left.slots ≡ none)))
running_for-le-limit_example = running_for-le-limit plain_config "b.example" one_left-Reach
