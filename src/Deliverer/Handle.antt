-- ===== src/Deliverer/Handle.antt =====
-- internal/deliverer/deliverer.go: one delivery attempt, and what becomes of its outcome. The
-- clock is read as arguments; log lines are left out.
pub mod Settled
pub mod Outcomes
pub mod Retries
use envelope.Prelude.{
  ℕ, ◌+◌, ℤ, pos, ltb_ℤ, Bool, true, false, Option, none, some, String, ◌<>◌, ◌=ₛ◌, quote, itoa,
  List, [], ◌∷◌, ◌++◌, if◌then◌else◌,
}
use envelope.Context.{Context, SmtpError, Error, plain, wrap, Result, ok, err, message}
use envelope.Storage.{Store, outbox_mailbox}
use envelope.Directory.{Directory, parse_address}
use envelope.Queue.{Job, job_type}
use envelope.Queue.Claims.{Backend, complete, fail}
use envelope.Queue.Backoff.{Rand, full_jitter}
use envelope.Webhook.{
  EventData, delivered_data, bounced_data, deferred_data, Fired, new_event_payload,
  message_delivered, message_bounced, message_deferred,
}
use envelope.Deliverer.Config.{Config}
use envelope.Deliverer.Classify.{permanent_err, temporary_err, is_permanent}
use envelope.Deliverer.Send.{Mx, Network, lookup_mx, send}
use envelope.Deliverer.Bounce.{DsnInputs, deliver_bounce}

-- What the deliverer runs on: go-smtp's errors, the store, the directory and the random source.
pub record Parts : Type 1 where
  pub temporary : SmtpError → Bool
  pub smtp_text : SmtpError → String
  pub store : Store
  pub dir : Directory
  pub rand : Rand

-- What one attempt finds outside: the resolver's answer for a domain, the network of each host,
-- the time, and fresh UUIDs.
pub record Surroundings : Type 1 where
  pub resolver : String → Result (List Mx)
  pub nets : ℕ → Network
  pub now : ℕ
  pub event_uuid : String
  pub dsn : DsnInputs

-- The state that a Deliverer and its collaborators share.
pub record World (p : Parts) : Type 0 where
  pub queue : Backend Job
  pub stored : p.store.State
  pub fired : List Fired
  pub bounces : ℕ
  pub draws : p.rand.State

-- The domain of the recipient, or the whole of a malformed address.
unfoldable pub destination_domain : String → String
destination_domain rcpt = elim (parse_address rcpt) [ none ↦ rcpt | some (local, domain) ↦ domain ]

module _ (p : Parts) (cfg : Config) where
  read_failed : Error → Error
  unfolding temporary_err
  read_failed e = temporary_err (wrap "deliverer: read staged body: " e)

  send_read : Surroundings → List Mx → Job → Result (Result String) → Option Error
  unfolding read_failed
  send_read out mxs job (err e) = some (read_failed e)
  send_read out mxs job (ok (err e)) = some (read_failed e)
  send_read out mxs job (ok (ok body)) = send out.nets p.temporary mxs cfg job body

  unfoldable pub attempt : Context → Surroundings → Job → p.store.State → Option Error
  unfolding send_read permanent_err
  attempt ctx out job s =
      let domain = destination_domain job.to in
      if domain =ₛ job.to
      then some (permanent_err (plain ("deliverer: malformed recipient address " <> quote job.to)))
      else elim (lookup_mx (out.resolver domain) domain) [
        | err e ↦ some e
        | ok mxs ↦ send_read out mxs job (
            p.store.read ctx
              (record { vhost = job.vhost; mailbox = outbox_mailbox; key = job.body_ref }) s)
      ]

  fired_event : Context → Surroundings → Job → String → EventData → Fired
  fired_event ctx out job event_type content = record {
    ctx = ctx;
    vhost = job.vhost;
    event_type = event_type;
    payload = new_event_payload out.event_uuid event_type job.vhost out.now content;
  }

  -- Nothing is fired where no Enqueuer is configured.
  fire : Context → Surroundings → Job → String → EventData → List Fired → List Fired
  unfolding fired_event
  fire ctx out job event_type content log =
      if cfg.webhooks then log ++ fired_event ctx out job event_type content ∷ [] else log

  unfoldable pub fire_delivered : Context → Surroundings → Job → List Fired → List Fired
  unfolding fire
  fire_delivered ctx out job = fire ctx out job message_delivered (delivered_data job.from job.to)

  unfoldable pub fire_bounced : Context → Surroundings → Job → String → List Fired → List Fired
  unfolding fire
  fire_bounced ctx out job cause =
      fire ctx out job message_bounced (bounced_data job.from job.to (job.attempts + 1) cause)

  unfoldable pub fire_deferred : Context → Surroundings → Job → String → ℕ → List Fired → List Fired
  unfolding fire
  fire_deferred ctx out job cause next =
      fire ctx out job message_deferred
        (deferred_data job.from job.to (job.attempts + 1) cause next)

  unfoldable pub next_backoff : ℕ → p.rand.State → ℕ × p.rand.State
  next_backoff attempts = full_jitter p.rand (pos attempts) cfg.backoff_base cfg.backoff_max

  on_delivered : Context → Surroundings → Job → World p → World p
  on_delivered ctx out job w = record w {
    queue = (complete job_type ctx job.id w.queue).1;
    fired = fire_delivered ctx out job w.fired;
  }

  -- Both ways to give up: the cause's text differs.
  on_bounced : Context → Surroundings → Job → String → World p → World p
  on_bounced ctx out job cause w = record w {
    queue = (complete job_type ctx job.id w.queue).1;
    stored = deliver_bounce p.store p.dir ctx job cfg.domain cause out.dsn w.stored;
    fired = fire_bounced ctx out job cause w.fired;
    bounces = w.bounces + 1;
  }

  on_deferred : Context → Surroundings → Job → String → World p → World p
  on_deferred ctx out job cause w =
      let (delay, draws) = next_backoff job.attempts w.draws in
      let next = out.now + delay in
      record w {
        queue = (fail job_type ctx job.id (some cause) next w.queue).1;
        fired = fire_deferred ctx out job cause next w.fired;
        draws = draws;
      }

  exhausted : String → String
  exhausted cause =
      "exhausted " <> (itoa cfg.max_attempts <> (" delivery attempts, last error: " <> cause))

  unfoldable pub settle : Context → Surroundings → Job → Option Error → World p → World p
  unfolding on_delivered on_bounced on_deferred exhausted
  settle ctx out job none w = on_delivered ctx out job w
  settle ctx out job (some e) w =
      let cause = message p.smtp_text e in
      if is_permanent p.temporary e
      then on_bounced ctx out job cause w
      else if ltb_ℤ (pos (job.attempts + 1)) cfg.max_attempts
      then on_deferred ctx out job cause w
      else on_bounced ctx out job (exhausted cause) w

  -- handle; the context of Run carries no correlation ID, so that attaching the job's sets it.
  unfoldable pub handle : Context → Surroundings → Job → World p → World p
  handle outer out job w =
      let ctx = record outer { correlation_id = job.correlation_id } in
      settle ctx out job (attempt ctx out job w.stored) w
