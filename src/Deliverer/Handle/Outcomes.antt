-- ===== src/Deliverer/Handle/Outcomes.antt =====
-- What becomes of a job after one attempt.
use envelope.Prelude.{
  ℕ, ◌+◌, ◌≤◌, ◌<◌, ◌≡◌, refl, ◌⊎◌, inl, inr, pos, pos_part, ltb_ℤ, true, false, Option, none, some,
  String, ◌<>◌, itoa, List, [], ◌∷◌, ◌++◌, arith, Bool-cases, Option-cases,
}
use envelope.Prelude.Dict.{lookup}
use envelope.Context.{Context, Error, message}
use envelope.Queue.{Job}
use envelope.Queue.Backoff.Bounds.{IsDuration, IsPositiveDuration, full_jitter_bounds}
use envelope.Directory.{parse_address, mailbox_path}
use envelope.Deliverer.Bounce.{build_dsn, bounce_target, deliver_bounce}
use envelope.Webhook.{
  EventData, delivered_data, bounced_data, deferred_data, Fired, new_event_payload,
  message_delivered, message_bounced, message_deferred,
}
use envelope.Deliverer.Config.{Config}
use envelope.Deliverer.Classify.{is_permanent}
use envelope.Deliverer.Handle.{
  Parts, Surroundings, World, attempt, next_backoff, fire, fired_event, fire_delivered,
  fire_bounced, fire_deferred, settle, handle,
}
use envelope.Deliverer.Handle.Settled.{
  IsGone, OthersKept, complete-IsGone, IsRetried, fail-IsRetried,
}

module _ (p : Parts) (cfg : Config) where
  -- One event of the kind and content was fired for the job, under its correlation ID, if webhooks are
  -- on.
  abbrev pub Reported :
      Context → Surroundings → Job → String → EventData → List Fired → List Fired → Type 0
  Reported ctx out job kind content old new =
      ((cfg.webhooks ≡ false) × (new ≡ old))
      ⊎ ((cfg.webhooks ≡ true)
          × (new
              ≡ old
                ++ record {
                  ctx = record ctx { correlation_id = job.correlation_id };
                  vhost = job.vhost;
                  event_type = kind;
                  payload = record {
                    event_id = out.event_uuid;
                    event_type = kind;
                    vhost = job.vhost;
                    created_at = out.now;
                    content = content;
                  };
                }
                  ∷ []))

  -- A sender at an active vhost of ours has the notification in the INBOX, with this cause; otherwise
  -- the store is as it was.
  abbrev pub Notified :
      Context → Surroundings → Job → String → p.store.State → p.store.State → Type 0
  Notified ctx out job cause old new =
      ((parse_address job.from ≡ none) × (new ≡ old))
      ⊎ ((local : String) × (domain : String) × (parse_address job.from ≡ some (local, domain))
          × (((p.dir.vhost_active domain ≡ false) × (new ≡ old))
              ⊎ ((p.dir.vhost_active domain ≡ true)
                  × (new
                      ≡ (p.store.write (record ctx { correlation_id = job.correlation_id }) domain
                          (local <> "/INBOX") (build_dsn job cfg.domain cause out.dsn) old).1))))

  -- The delay from `now` is 0 or below the cap of the backoff.
  abbrev pub IsSoon : ℕ → ℕ → Type 0
  IsSoon now next = (now ≤ next) × ((next ≡ now) ⊎ (next < now + pos_part cfg.backoff_max))

  -- The three fates of a job, by the outcome of its attempt; `Timely` is what holds of the time for
  -- which a deferred job is queued.
  pub data Handled (Timely : ℕ → Type 0) (ctx : Context) (out : Surroundings) (job : Job)
      (w : World p) : Option Error → World p → Type 0 where
    delivered :
        {v : World p}
        → IsGone job.id v.queue
        → OthersKept job.id w.queue v.queue
        → Reported ctx out job message_delivered (delivered_data job.from job.to) w.fired v.fired
        → (v.stored ≡ w.stored) × (v.bounces ≡ w.bounces)
        → Handled Timely ctx out job w none v
    bounced :
        (e : Error) (cause : String) {v : World p}
        → ((is_permanent p.temporary e ≡ true) × (cause ≡ message p.smtp_text e))
          ⊎ ((is_permanent p.temporary e ≡ false)
              × (ltb_ℤ (pos (job.attempts + 1)) cfg.max_attempts ≡ false)
              × (cause
                  ≡ "exhausted "
                    <> (itoa cfg.max_attempts
                        <> (" delivery attempts, last error: " <> message p.smtp_text e))))
        → IsGone job.id v.queue
        → OthersKept job.id w.queue v.queue
        → Reported ctx out job message_bounced
            (bounced_data job.from job.to (job.attempts + 1) cause)
            w.fired
            v.fired
        → Notified ctx out job cause w.stored v.stored
        → v.bounces ≡ w.bounces + 1
        → Handled Timely ctx out job w (some e) v
    deferred :
        (e : Error) (next : ℕ) {v : World p}
        → is_permanent p.temporary e ≡ false
        → ltb_ℤ (pos (job.attempts + 1)) cfg.max_attempts ≡ true
        → IsRetried job (message p.smtp_text e) next v.queue × Timely next
        → OthersKept job.id w.queue v.queue
        → Reported ctx out job message_deferred
            (deferred_data job.from job.to (job.attempts + 1) (message p.smtp_text e) next)
            w.fired
            v.fired
        → (v.stored ≡ w.stored) × (v.bounces ≡ w.bounces)
        → Handled Timely ctx out job w (some e) v

  next_backoff-IsSoon :
      IsPositiveDuration cfg.backoff_base
      → IsDuration cfg.backoff_max
      → (now attempts : ℕ) (r : p.rand.State) → IsSoon now (now + (next_backoff p cfg attempts r).0)
  unfolding next_backoff
  next_backoff-IsSoon base cap now attempts r =
      elim (full_jitter_bounds p.rand r (pos attempts) cfg.backoff_base cfg.backoff_max base cap) [
        | inl e ↦ (omega arith, inl (omega (arith, e)))
        | inr (l, k) ↦ (omega arith, inr (omega (arith, l)))
      ]

  deliver_bounce-Notified :
      (ctx : Context) (out : Surroundings) (job : Job) (cause : String) (s : p.store.State)
      → Notified ctx out job cause s (
          deliver_bounce p.store p.dir
            (record ctx { correlation_id = job.correlation_id })
            job
            cfg.domain
            cause
            out.dsn
            s)
  unfolding deliver_bounce bounce_target mailbox_path
  deliver_bounce-Notified ctx out job cause s = elim (Option-cases (parse_address job.from)) [
    | inl e ↦ inl (e, rw (e, deliver_bounce, bounce_target) refl)
    | inr ((local, domain), e) ↦ elim (Bool-cases (p.dir.vhost_active domain)) [
      | inr f ↦ inr (local, domain, e, inl (f, rw (e, f, deliver_bounce, bounce_target) refl))
      | inl t ↦ inr (local, domain, e, inr (t, rw (e, t, deliver_bounce, bounce_target) refl))
    ]
  ]

  module _ (Timely : ℕ → Type 0) (outer : Context) (out : Surroundings) (job : Job) (w : World p)
      (live : outer.done ≡ none) (found : lookup job.id w.queue.jobs ≡ some job)
      (timely : Timely (out.now + (next_backoff p cfg job.attempts w.draws).0)) where
    ctx : Context
    ctx = record outer { correlation_id = job.correlation_id }

    fire-Reported :
        (kind : String) (content : EventData)
        → Reported outer out job kind content w.fired (
            fire p cfg
              (record outer { correlation_id = job.correlation_id })
              out
              job
              kind
              content
              w.fired)
    unfolding fire fired_event new_event_payload
    fire-Reported kind content = elim (Bool-cases cfg.webhooks) [
      | inl on ↦ inr (on, rw (on, fire) refl)
      | inr off ↦ inl (off, rw (off, fire) refl)
    ]

    settle-Handled :
        (outcome : Option Error)
        → Handled Timely outer out job w outcome (settle p cfg ctx out job outcome w)
    unfolding settle fire_delivered fire_bounced fire_deferred ctx
    settle-Handled none =
        let (gone, kept) = complete-IsGone ctx job w.queue live found in
        delivered gone kept (fire-Reported message_delivered _) (refl, refl)
    settle-Handled (some e) = elim (Bool-cases (is_permanent p.temporary e)) [
      | inl hard ↦
          let (gone, kept) = complete-IsGone ctx job w.queue live found in
          rw (hard, settle)
            (bounced e _ (inl (hard, refl)) gone kept (fire-Reported message_bounced _)
              (deliver_bounce-Notified outer out job _ w.stored) refl)
      | inr soft ↦ elim (Bool-cases (ltb_ℤ (pos (job.attempts + 1)) cfg.max_attempts)) [
        | inr last ↦
            let (gone, kept) = complete-IsGone ctx job w.queue live found in
            rw (soft, last, settle)
              (bounced e _ (inr (soft, last, refl)) gone kept (fire-Reported message_bounced _)
                (deliver_bounce-Notified outer out job _ w.stored) refl)
        | inl more ↦
            let (delay, draws) = next_backoff p cfg job.attempts w.draws in
            let cause = message p.smtp_text e in
            let (again, kept) = fail-IsRetried ctx job cause (out.now + delay) w.queue live found in
            rw (soft, more, settle)
              (deferred e (out.now + delay) soft more (again, timely) kept
                (fire-Reported message_deferred _) (refl, refl))
      ]
    ]

    pub handle_any :
        Handled Timely outer out job w
          (attempt p cfg (record outer { correlation_id = job.correlation_id }) out job w.stored)
          (handle p cfg outer out job w)
    unfolding handle ctx
    handle_any =
        settle-Handled
          (attempt p cfg (record outer { correlation_id = job.correlation_id }) out job w.stored)

  -- handle settles a claimed job. Delivered: it leaves the queue and message.delivered is fired.
  -- Permanently failed, or out of attempts: it leaves the queue, one bounce is counted,
  -- message.bounced is fired, and a sender at an active vhost gets the delivery status notification
  -- in the INBOX. Otherwise it is queued again, unclaimed and with one attempt more, for a time
  -- between now and the backoff's cap, and message.deferred is fired. Nothing else is stored and no
  -- other job changes, and events are fired only if an Enqueuer is configured, under the job's
  -- correlation ID. The backoff's base is positive, and it and the cap are at most 2 ^ 53 nanoseconds.
  pub handle-Handled :
      (outer : Context) (out : Surroundings) (job : Job) (w : World p)
      → IsPositiveDuration cfg.backoff_base
      → IsDuration cfg.backoff_max
      → outer.done ≡ none
      → lookup job.id w.queue.jobs ≡ some job
      → Handled
          (IsSoon out.now)
          outer
          out
          job
          w
          (attempt p cfg (record outer { correlation_id = job.correlation_id }) out job w.stored)
          (handle p cfg outer out job w)
  handle-Handled outer out job w base cap live found =
      handle_any (IsSoon out.now) outer out job w live found
        (next_backoff-IsSoon base cap out.now job.attempts w.draws)
