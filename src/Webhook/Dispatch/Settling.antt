-- ===== src/Webhook/Dispatch/Settling.antt =====
-- A delivery attempt, up to the job's place in the queue after it.
use envelope.Prelude.{
  ℕ, ◌+◌, ◌≤◌, ◌<◌, ◌≡◌, refl, ◌∙◌, pos, ltb, ltb_ℤ, ◌<>◌, ◌⊎◌, Option-cases, true, false,
  Bool-cases, Option, none, some, inl, inr, String, eq_refl, arith,
}
use envelope.Prelude.Dict.{lookup, lookup-insert, lookup-delete}
use envelope.Context.{background, Error, Result, ok, err}
use envelope.Queue.Claims.{Backend, complete, fail, is_claimed}
use envelope.Queue.Claims.Invariant.{is_claimed-delete}
use envelope.Webhook.{DeliveryJob, event_queue, reschedule}
use envelope.Webhook.Dispatch.{
  Parts, Config, World, Request, sign, answer, delivery, send, retry, settle, deliver_one,
}

module _ (p : Parts) (cfg : Config) where
  -- The request of a job: its payload to its URL, signed with its secret.
  abbrev pub request_of : DeliveryJob → Request
  request_of job = record {
    url = job.url;
    signature = "sha256=" <> p.hex_mac job.secret job.payload;
    event_type = job.event_type;
    body = job.payload;
  }

  -- The endpoint answered with a status from 200 to 299.
  abbrev pub Accepted : DeliveryJob → Type 0
  Accepted job =
      (p.new_request job.url ≡ none)
      × ((code : ℕ) × (p.do_request (request_of job) ≡ ok code) × (200 ≤ code) × (code < 300))

  -- No request could be made, it failed, or the endpoint answered with another status.
  abbrev pub Failed : DeliveryJob → Type 0
  Failed job =
      ((x : Error) × (p.new_request job.url ≡ some x))
      ⊎ (((p.new_request job.url ≡ none) × ((x : Error) × (p.do_request (request_of job) ≡ err x)))
          ⊎ ((p.new_request job.url ≡ none)
              × ((code : ℕ) × (p.do_request (request_of job) ≡ ok code)
                  × ((code < 200) ⊎ (300 ≤ code)))))

  -- What becomes of a job `held` in the queue when its attempt has gone out.
  pub data Settled (job held : DeliveryJob) (now : ℕ) (w : World p) : Type 0 where
    delivered : Accepted job → lookup job.id w.queue.jobs ≡ none → Settled job held now w
    dead_lettered :
        Failed job
        → ltb_ℤ (pos (job.attempts + 1)) cfg.max_attempts ≡ false
        → lookup job.id w.queue.jobs ≡ none
        → Settled job held now w
    retried :
        (text : String) (next : ℕ)
        → Failed job
        → ltb_ℤ (pos (job.attempts + 1)) cfg.max_attempts ≡ true
        → now ≤ next
        → lookup job.id w.queue.jobs
          ≡ some (record held {
            attempts = held.attempts + 1;
            next_attempt_at = next;
            last_error = text;
          })
        → is_claimed w.queue.claimed job.id ≡ false
        → Settled job held now w

  Outcome : DeliveryJob → Option Error → Type 0
  Outcome job none = Accepted job
  Outcome job (some e) = Failed job

  answer-Outcome :
      (job : DeliveryJob) (r : Result ℕ)
      → p.new_request job.url ≡ none
      → p.do_request (request_of job) ≡ r
      → Outcome job (answer p cfg r).1
  unfolding answer Outcome
  answer-Outcome job (err x) h e = inr (inl (h, (x, e)))
  answer-Outcome job (ok code) h e = elim (Bool-cases (ltb code 200)) [
    | inl low ↦ rw (low, answer) (inr (inr (h, (code, e, inl (ground (arith, low))))))
    | inr high ↦ elim (Bool-cases (ltb code 300)) [
      | inl good ↦
          rw (high, good, answer) (h, (code, e, ground (arith, high), ground (arith, good)))
      | inr bad ↦ rw (high, bad, answer) (inr (inr (h, (code, e, inr (ground (arith, bad))))))
    ]
  ]

  send-Outcome : (job : DeliveryJob) → Outcome job (send p cfg job).1
  unfolding send delivery sign Outcome
  send-Outcome job = elim (Option-cases (p.new_request job.url)) [
    | inr (x, h) ↦ rw (h, send, delivery) (inl (x, h))
    | inl h ↦ rw (h, send, delivery) (answer-Outcome job _ h refl)
  ]

  module _ (correlation_id : String) where
    completed :
        (id : String) (held : DeliveryJob) (m : Backend DeliveryJob)
        → lookup id m.jobs ≡ some held
        → lookup id (complete event_queue (background correlation_id) id m).1.jobs ≡ none
    unfolding complete
    completed id held m e = rw (e, complete) (lookup-delete id id m.jobs ∙ simp eq_refl refl)

    failed :
        (id : String) (held : DeliveryJob) (cause : Option String) (next : ℕ)
        (m : Backend DeliveryJob)
        → lookup id m.jobs ≡ some held
        → (lookup id (fail event_queue (background correlation_id) id cause next m).1.jobs
            ≡ some (reschedule held cause next))
          × (is_claimed (fail event_queue (background correlation_id) id cause next m).1.claimed id
              ≡ false)
    unfolding fail event_queue
    failed id held cause next m e =
        rw (e, fail)
          (
            lookup-insert id id _ m.jobs ∙ simp eq_refl refl,
            is_claimed-delete id id m.claimed ∙ simp eq_refl refl,
          )

    retried-Settled :
        (job held : DeliveryJob) (e : Error) (now : ℕ) (w : World p)
        → lookup job.id w.queue.jobs ≡ some held
        → Failed job
        → ltb_ℤ (pos (job.attempts + 1)) cfg.max_attempts ≡ true
        → Settled job held now (retry p cfg (background correlation_id) job e now w)
    unfolding retry reschedule
    retried-Settled job held e now w h k l =
        let r = failed job.id held _ _ w.queue h in retried _ _ k l (omega arith) r.0 r.1

    settle-Settled :
        (job held : DeliveryJob) (now : ℕ) (outcome : Option Error) (w : World p)
        → Outcome job outcome
        → lookup job.id w.queue.jobs ≡ some held
        → Settled job held now (settle p cfg (background correlation_id) job outcome now w)
    unfolding settle Outcome
    settle-Settled job held now none w k h = delivered k (completed job.id held w.queue h)
    settle-Settled job held now (some e) w k h =
        elim (Bool-cases (ltb_ℤ (pos (job.attempts + 1)) cfg.max_attempts)) [
          | inl l ↦ simp (l, settle) (retried-Settled job held e now w h k l)
          | inr l ↦ simp (l, settle) (dead_lettered k l (completed job.id held w.queue h))
        ]

  -- After an attempt on a job that the queue holds, under a context that is not cancelled: the job is
  -- gone if the endpoint answered with a status from 200 to 299, or if this was the last attempt
  -- allowed; otherwise it is rescheduled with one more attempt, not before the present, and without a
  -- claim.
  pub deliver_one-Settled :
      (job held : DeliveryJob) (attempted now : ℕ) (w : World p)
      → lookup job.id w.queue.jobs ≡ some held
      → Settled job held now (deliver_one p cfg none job attempted now w)
  unfolding deliver_one
  deliver_one-Settled job held attempted now w h =
      settle-Settled job.correlation_id job held now (send p cfg job).1 _ (send-Outcome job) h
