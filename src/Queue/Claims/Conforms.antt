-- ===== src/Queue/Claims/Conforms.antt =====
-- The in-memory retry queues against the contract of a backend.
use envelope.Prelude.{
  ℕ, refl, String, arith, ◌=ₛ◌, eq_iff, false, Bool-cases, inl, inr, Option, Option-cases, List,
}
use envelope.Prelude.Dict.{lookup, lookup-insert, lookup-delete}
use envelope.Context.{Context, Error, Result}
use envelope.Queue.Claims.{
  RetryJob, IsLawful, Backend, is_claimed, new_backend, enqueue, dequeue, complete, fail,
}
use envelope.Queue.Claims.Invariant.{
  Inv, Dequeued, stopped, idle, served, dequeue_lem, new_backend-Inv, is_claimed-insert,
  is_claimed-delete,
}
use envelope.Queue.Claims.Traces.{Call, enqueues, dequeues, completes, fails, run, run-Inv}
use envelope.Queue.Contract.{
  View, Does, halted, unnamed, queued, nothing_due, handed_out, no_such_job, completed,
  nothing_to_fail, put_off, answer,
}

-- The context of a call.
abbrev pub context : {J : Type 0} → Call J → Context
context (enqueues ctx job) = ctx
context (dequeues ctx now) = ctx
context (completes ctx id) = ctx
context (fails ctx id cause next) = ctx

-- What a caller can tell of the queue: an ID may be used again, and its job is then replaced.
abbrev pub view : {J : Type 0} → Backend J → View J
view m = record {
  job = λ k. lookup k m.jobs;
  held = λ k. is_claimed m.claimed k;
  used = λ k. false;
}

module _ {J : Type 0} (q : RetryJob J) where
  -- A call on the queue, with its answer.
  abbrev pub perform : Call J → Backend J → Result (Option J) × Backend J
  perform (enqueues ctx job) m = let (e, after) = enqueue q ctx job m in (answer e, after)
  perform (dequeues ctx now) m = dequeue q ctx now m
  perform (completes ctx id) m = let (e, after) = complete q ctx id m in (answer e, after)
  perform (fails ctx id cause next) m =
      let (e, after) = fail q ctx id cause next m in (answer e, after)

  enqueue-Does :
      (ctx : Context) (job : J) (m : Backend J)
      → let r = perform (enqueues ctx job) m in
        Does q ctx.done (view m) (enqueues ctx job) r.0 (view r.1)
  unfolding enqueue
  enqueue-Does ctx job m = elim (Option-cases ctx.done) [
    | inr (x, e) ↦ rw (e, enqueue) (halted _ (λ h. absurd (cc h)))
    | inl e ↦ elim (Bool-cases (q.id job =ₛ "")) [
      | inl n ↦ rw (e, n, enqueue) (unnamed _ ((eq_iff (q.id job) "").0 n))
      | inr n ↦
          rw (e, n, enqueue)
            (queued (λ h. ground (arith, h, n, eq_iff (q.id job) ""))
              (λ k. lookup-insert (q.id job) k job m.jobs) (λ k. refl))
    ]
  ]

  Dequeued-Does :
      (ctx : Context) (now : ℕ) (m : Backend J) (halt : Option Error)
      (r : Result (Option J) × Backend J)
      → Dequeued q halt now m r
      → Does q halt (view m) (dequeues ctx now) r.0 (view r.1)
  Dequeued-Does ctx now m halt r (stopped h) = halted _ (λ e. absurd (cc (h, e)))
  Dequeued-Does ctx now m halt r (idle h no_job) = nothing_due no_job
  Dequeued-Does ctx now m halt r (served j h e first) =
      handed_out (q.id j) j e first (λ i. refl) (λ i. is_claimed-insert (q.id j) i _ m.claimed)

  complete-Does :
      (ctx : Context) (id : String) (m : Backend J)
      → let r = perform (completes ctx id) m in
        Does q ctx.done (view m) (completes ctx id) r.0 (view r.1)
  unfolding complete
  complete-Does ctx id m = elim (Option-cases ctx.done) [
    | inr (x, e) ↦ rw (e, complete) (halted _ (λ h. absurd (cc h)))
    | inl e ↦ elim (Option-cases (lookup id m.jobs)) [
      | inl f ↦ rw (e, f, complete) (no_such_job _ f)
      | inr (job, f) ↦
          rw (e, f, complete)
            (completed job f (λ k. lookup-delete id k m.jobs)
              (λ k. is_claimed-delete id k m.claimed))
    ]
  ]

  fail-Does :
      (ctx : Context) (id : String) (cause : Option String) (next : ℕ) (m : Backend J)
      → let r = perform (fails ctx id cause next) m in
        Does q ctx.done (view m) (fails ctx id cause next) r.0 (view r.1)
  unfolding fail
  fail-Does ctx id cause next m = elim (Option-cases ctx.done) [
    | inr (x, e) ↦ rw (e, fail) (halted _ (λ h. absurd (cc h)))
    | inl e ↦ elim (Option-cases (lookup id m.jobs)) [
      | inl f ↦ rw (e, f, fail) (nothing_to_fail _ f)
      | inr (job, f) ↦
          rw (e, f, fail)
            (put_off job f (λ k. lookup-insert id k _ m.jobs)
              (λ k. is_claimed-delete id k m.claimed))
    ]
  ]

  perform-Conforms :
      (c : Call J) (m : Backend J)
      → Inv q m
      → let r = perform c m in Does q (context c).done (view m) c r.0 (view r.1)
  perform-Conforms (enqueues ctx job) m v = enqueue-Does ctx job m
  perform-Conforms (dequeues ctx now) m v =
      Dequeued-Does ctx now m ctx.done (dequeue q ctx now m) (dequeue_lem q ctx now m v)
  perform-Conforms (completes ctx id) m v = complete-Does ctx id m
  perform-Conforms (fails ctx id cause next) m v = fail-Does ctx id cause next m

  -- After any calls on a new queue, each further call does what the contract of a backend says: it
  -- fails only if its context is done, for a job without an ID, and for an ID under which no
  -- job is; otherwise it does its work and nothing else. Dequeue hands out an unclaimed job that is
  -- due, none being due earlier, and claims it. Rescheduling a job must keep its ID.
  pub after_run-Conforms :
      (lawful : IsLawful q) (cs : List (Call J)) (c : Call J)
      → let m = run q cs new_backend in
        let r = perform c m in Does q (context c).done (view m) c r.0 (view r.1)
  after_run-Conforms lawful cs c =
      perform-Conforms c (run q cs new_backend)
        (run-Inv q lawful cs new_backend (new_backend-Inv q))
