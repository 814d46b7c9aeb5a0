-- ===== src/Deliverer/Handle/Retries.antt =====
-- Run, one claimed job after the other: how often one message can be attempted.
use envelope.Prelude.{
  ℕ, suc, ◌+◌, ◌-◌, ◌≤◌, ◌≡◌, ◌≢◌, inl, inr, pos, pos_part, ltb_ℤ, true, Option, none, some, String,
  ◌=ₛ◌, eq_iff, ap, subst, List, [], ◌∷◌, arith, Bool-cases, if◌then◌else◌,
}
use envelope.Prelude.Dict.{lookup, insert}
use envelope.Context.{Context, Error, Result, ok, err}
use envelope.Queue.{Job, job_type, job_type-IsLawful}
use envelope.Queue.Claims.{Backend, dequeue}
use envelope.Queue.Claims.Invariant.{
  Inv, Dequeued, stopped, idle, served, dequeue_lem, dequeue-Inv, complete-Inv, fail-Inv,
}
use envelope.Deliverer.Config.{Config}
use envelope.Deliverer.Classify.{is_permanent}
use envelope.Deliverer.Handle.{Parts, Surroundings, World, attempt, settle, handle}
use envelope.Deliverer.Handle.Outcomes.{Handled, delivered, bounced, deferred, handle_any}

module _ (p : Parts) (cfg : Config) (ctx : Context) where
  handle_claimed : Surroundings → Result (Option Job) → World p → World p
  handle_claimed out (ok (some job)) w = handle p cfg ctx out job w
  handle_claimed out _ w = w

  -- One turn of the loop of Run: a due job is claimed and handled, or none is due. The goroutines
  -- of the source run after one another.
  unfoldable pub turn : Surroundings → World p → World p
  unfolding handle_claimed
  turn out w =
      let (claimed, queue) = dequeue job_type ctx out.now w.queue in
      handle_claimed out claimed (record w { queue = queue })

  one_if : String → Result (Option Job) → ℕ
  one_if id (ok (some job)) = if job.id =ₛ id then 1 else 0
  one_if id _ = 0

  -- How many of the turns attempt the job `id`.
  pub attempts_made : String → List Surroundings → World p → ℕ
  attempts_made id [] w = 0
  attempts_made id (out ∷ outs) w =
      one_if id (dequeue job_type ctx out.now w.queue).0 + attempts_made id outs (turn out w)

  -- The attempts that the job `id` has left.
  abbrev pub left : Option Job → ℕ
  left none = 0
  left (some job) = suc (pos_part cfg.max_attempts - suc job.attempts)

  settle-Inv :
      (c : Context) (out : Surroundings) (job : Job) (outcome : Option Error) (w : World p)
      → Inv job_type w.queue
      → Inv job_type (settle p cfg c out job outcome w).queue
  unfolding settle
  settle-Inv c out job none w v = complete-Inv job_type c job.id w.queue v
  settle-Inv c out job (some e) w v = elim (Bool-cases (is_permanent p.temporary e)) [
    | inl hard ↦ rw (hard, settle) (complete-Inv job_type c job.id w.queue v)
    | inr soft ↦ elim (Bool-cases (ltb_ℤ (pos (job.attempts + 1)) cfg.max_attempts)) [
      | inl more ↦
          rw (soft, more, settle) (fail-Inv job_type job_type-IsLawful c job.id _ _ w.queue v)
      | inr last ↦ rw (soft, last, settle) (complete-Inv job_type c job.id w.queue v)
    ]
  ]

  pub turn-Inv :
      (out : Surroundings) (w : World p) → Inv job_type w.queue → Inv job_type (turn out w).queue
  unfolding turn handle
  turn-Inv out w v =
      handled (dequeue job_type ctx out.now w.queue).0
        (record w { queue = (dequeue job_type ctx out.now w.queue).1 })
        (dequeue-Inv job_type ctx out.now w.queue v)
    where
      handled :
          (r : Result (Option Job)) (u : World p)
          → Inv job_type u.queue
          → Inv job_type (handle_claimed out r u).queue
      handled (ok (some job)) u i =
          settle-Inv (record ctx { correlation_id = job.correlation_id }) out job
            (attempt p cfg (record ctx { correlation_id = job.correlation_id }) out job u.stored) u
            i
      handled (ok none) u i = i
      handled (err e) u i = i

  -- Handling a job uses one of its attempts up.
  Handled-left_self :
      {out : Surroundings} {job : Job} {w : World p} {outcome : Option Error} {after : World p}
      → lookup job.id w.queue.jobs ≡ some job
      → Handled p cfg (λ t. Unit) ctx out job w outcome after
      → 1 + left (lookup job.id after.queue.jobs) ≤ left (lookup job.id w.queue.jobs)
  Handled-left_self found (delivered gone kept told rest) = rw (gone.0, found) (omega arith)
  Handled-left_self found (bounced e cause why gone kept told notified rest) =
      rw (gone.0, found) (omega arith)
  Handled-left_self {job} found (deferred e next soft more again kept told rest) =
      rw (again.0.0, found) (ground arith)

  Handled-left_other :
      (id : String) {out : Surroundings} {job : Job} {w : World p} {outcome : Option Error}
      {after : World p}
      → job.id ≢ id
      → Handled p cfg (λ t. Unit) ctx out job w outcome after
      → left (lookup id after.queue.jobs) ≡ left (lookup id w.queue.jobs)
  Handled-left_other id other (delivered gone kept told rest) = ap left (kept id other).0
  Handled-left_other id other (bounced e cause why gone kept told notified rest) =
      ap left (kept id other).0
  Handled-left_other id other (deferred e next soft more again kept told rest) =
      ap left (kept id other).0

  turn-left :
      (id : String) (out : Surroundings) (w : World p)
      → ctx.done ≡ none
      → Inv job_type w.queue
      → one_if id (dequeue job_type ctx out.now w.queue).0
          + left (lookup id (turn out w).queue.jobs)
        ≤ left (lookup id w.queue.jobs)
  unfolding turn one_if job_type
  turn-left id out w live v = counted (dequeue_lem job_type ctx out.now w.queue v)
    where
      counted :
          {r : Result (Option Job) × Backend Job}
          → Dequeued job_type ctx.done out.now w.queue r
          → one_if id r.0
              + left (lookup id (handle_claimed out r.0 (record w { queue = r.1 })).queue.jobs)
            ≤ left (lookup id w.queue.jobs)
      counted (stopped e) = omega arith
      counted (idle e no_job) = omega arith
      counted (served j e found first) =
          let u : World p = record w {
            queue = record w.queue { claimed = insert j.id true w.queue.claimed };
          } in
          let fate = handle_any p cfg (λ t. Unit) ctx out j u live found.0 tt in
          elim (Bool-cases (j.id =ₛ id)) [
            | inl same ↦ rw same (
                subst
                  (λ k.
                    1 + left (lookup k (handle p cfg ctx out j u).queue.jobs)
                    ≤ left (lookup k w.queue.jobs))
                  ((eq_iff j.id id).0 same) (Handled-left_self found.0 fate))
            | inr other ↦
                rw (other, Handled-left_other id (λ e. cc (other, (eq_iff j.id id).1 e)) fate)
                  (omega arith)
          ]

  -- However often the deliverer runs and whatever the network answers, a job is attempted at most
  -- as often as it has attempts left: MaxAttempts times if it is new (once if MaxAttempts is 0).
  pub attempts_made-le-left :
      (id : String) (outs : List Surroundings) (w : World p)
      → ctx.done ≡ none
      → Inv job_type w.queue
      → attempts_made id outs w ≤ left (lookup id w.queue.jobs)
  unfolding attempts_made
  attempts_made-le-left id [] w live v = omega arith
  attempts_made-le-left id (out ∷ outs) w live v = omega (
    arith,
    turn-left id out w live v,
    attempts_made-le-left id outs (turn out w) live (turn-Inv out w v),
  )
