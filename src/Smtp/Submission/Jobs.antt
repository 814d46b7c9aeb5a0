-- ===== src/Smtp/Submission/Jobs.antt =====
-- The jobs that the loop of Data leaves in the queue.
use envelope.Prelude.{
  ℕ, suc, ◌<◌, ◌≤◌, ◌≡◌, ap, ◌∙◌, refl, Option, none, some, Option-cases, inl, inr, String, eq_refl,
  List, [], ◌∷◌, take, length, arith,
}
use envelope.Prelude.Dict.{Dict, lookup, insert, lookup-insert}
use envelope.Context.{background, Error, ok, Result-cases}
use envelope.Uuids.{AreFresh, other_uuid}
use envelope.Storage.{MessageRef, outbox_mailbox}
use envelope.Queue.{Job, job_type}
use envelope.Queue.Claims.{enqueue}
use envelope.Queue.Claims.Enqueueing.{enqueue_live}
use envelope.Smtp.{Config}
use envelope.Smtp.Submission.{Parts, Session, World, new_job, queue_one, queue_all}

-- The job of a recipient: from the session's vhost and sender, not attempted yet, and due now.
abbrev pub due_job : String → Session → String → String → ℕ → Job
due_job id s to body_ref now = record {
  id = id;
  vhost = s.auth_vhost;
  from = s.from;
  to = to;
  body_ref = body_ref;
  attempts = 0;
  next_attempt_at = now;
  last_error = "";
  correlation_id = s.correlation_id;
}

module _ (p : Parts) (cfg : Config) where
  -- A write of the signed message to the session's outbox gave it this key.
  abbrev pub IsStaged : Session → String → String → Type 0
  IsStaged s signed key =
      (stored : p.store.State) × (ref : MessageRef) × ((p.store.write (background s.correlation_id)
          s.auth_vhost outbox_mailbox signed stored).0
        ≡ ok ref)
      × (ref.key ≡ key)

  -- The queue holds a job for each recipient, under consecutive UUIDs from the n-th on, each with a
  -- staged copy of the signed message.
  abbrev pub HasJobs : (ℕ → String) → Session → String → ℕ → ℕ → List String → Dict Job → Type 0
  HasJobs uuids s signed now n [] jobs = Unit
  HasJobs uuids s signed now n (to ∷ rest) jobs =
      ((body_ref : String) × (lookup (uuids n) jobs ≡ some (due_job (uuids n) s to body_ref now))
        × IsStaged s signed body_ref)
      × HasJobs uuids s signed now (suc n) rest jobs

  module _ (s : Session) (signed : String) (now : ℕ) (uuids : ℕ → String) where
    -- What the loop of Data does from the n-th UUID on.
    pub record Queued (n : ℕ) (rcpts : List String) (w : World p) (r : Option Error × World p)
        : Type 0 where
      pub made : ℕ
      pub made_bound : made ≤ length rcpts
      pub has_jobs : HasJobs uuids s signed now n (take made rcpts) r.1.jobs.jobs
      pub kept : (m : ℕ) → m < n → lookup (uuids m) r.1.jobs.jobs ≡ lookup (uuids m) w.jobs.jobs
      pub unfired : r.1.fired ≡ w.fired
      pub all_made : r.0 ≡ none → made ≡ length rcpts

    none_made :
        (n : ℕ) (to : String) (rest : List String) (w w' : World p) (e : Error)
        → w'.jobs.jobs ≡ w.jobs.jobs
        → w'.fired ≡ w.fired
        → Queued n (to ∷ rest) w (some e, w')
    none_made n to rest w w' e h k = record {
      made = 0;
      made_bound = omega arith;
      has_jobs = tt;
      kept = λ m l. ap (lookup (uuids m)) h;
      unfired = k;
      all_made = λ q. absurd (cc q);
    }

    -- What one turn does: nothing, or one job under the UUID.
    QueuedOne : ℕ → String → World p → Option Error × World p → Type 0
    QueuedOne n to w (some e, w') = (w'.jobs.jobs ≡ w.jobs.jobs) × (w'.fired ≡ w.fired)
    QueuedOne n to w (none, w') =
        ((body_ref : String) × (w'.jobs.jobs
            ≡ insert (uuids n) (due_job (uuids n) s to body_ref now) w.jobs.jobs)
          × IsStaged s signed body_ref)
        × (w'.fired ≡ w.fired)

    module _ (fresh : AreFresh uuids) where
      queue_one-Queued :
          (n : ℕ) (to : String) (w : World p)
          → QueuedOne n to w
              (queue_one p cfg (background s.correlation_id) s signed now (uuids n) to w)
      unfolding queue_one enqueue new_job job_type QueuedOne
      queue_one-Queued n to w =
          elim (Result-cases
            (p.store.write (background s.correlation_id) s.auth_vhost outbox_mailbox signed
              w.stored).0) [
                | inl (ref, e) ↦
                    rw
                      (
                        e,
                        queue_one,
                        enqueue_live job_type s.correlation_id (due_job (uuids n) s to ref.key now)
                            w.jobs (fresh.not_empty n),
                      )
                      (
                        (
                          ref.key,
                          ap (λ r. r.1.jobs)
                              (enqueue_live job_type s.correlation_id
                                (due_job (uuids n) s to ref.key now) w.jobs (fresh.not_empty n)),
                          (w.stored, ref, e, refl),
                        ),
                        refl,
                      )
                | inr (x, e) ↦ rw (e, queue_one) (refl, refl)
              ]

      one_more :
          (n : ℕ) (to : String) (rest : List String) (w : World p) (r : Option Error × World p)
          (r' : Option Error × World p)
          → QueuedOne n to w r
          → Queued (suc n) rest r.1 r'
          → r.0 ≡ none
          → Queued n (to ∷ rest) w r'
      unfolding QueuedOne
      one_more n to rest w (some x, w') r' h q e = absurd (cc e)
      one_more n to rest w (none, w') r' ((body_ref, h, staged), k) q e = record {
        made = suc q.made;
        made_bound = omega (arith, q.made_bound);
        has_jobs = (
          (
            body_ref,
            q.kept n (omega arith)
                ∙ ap (lookup (uuids n)) h
                ∙ lookup-insert (uuids n) (uuids n) _ w.jobs.jobs
                ∙ simp eq_refl refl,
            staged,
          ),
          q.has_jobs,
        );
        kept = λ m l.
            q.kept m (omega (arith, l))
            ∙ ap (lookup (uuids m)) h
            ∙ lookup-insert (uuids n) (uuids m) _ w.jobs.jobs
            ∙ other_uuid fresh m n w.jobs.jobs _ l;
        unfired = q.unfired ∙ k;
        all_made = λ x. ap suc (q.all_made x);
      }

      stopped :
          (n : ℕ) (to : String) (rest : List String) (w : World p) (r : Option Error × World p)
          (x : Error)
          → QueuedOne n to w r
          → r.0 ≡ some x
          → Queued n (to ∷ rest) w (some x, r.1)
      unfolding QueuedOne
      stopped n to rest w (some y, w') x (h, k) e = none_made n to rest w w' x h k
      stopped n to rest w (none, w') x h e = absurd (cc e)

      pub queue_all-Queued :
          (n : ℕ) (rcpts : List String) (w : World p)
          → Queued n rcpts w
              (queue_all p cfg (background s.correlation_id) s signed now uuids n rcpts w)
      unfolding queue_all
      queue_all-Queued n [] w = record {
        made = 0;
        made_bound = omega arith;
        has_jobs = tt;
        kept = λ m l. refl;
        unfired = refl;
        all_made = λ x. refl;
      }
      queue_all-Queued n (to ∷ rest) w =
          let (refused, after) =
            queue_one p cfg (background s.correlation_id) s signed now (uuids n) to w in
          elim (Option-cases refused) [
            | inl e ↦
                rw (e, queue_all)
                  (one_more n to rest w _ _ (queue_one-Queued n to w)
                    (queue_all-Queued (suc n) rest after) e)
            | inr (x, e) ↦ rw (e, queue_all) (stopped n to rest w _ x (queue_one-Queued n to w) e)
          ]
