-- ===== src/Deliverer/Handle/Settled.antt =====
-- What Complete and Fail leave of a job in the queue.
use envelope.Prelude.{ℕ, ◌+◌, ◌≡◌, ◌≢◌, false, none, some, String, eq_iff, eq_refl, arith}
use envelope.Prelude.Dict.{lookup, lookup-insert, lookup-delete}
use envelope.Context.{Context}
use envelope.Queue.{Job, job_type, reschedule}
use envelope.Queue.Claims.{Backend, is_claimed, complete, fail}
use envelope.Queue.Claims.Invariant.{is_claimed-delete}

-- The job `id` is neither queued nor claimed any more.
abbrev pub IsGone : String → Backend Job → Type 0
IsGone id m = (lookup id m.jobs ≡ none) × (is_claimed m.claimed id ≡ false)

-- All other jobs are as they were.
abbrev pub OthersKept : String → Backend Job → Backend Job → Type 0
OthersKept id old new =
    (k : String)
    → id ≢ k
    → (lookup k new.jobs ≡ lookup k old.jobs)
      × (is_claimed new.claimed k ≡ is_claimed old.claimed k)

pub complete-IsGone :
    (ctx : Context) (job : Job) (m : Backend Job)
    → ctx.done ≡ none
    → lookup job.id m.jobs ≡ some job
    → IsGone job.id (complete job_type ctx job.id m).1
      × OthersKept job.id m (complete job_type ctx job.id m).1
unfolding complete
complete-IsGone ctx job m live found =
    rw (live, found, complete)
      (
        (simp (lookup-delete, eq_refl), simp (is_claimed-delete, eq_refl)),
        λ k other. (
          ground (arith, lookup-delete job.id k m.jobs, eq_iff job.id k, other),
          ground (arith, is_claimed-delete job.id k m.claimed, eq_iff job.id k, other),
        ),
      )

-- The job is queued again for `next`, unclaimed, with one attempt more.
abbrev pub IsRetried : Job → String → ℕ → Backend Job → Type 0
IsRetried job cause next m =
    (lookup job.id m.jobs
      ≡ some
          (record job { attempts = job.attempts + 1; next_attempt_at = next; last_error = cause }))
    × (is_claimed m.claimed job.id ≡ false)

pub fail-IsRetried :
    (ctx : Context) (job : Job) (cause : String) (next : ℕ) (m : Backend Job)
    → ctx.done ≡ none
    → lookup job.id m.jobs ≡ some job
    → IsRetried job cause next (fail job_type ctx job.id (some cause) next m).1
      × OthersKept job.id m (fail job_type ctx job.id (some cause) next m).1
unfolding fail job_type reschedule
fail-IsRetried ctx job cause next m live found =
    rw (live, found, fail)
      (
        (simp (lookup-insert, eq_refl), simp (is_claimed-delete, eq_refl)),
        λ k other. (
          ground (
            arith,
            lookup-insert job.id k (reschedule job (some cause) next) m.jobs,
            eq_iff job.id k,
            other,
          ),
          ground (arith, is_claimed-delete job.id k m.claimed, eq_iff job.id k, other),
        ),
      )
