-- ===== src/Queue/Tests.antt =====
-- The queue on two jobs.
use envelope.Prelude.{
  ◌<◌, ◌*◌, ◌^◌, ◌≡◌, ◌≢◌, ◌⊎◌, refl, pos, none, some, List, [], ◌∷◌, All, eq_iff, arith, true,
  false,
}
use envelope.Prelude.Dict.{Dict, lookup, insert}
use envelope.Context.{plain, ok}
use envelope.Samples.{live, counting, first_job}
use envelope.Queue.{Job, job_type, job_type-IsLawful}
use envelope.Queue.Claims.{Backend, new_backend, enqueue, dequeue, select, consider, is_claimed}
use envelope.Queue.Claims.Invariant.{Inv, new_backend-Inv, enqueue-Inv}
use envelope.Queue.Claims.Traces.{
  Call, enqueues, dequeues, completes, fails, given, times_handed, run, no_double_claim,
  kept_until_complete,
}
use envelope.Queue.Claims.Conforms.{after_run-Conforms}
use envelope.Queue.Claims.Conforms
use envelope.Queue.Contract.{Does}
use envelope.Queue.Contract.Exclusive.{Named}
use envelope.Queue.Postgres.{JobRow, queue_wording}
use envelope.Queue.Postgres.Conforms.{view, perform, perform-Does}
use envelope.Queue.Postgres.Traces.{answered, claim_exclusive}
use envelope.Queue.Backoff.{full_jitter}
use envelope.Queue.Backoff.Bounds.{full_jitter_bounds}

abbrev two_jobs : Backend Job
two_jobs =
    (enqueue job_type live (record first_job { id = "j2"; next_attempt_at = 3 })
      (enqueue job_type live first_job new_backend).1).1

two_jobs-Inv : Inv job_type two_jobs
two_jobs-Inv =
    enqueue-Inv job_type live _ _ (enqueue-Inv job_type live first_job _ (new_backend-Inv job_type))

-- The job that is due first is handed out first.
earliest_first :
    (dequeue job_type live 9 two_jobs).0
    ≡ ok (some (record first_job { id = "j2"; next_attempt_at = 3 }))
unfolding dequeue select consider is_claimed enqueue job_type lookup insert new_backend
earliest_first = refl

abbrev others : List (Call Job)
others = dequeues live 9 ∷ completes live "j1" ∷ dequeues live 20 ∷ []

no_double_claim_example : times_handed job_type "j2" others (dequeue job_type live 9 two_jobs).1 ≡ 0
unfolding job_type
no_double_claim_example =
    no_double_claim job_type job_type-IsLawful live 9 two_jobs
      (record first_job { id = "j2"; next_attempt_at = 3 }) others two_jobs-Inv earliest_first
      (refl, (refl, (refl, tt)))

kept_until_complete_example : lookup "j2" (run job_type others two_jobs).jobs ≢ none
unfolding enqueue job_type lookup insert new_backend
kept_until_complete_example =
    kept_until_complete job_type job_type-IsLawful "j2" others two_jobs two_jobs-Inv
      (refl, (refl, (refl, tt))) (λ e. cc)

full_jitter_bounds_example :
    let delay = (full_jitter counting (pos 3) (pos 100) (pos 500) 7).0 in
    (delay ≡ 0) ⊎ ((delay < 500) × (delay < 100 * 2 ^ 3))
full_jitter_bounds_example =
    full_jitter_bounds counting 7 (pos 3) (pos 100) (pos 500) (100, refl, omega arith, omega arith)
      (500, refl, omega arith)

after_run-Conforms_example :
    let m = run job_type (enqueues live first_job ∷ dequeues live 9 ∷ []) new_backend in
    let r = Conforms.perform job_type (fails live "j1" none 12) m in
    Does job_type live.done (Conforms.view m) (fails live "j1" none 12) r.0 (Conforms.view r.1)
after_run-Conforms_example =
    after_run-Conforms job_type job_type-IsLawful (enqueues live first_job ∷ dequeues live 9 ∷ [])
      (fails live "j1" none 12)

-- A table with one claimed job.
abbrev claimed_row : Dict (JobRow Job)
claimed_row = ("j1", record { job = first_job; claimed = true; deleted = false }) ∷ []

perform-Does_example :
    let r =
      perform job_type queue_wording none
        (plain "duplicate key")
        (fails live "j1" none 9)
        claimed_row in
    Does job_type none (view claimed_row) (fails live "j1" none 9) r.0 (view r.1)
unfolding lookup
perform-Does_example =
    perform-Does job_type queue_wording none (plain "duplicate key") (fails live "j1" none 9)
      claimed_row (refl, tt)

first-Named : Named job_type (view claimed_row)
unfolding lookup job_type
first-Named = λ k j e. ground (arith, e, eq_iff "j1" k)

claim_exclusive_example :
    All
      (λ call. (j : Job) → given call.1 ≡ some j → job_type.id j ≢ "j1")
      (answered job_type queue_wording
        (plain "duplicate key")
        ((none, dequeues live 9) ∷ (some (plain "timeout"), completes live "j2") ∷ [])
        claimed_row)
unfolding lookup
claim_exclusive_example =
    claim_exclusive job_type queue_wording (plain "duplicate key") job_type-IsLawful "j1"
      ((none, dequeues live 9) ∷ (some (plain "timeout"), completes live "j2") ∷ []) claimed_row
      (refl, tt) first-Named refl (refl, (refl, tt))
