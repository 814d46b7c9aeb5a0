-- ===== src/Queue/Claims/Traces.antt =====
-- Any sequence of calls by any number of workers: claims are exclusive, and no job is lost.
use envelope.Prelude.{
  ℕ, ◌+◌, ◌≡◌, ◌≢◌, refl, String, inl, inr, Bool, true, false, Option, none, some, List, [], ◌∷◌,
  arith, eq_iff, eq_refl, ◌=ₛ◌, Option-cases, All, if◌then◌else◌,
}
use envelope.Prelude.Dict.{lookup, lookup-insert, lookup-delete}
use envelope.Context.{Context, Error, Result, ok, err}
use envelope.Queue.Claims.{
  RetryJob, IsLawful, Backend, is_claimed, enqueue, dequeue, complete, fail,
}
use envelope.Queue.Claims.Invariant.{
  Inv, Dequeued, stopped, idle, served, enqueue-Inv, dequeue_lem, dequeue-Inv, complete-Inv,
  fail-Inv, is_claimed-insert, is_claimed-delete,
}

-- A call by some worker.
pub data Call (J : Type 0) : Type 0 where
  enqueues : Context → J → Call J
  dequeues : Context → ℕ → Call J
  completes : Context → String → Call J
  fails : Context → String → Option String → ℕ → Call J

abbrev pub given : {J : Type 0} → Result (Option J) → Option J
given (ok o) = o
given (err e) = none

-- The call could take the claim on `id` away, or the job.
abbrev pub releases : {J : Type 0} → String → Call J → Bool
releases id (enqueues ctx job) = false
releases id (dequeues ctx now) = false
releases id (completes ctx k) = k =ₛ id
releases id (fails ctx k cause next) = k =ₛ id

abbrev pub finishes : {J : Type 0} → String → Call J → Bool
finishes id (completes ctx k) = k =ₛ id
finishes id _ = false

module _ {J : Type 0} (q : RetryJob J) where
  pub step : Call J → Backend J → Backend J
  step (enqueues ctx job) m = (enqueue q ctx job m).1
  step (dequeues ctx now) m = (dequeue q ctx now m).1
  step (completes ctx id) m = (complete q ctx id m).1
  step (fails ctx id cause next) m = (fail q ctx id cause next m).1

  pub run : List (Call J) → Backend J → Backend J
  run [] m = m
  run (c ∷ cs) m = run cs (step c m)

  -- 1 if the call handed out the job `id`.
  abbrev hit : String → Option J → ℕ
  hit id none = 0
  hit id (some j) = if q.id j =ₛ id then 1 else 0

  pub handed : String → Call J → Backend J → ℕ
  handed id (dequeues ctx now) m = hit id (given (dequeue q ctx now m).0)
  handed id _ m = 0

  -- How often the calls hand out the job `id`.
  pub times_handed : String → List (Call J) → Backend J → ℕ
  times_handed id [] m = 0
  times_handed id (c ∷ cs) m = handed id c m + times_handed id cs (step c m)

  module _ (lawful : IsLawful q) where
    pub step-Inv : (c : Call J) (m : Backend J) → Inv q m → Inv q (step c m)
    unfolding step
    step-Inv (enqueues ctx job) m v = enqueue-Inv q ctx job m v
    step-Inv (dequeues ctx now) m v = dequeue-Inv q ctx now m v
    step-Inv (completes ctx id) m v = complete-Inv q ctx id m v
    step-Inv (fails ctx id cause next) m v = fail-Inv q lawful ctx id cause next m v

    -- Every sequence of calls keeps the invariant.
    pub run-Inv : (cs : List (Call J)) (m : Backend J) → Inv q m → Inv q (run cs m)
    unfolding run
    run-Inv [] m v = v
    run-Inv (c ∷ cs) m v = run-Inv cs (step c m) (step-Inv c m v)

  Dequeued-claimed :
      (id : String) (m : Backend J) {halt : Option Error} {now : ℕ}
      {r : Result (Option J) × Backend J}
      → is_claimed m.claimed id ≡ true
      → Dequeued q halt now m r
      → is_claimed r.1.claimed id ≡ true
  Dequeued-claimed id m held (stopped h) = held
  Dequeued-claimed id m held (idle h no_job) = held
  Dequeued-claimed id m held (served j h e first) =
      ground (arith, is_claimed-insert (q.id j) id true m.claimed)

  Dequeued-hit :
      (id : String) (m : Backend J) {halt : Option Error} {now : ℕ}
      {r : Result (Option J) × Backend J}
      → is_claimed m.claimed id ≡ true
      → Dequeued q halt now m r
      → hit id (given r.0) ≡ 0
  Dequeued-hit id m held (stopped h) = refl
  Dequeued-hit id m held (idle h no_job) = refl
  Dequeued-hit id m held (served j h e first) = ground (arith, eq_iff (q.id j) id, e.1)

  claim_held :
      (id : String) (c : Call J) (m : Backend J)
      → Inv q m
      → is_claimed m.claimed id ≡ true
      → releases id c ≡ false
      → is_claimed (step c m).claimed id ≡ true
  unfolding step enqueue complete fail
  claim_held id (enqueues ctx job) m v held r = ground arith
  claim_held id (dequeues ctx now) m v held r =
      Dequeued-claimed id m held (dequeue_lem q ctx now m v)
  claim_held id (completes ctx k) m v held r = ground (arith, is_claimed-delete k id m.claimed)
  claim_held id (fails ctx k cause next) m v held r =
      ground (arith, is_claimed-delete k id m.claimed)

  not_handed :
      (id : String) (c : Call J) (m : Backend J)
      → Inv q m
      → is_claimed m.claimed id ≡ true
      → handed id c m ≡ 0
  unfolding handed
  not_handed id (dequeues ctx now) m v held = Dequeued-hit id m held (dequeue_lem q ctx now m v)
  not_handed id _ m v held = refl

  -- While nobody completes or fails a claimed job, no call hands it out again.
  pub exclusive_claim :
      (lawful : IsLawful q) (id : String) (cs : List (Call J)) (m : Backend J)
      → Inv q m
      → is_claimed m.claimed id ≡ true
      → All (λ c. releases id c ≡ false) cs
      → times_handed id cs m ≡ 0
  unfolding times_handed
  exclusive_claim lawful id [] m v held rs = refl
  exclusive_claim lawful id (c ∷ cs) m v held (r, rs) = omega (
    arith,
    not_handed id c m v held,
    exclusive_claim lawful id cs (step c m) (step-Inv lawful c m v) (claim_held id c m v held r) rs,
  )

  -- Dequeue hands a job to one worker only: over any further calls, by anyone, that neither
  -- complete nor fail it, it is not handed out a second time.
  pub no_double_claim :
      (lawful : IsLawful q) (ctx : Context) (now : ℕ) (m : Backend J) (j : J) (cs : List (Call J))
      → Inv q m
      → (dequeue q ctx now m).0 ≡ ok (some j)
      → All (λ c. releases (q.id j) c ≡ false) cs
      → times_handed (q.id j) cs (dequeue q ctx now m).1 ≡ 0
  no_double_claim lawful ctx now m j cs v given_j rs =
      exclusive_claim lawful (q.id j) cs (dequeue q ctx now m).1 (dequeue-Inv q ctx now m v)
        (taken (dequeue_lem q ctx now m v) given_j) rs
    where
      taken :
          {r : Result (Option J) × Backend J}
          → Dequeued q ctx.done now m r
          → r.0 ≡ ok (some j)
          → is_claimed r.1.claimed (q.id j) ≡ true
      taken (stopped h) e = cc
      taken (idle h no_job) e = cc
      taken (served i h f first) e =
          ground (arith, is_claimed-insert (q.id i) (q.id j) true m.claimed, eq_refl (q.id j))

  stays :
      (id : String) (c : Call J) (m : Backend J)
      → Inv q m
      → finishes id c ≡ false
      → lookup id m.jobs ≢ none
      → lookup id (step c m).jobs ≢ none
  unfolding step enqueue complete fail
  stays id (enqueues ctx job) m v f h = ground (arith, lookup-insert (q.id job) id job m.jobs)
  stays id (dequeues ctx now) m v f h = kept (dequeue_lem q ctx now m v)
    where
      kept :
          {r : Result (Option J) × Backend J}
          → Dequeued q ctx.done now m r
          → lookup id r.1.jobs ≢ none
      kept (stopped e) = h
      kept (idle e no_job) = h
      kept (served i e g first) = h
  stays id (completes ctx k) m v f h = ground (arith, lookup-delete k id m.jobs)
  stays id (fails ctx k cause next) m v f h = elim (Option-cases (lookup k m.jobs)) [
    | inl missing ↦ ground arith
    | inr (job, found) ↦ ground (arith, lookup-insert k id (q.reschedule job cause next) m.jobs)
  ]

  -- A job stays in the queue, whatever is called, until it is completed.
  pub kept_until_complete :
      (lawful : IsLawful q) (id : String) (cs : List (Call J)) (m : Backend J)
      → Inv q m
      → All (λ c. finishes id c ≡ false) cs
      → lookup id m.jobs ≢ none
      → lookup id (run cs m).jobs ≢ none
  unfolding run
  kept_until_complete lawful id [] m v fs h = h
  kept_until_complete lawful id (c ∷ cs) m v (f, fs) h =
      kept_until_complete lawful id cs (step c m) (step-Inv lawful c m v) fs (stays id c m v f h)
