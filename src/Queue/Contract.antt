-- ===== src/Queue/Contract.antt =====
-- internal/queue/backend.go: what a backend promises, on what a caller can tell of it.
pub mod Exclusive
use envelope.Prelude.{
  ℕ, ◌≤◌, ◌<◌, ◌≡◌, ◌≢◌, String, ◌=ₛ◌, Bool, false, true, Option, none, some, if◌then◌else◌,
}
use envelope.Context.{Context, Error, Result, ok, err}
use envelope.Queue.Claims.{RetryJob}
use envelope.Queue.Claims.Traces.{Call, enqueues, dequeues, completes, fails}

-- The job under an ID, whether it is claimed, and whether a new job may not have this ID.
pub record View (J : Type 0) : Type 0 where
  pub job : String → Option J
  pub held : String → Bool
  pub used : String → Bool

module _ {J : Type 0} (q : RetryJob J) where
  -- A job that could be handed out now.
  abbrev pub Ready : ℕ → View J → String → J → Type 0
  Ready now v k j = (v.job k ≡ some j) × (v.held k ≡ false) × (q.next_attempt_at j ≤ now)

  -- What a call does: with `halt`, the error of the context or of the database, it may fail, and
  -- without one it fails only for a job without an ID, a used ID, or an ID under which no job is.
  pub data Does (halt : Option Error) (v : View J)
      : Call J → Result (Option J) → View J → Type 0 where
    halted : {c : Call J} (e : Error) → halt ≢ none → Does halt v c (err e) v
    unnamed :
        {ctx : Context} {job : J} (e : Error)
        → q.id job ≡ ""
        → Does halt v (enqueues ctx job) (err e) v
    taken :
        {ctx : Context} {job : J} (e : Error)
        → v.used (q.id job) ≡ true
        → Does halt v (enqueues ctx job) (err e) v
    queued :
        {ctx : Context} {job : J} {v' : View J}
        → q.id job ≢ ""
        → ((k : String) → v'.job k ≡ (if q.id job =ₛ k then some job else v.job k))
        → ((k : String) → v'.held k ≡ v.held k)
        → Does halt v (enqueues ctx job) (ok none) v'
    nothing_due :
        {ctx : Context} {now : ℕ}
        → ((k : String) (j : J) → ¬ Ready now v k j)
        → Does halt v (dequeues ctx now) (ok none) v
    handed_out :
        {ctx : Context} {now : ℕ} {v' : View J} (k : String) (j : J)
        → Ready now v k j
        → ((i : String) (later : J)
            → Ready now v i later
            → q.next_attempt_at j ≤ q.next_attempt_at later)
        → ((i : String) → v'.job i ≡ v.job i)
        → ((i : String) → v'.held i ≡ (if k =ₛ i then true else v.held i))
        → Does halt v (dequeues ctx now) (ok (some j)) v'
    no_such_job :
        {ctx : Context} {id : String} (e : Error)
        → v.job id ≡ none
        → Does halt v (completes ctx id) (err e) v
    completed :
        {ctx : Context} {id : String} {v' : View J} (j : J)
        → v.job id ≡ some j
        → ((k : String) → v'.job k ≡ (if id =ₛ k then none else v.job k))
        → ((k : String) → v'.held k ≡ (if id =ₛ k then false else v.held k))
        → Does halt v (completes ctx id) (ok none) v'
    nothing_to_fail :
        {ctx : Context} {id : String} {cause : Option String} {next : ℕ} (e : Error)
        → v.job id ≡ none
        → Does halt v (fails ctx id cause next) (err e) v
    put_off :
        {ctx : Context} {id : String} {cause : Option String} {next : ℕ} {v' : View J} (j : J)
        → v.job id ≡ some j
        → ((k : String)
            → v'.job k ≡ (if id =ₛ k then some (q.reschedule j cause next) else v.job k))
        → ((k : String) → v'.held k ≡ (if id =ₛ k then false else v.held k))
        → Does halt v (fails ctx id cause next) (ok none) v'

-- The answer of a method that returns only an error.
abbrev pub answer : {J : Type 0} → Option Error → Result (Option J)
answer none = ok none
answer (some e) = err e
