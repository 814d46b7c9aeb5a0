-- ===== src/Queue/Postgres/Conforms.antt =====
-- The durable queue against the contract of a backend.
use envelope.Prelude.{
  ℕ, ◌≤◌, ◌≡◌, refl, sym, ap, subst, ◌∙◌, String, ◌=ₛ◌, eq_iff, arith, Bool, true, false,
  Bool-cases, inl, inr, not, ◌&&◌, Option, none, some, Option-cases, if◌then◌else◌,
}
use envelope.Prelude.Dict.{Dict, lookup, insert, lookup-insert, Unique}
use envelope.Context.{Context, Error, Result, ok}
use envelope.Queue.Claims.{RetryJob}
use envelope.Queue.Claims.Traces.{Call, enqueues, dequeues, completes, fails}
use envelope.Queue.Contract.{
  View, Ready, Does, halted, unnamed, taken, queued, nothing_due, handed_out, no_such_job,
  completed, nothing_to_fail, put_off, answer,
}
use envelope.Queue.Postgres.{JobRow, Wording, is_due, first_due, enqueue, dequeue, complete, fail}
use envelope.Queue.Postgres.Rows.{Found, no_row, a_row, first_due-Found}

module _ {J : Type 0} where
  abbrev pub job_in : Option (JobRow J) → Option J
  job_in none = none
  job_in (some row) = if row.deleted then none else some row.job

  abbrev pub held_in : Option (JobRow J) → Bool
  held_in none = false
  held_in (some row) = not row.deleted && row.claimed

  abbrev pub is_some : Option (JobRow J) → Bool
  is_some none = false
  is_some (some row) = true

  -- What a caller can tell of the table: a deleted row is no job, but its ID is used.
  abbrev pub view : Dict (JobRow J) → View J
  view t = record {
    job = λ k. job_in (lookup k t);
    held = λ k. held_in (lookup k t);
    used = λ k. is_some (lookup k t);
  }

  -- One row written, seen from outside.
  job_in-insert :
      (id : String) (row : JobRow J) (t : Dict (JobRow J)) (k : String)
      → (view (insert id row t)).job k ≡ (if id =ₛ k then job_in (some row) else (view t).job k)
  job_in-insert id row t k = simp lookup-insert (ground arith)

  held_in-insert :
      (id : String) (row : JobRow J) (t : Dict (JobRow J)) (k : String)
      → (view (insert id row t)).held k ≡ (if id =ₛ k then held_in (some row) else (view t).held k)
  held_in-insert id row t k = simp lookup-insert (ground arith)

some_injective : {A : Type 0} {a b : A} → some a ≡ some b → a ≡ b
some_injective h = cc

unchanged :
    {J A : Type 0} (f : Option (JobRow J) → A) (id i : String) (a : A) (t : Dict (JobRow J))
    → f (lookup id t) ≡ a
    → (if id =ₛ i then a else f (lookup i t)) ≡ f (lookup i t)
unchanged f id i a t h = elim (Bool-cases (id =ₛ i)) [
  | inl e ↦ simp e (sym h ∙ ap (λ k. f (lookup k t)) ((eq_iff id i).0 e))
  | inr e ↦ simp e refl
]

module _ {J : Type 0} (q : RetryJob J) (text : Wording) where
  -- A call on the table, with the error of the database, if it has one for it.
  abbrev pub perform :
      Option Error → Error → Call J → Dict (JobRow J) → Result (Option J) × Dict (JobRow J)
  perform db duplicate (enqueues ctx job) t =
      let (e, after) = enqueue q text db duplicate job t in (answer e, after)
  perform db duplicate (dequeues ctx now) t = dequeue q text db now t
  perform db duplicate (completes ctx id) t =
      let (e, after) = complete q text db id t in (answer e, after)
  perform db duplicate (fails ctx id cause next) t =
      let (e, after) = fail q text db id cause next t in (answer e, after)

  enqueue_named :
      (db : Option Error) (duplicate : Error) (ctx : Context) (job : J) (t : Dict (JobRow J))
      → (q.id job =ₛ "") ≡ false
      → let r = perform db duplicate (enqueues ctx job) t in
        Does q db (view t) (enqueues ctx job) r.0 (view r.1)
  unfolding enqueue
  enqueue_named (some x) duplicate ctx job t e = rw (e, enqueue) (halted _ (λ h. absurd (cc h)))
  enqueue_named none duplicate ctx job t e = elim (Option-cases (lookup (q.id job) t)) [
    | inr (row, f) ↦ rw (e, f, enqueue) (taken _ (ap is_some f))
    | inl f ↦
        rw (e, f, enqueue)
          (queued (λ h. ground (arith, h, e, eq_iff (q.id job) ""))
            (λ k. job_in-insert (q.id job) _ t k)
            (λ k.
              held_in-insert (q.id job) _ t k
              ∙ unchanged held_in (q.id job) k false t (ap held_in f)))
  ]

  enqueue-Does :
      (db : Option Error) (duplicate : Error) (ctx : Context) (job : J) (t : Dict (JobRow J))
      → let r = perform db duplicate (enqueues ctx job) t in
        Does q db (view t) (enqueues ctx job) r.0 (view r.1)
  unfolding enqueue
  enqueue-Does db duplicate ctx job t = elim (Bool-cases (q.id job =ₛ "")) [
    | inl e ↦ rw (e, enqueue) (unnamed _ ((eq_iff (q.id job) "").0 e))
    | inr e ↦ enqueue_named db duplicate ctx job t e
  ]

  due-Ready :
      (now : ℕ) (k : String) (row : JobRow J) (t : Dict (JobRow J))
      → lookup k t ≡ some row
      → is_due q now row ≡ true
      → Ready q now (view t) k row.job
  unfolding is_due
  due-Ready now k row t h due =
      (ap job_in h ∙ ground (arith, due), ap held_in h ∙ ground (arith, due), ground (arith, due))

  Ready-due :
      (now : ℕ) (j : J) (o : Option (JobRow J))
      → job_in o ≡ some j
      → held_in o ≡ false
      → q.next_attempt_at j ≤ now
      → (row : JobRow J) × (o ≡ some row) × (row.job ≡ j) × (is_due q now row ≡ true)
  unfolding is_due
  Ready-due now j none h f l = absurd (cc h)
  Ready-due now j (some row) h f l = elim (Bool-cases row.deleted) [
    | inl d ↦ let gone : job_in (some row) ≡ none = simp d refl in absurd (cc (sym gone ∙ h))
    | inr d ↦
        let there : job_in (some row) ≡ some row.job = simp d refl in
        let same : row.job ≡ j = some_injective (sym there ∙ h) in
        (row, refl, same, ground (arith, d, f, subst (λ x. q.next_attempt_at x ≤ now) (sym same) l))
  ]

  undeleted_due :
      (now : ℕ) (row : JobRow J) → is_due q now row ≡ true → (not row.deleted && true) ≡ true
  unfolding is_due
  undeleted_due now row due = ground (arith, due)

  first_due-Does :
      (ctx : Context) (now : ℕ) (t : Dict (JobRow J)) (o : Option (String × JobRow J))
      → Found q now t o
      → let r : Result (Option J) × Dict (JobRow J) = elim o [
        | none ↦ (ok none, t)
        | some (id, row) ↦ (ok (some row.job), insert id (record row { claimed = true }) t)
      ] in
        Does q none (view t) (dequeues ctx now) r.0 (view r.1)
  first_due-Does ctx now t none (no_row h) = nothing_due (λ k j (a, b, c).
      let (row, found, same, due) = Ready-due now j (lookup k t) a b c in
      absurd (cc (h k row found, due)))
  first_due-Does ctx now t (some (id, row)) (a_row _ _ h due first) =
      handed_out id row.job (due-Ready now id row t h due)
        (λ i later (a, b, c).
          let (r, found, same, d) = Ready-due now later (lookup i t) a b c in
          subst (λ x. q.next_attempt_at row.job ≤ q.next_attempt_at x) same (first i r found d))
        (λ i. job_in-insert id _ t i ∙ unchanged job_in id i _ t (ap job_in h))
        (λ i.
          held_in-insert id _ t i
          ∙ ap (λ b. if id =ₛ i then b else held_in (lookup i t)) (undeleted_due now row due))

  dequeue-Does :
      (db : Option Error) (duplicate : Error) (ctx : Context) (now : ℕ) (t : Dict (JobRow J))
      → Unique t
      → let r = perform db duplicate (dequeues ctx now) t in
        Does q db (view t) (dequeues ctx now) r.0 (view r.1)
  unfolding dequeue
  dequeue-Does (some e) duplicate ctx now t u = halted _ (λ h. absurd (cc h))
  dequeue-Does none duplicate ctx now t u =
      first_due-Does ctx now t (first_due q now t) (first_due-Found q now t u)

  complete-Does :
      (db : Option Error) (duplicate : Error) (ctx : Context) (id : String) (t : Dict (JobRow J))
      → let r = perform db duplicate (completes ctx id) t in
        Does q db (view t) (completes ctx id) r.0 (view r.1)
  unfolding complete
  complete-Does (some e) duplicate ctx id t = halted _ (λ h. absurd (cc h))
  complete-Does none duplicate ctx id t = elim (Option-cases (lookup id t)) [
    | inl e ↦ rw (e, complete) (no_such_job _ (ap job_in e))
    | inr (row, e) ↦ elim (Bool-cases row.deleted) [
      | inl d ↦ rw (e, d, complete) (no_such_job _ (ap job_in e ∙ simp d refl))
      | inr d ↦
          rw (e, d, complete)
            (completed row.job (ap job_in e ∙ simp d refl) (job_in-insert id _ t)
              (held_in-insert id _ t))
    ]
  ]

  fail-Does :
      (db : Option Error) (duplicate : Error) (ctx : Context) (id : String) (cause : Option String)
      (next : ℕ) (t : Dict (JobRow J))
      → let r = perform db duplicate (fails ctx id cause next) t in
        Does q db (view t) (fails ctx id cause next) r.0 (view r.1)
  unfolding fail
  fail-Does (some e) duplicate ctx id cause next t = halted _ (λ h. absurd (cc h))
  fail-Does none duplicate ctx id cause next t = elim (Option-cases (lookup id t)) [
    | inl e ↦ rw (e, fail) (nothing_to_fail _ (ap job_in e))
    | inr (row, e) ↦ elim (Bool-cases row.deleted) [
      | inl d ↦ rw (e, d, fail) (nothing_to_fail _ (ap job_in e ∙ simp d refl))
      | inr d ↦
          rw (e, d, fail)
            (put_off row.job (ap job_in e ∙ simp d refl) (job_in-insert id _ t)
              (held_in-insert id _ t))
    ]
  ]

  -- Each call of the durable queue does what the contract says, as far as a caller can tell: it fails
  -- only with an error of the database, for a new job without an ID or with an ID that a row has had,
  -- and for an ID under which no job is; otherwise it does its work and nothing else. Dequeue hands out
  -- an unclaimed job that is due, none being due earlier, and claims it.
  pub perform-Does :
      (db : Option Error) (duplicate : Error) (c : Call J) (t : Dict (JobRow J))
      → Unique t
      → let r = perform db duplicate c t in Does q db (view t) c r.0 (view r.1)
  perform-Does db duplicate (enqueues ctx job) t u = enqueue-Does db duplicate ctx job t
  perform-Does db duplicate (dequeues ctx now) t u = dequeue-Does db duplicate ctx now t u
  perform-Does db duplicate (completes ctx id) t u = complete-Does db duplicate ctx id t
  perform-Does db duplicate (fails ctx id cause next) t u =
      fail-Does db duplicate ctx id cause next t
