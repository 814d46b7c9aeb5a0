-- ===== src/Queue/Postgres/Traces.antt =====
-- Any sequence of calls by any number of workers on one table.
use envelope.Prelude.{
  ◌≡◌, ◌≢◌, String, ◌=ₛ◌, true, false, Bool-cases, inl, inr, Option, none, some, Option-cases, List,
  [], ◌∷◌, All,
}
use envelope.Prelude.Dict.{Dict, lookup, insert-Unique, Unique}
use envelope.Context.{Error, Result}
use envelope.Queue.Claims.{RetryJob, IsLawful}
use envelope.Queue.Claims.Traces.{Call, enqueues, dequeues, completes, fails, given, releases}
use envelope.Queue.Contract.Exclusive.{Named, Trace, stop, next, Trace-exclusive}
use envelope.Queue.Postgres.{JobRow, Wording, enqueue, dequeue, complete, fail, first_due}
use envelope.Queue.Postgres.Conforms.{view, perform, perform-Does}

module _ {J : Type 0} (q : RetryJob J) (text : Wording) (duplicate : Error) where
  perform-Unique :
      (db : Option Error) (c : Call J) (t : Dict (JobRow J))
      → Unique t
      → Unique (perform q text db duplicate c t).1
  unfolding enqueue dequeue complete fail
  perform-Unique (some e) (enqueues ctx job) t u = elim (Bool-cases (q.id job =ₛ "")) [
    | inl f ↦ rw (f, enqueue) u
    | inr f ↦ rw (f, enqueue) u
  ]
  perform-Unique none (enqueues ctx job) t u = elim (Bool-cases (q.id job =ₛ "")) [
    | inl f ↦ rw (f, enqueue) u
    | inr f ↦ elim (Option-cases (lookup (q.id job) t)) [
      | inl g ↦ rw (f, g, enqueue) (insert-Unique (q.id job) _ t u)
      | inr (row, g) ↦ rw (f, g, enqueue) u
    ]
  ]
  perform-Unique (some e) (dequeues ctx now) t u = u
  perform-Unique none (dequeues ctx now) t u = elim (Option-cases (first_due q now t)) [
    | inl g ↦ rw (g, dequeue) u
    | inr ((id, row), g) ↦ rw (g, dequeue) (insert-Unique id _ t u)
  ]
  perform-Unique (some e) (completes ctx id) t u = u
  perform-Unique none (completes ctx id) t u = elim (Option-cases (lookup id t)) [
    | inl g ↦ rw (g, complete) u
    | inr (row, g) ↦ elim (Bool-cases row.deleted) [
      | inl d ↦ rw (g, d, complete) u
      | inr d ↦ rw (g, d, complete) (insert-Unique id _ t u)
    ]
  ]
  perform-Unique (some e) (fails ctx id cause later) t u = u
  perform-Unique none (fails ctx id cause later) t u = elim (Option-cases (lookup id t)) [
    | inl g ↦ rw (g, fail) u
    | inr (row, g) ↦ elim (Bool-cases row.deleted) [
      | inl d ↦ rw (g, d, fail) u
      | inr d ↦ rw (g, d, fail) (insert-Unique id _ t u)
    ]
  ]

  -- The calls with the answers that they get, each call with what the database makes of it.
  abbrev pub answered :
      List (Option Error × Call J) → Dict (JobRow J) → List (Call J × Result (Option J))
  answered [] t = []
  answered ((db, c) ∷ calls) t =
      let (r, after) = perform q text db duplicate c t in (c, r) ∷ answered calls after

  abbrev pub run : List (Option Error × Call J) → Dict (JobRow J) → Dict (JobRow J)
  run [] t = t
  run ((db, c) ∷ calls) t = run calls (perform q text db duplicate c t).1

  -- Every sequence of calls of the durable queue is one that the contract allows.
  run-Trace :
      (calls : List (Option Error × Call J)) (t : Dict (JobRow J))
      → Unique t
      → Trace q (answered calls t) (view t) (view (run calls t))
  run-Trace [] t u = stop
  run-Trace ((db, c) ∷ calls) t u =
      next (perform-Does q text db duplicate c t u) (run-Trace calls _ (perform-Unique db c t u))

  releases_none :
      (id : String) (calls : List (Option Error × Call J)) (t : Dict (JobRow J))
      → All (λ call. releases id call.1 ≡ false) calls
      → All (λ call. releases id call.0 ≡ false) (answered calls t)
  releases_none id [] t l = tt
  releases_none id ((db, c) ∷ calls) t (l, ls) = (l, releases_none id calls _ ls)

  -- A job that stands claimed in the table of the durable queue is not handed out by any sequence of
  -- calls that does not complete or fail it, whichever of the calls the database refuses.
  pub claim_exclusive :
      (lawful : IsLawful q) (id : String) (calls : List (Option Error × Call J))
      (t : Dict (JobRow J))
      → Unique t
      → Named q (view t)
      → (view t).held id ≡ true
      → All (λ call. releases id call.1 ≡ false) calls
      → All (λ call. (j : J) → given call.1 ≡ some j → q.id j ≢ id) (answered calls t)
  claim_exclusive lawful id calls t u n h l =
      Trace-exclusive q lawful id n h (run-Trace calls t u) (releases_none id calls t l)
