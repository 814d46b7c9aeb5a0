-- ===== src/Queue/Postgres.antt =====
-- internal/queue/postgres.go and internal/webhook/postgres_queue.go: the two durable retry queues,
-- again one text over two types of job. The table is a list of rows under their primary key.
pub mod Rows
pub mod Conforms
pub mod Traces
use envelope.Prelude.{
  ℕ, ◌+◌, String, ◌<>◌, ◌=ₛ◌, quote, Bool, true, false, not, ◌&&◌, Option, none, some, List, [],
  ◌∷◌, ltb, leb, if◌then◌else◌,
}
use envelope.Prelude.Dict.{Dict, lookup, insert}
use envelope.Context.{Error, wrap, Result, ok, err}
use envelope.Queue.Claims.{RetryJob}

-- jobRow and deliveryJobRow: the job of the row, `claimed`, and whether deleted_at is set, which is
-- how a row that embeds sql.BaseEntity is deleted.
pub record JobRow (J : Type 0) : Type 0 where
  pub job : J
  pub claimed : Bool
  pub deleted : Bool

-- The prefixes of the wrapped errors, in which the two texts differ too.
pub record Wording : Type 0 where
  pub enqueue : String → String
  pub dequeue : String
  pub complete : String → String
  pub fail : String → String

abbrev pub queue_wording : Wording
queue_wording = record {
  enqueue = λ id. "queue: enqueue job " <> (quote id <> ": ");
  dequeue = "queue: dequeue: ";
  complete = λ id. "queue: complete job " <> (quote id <> ": ");
  fail = λ id. "queue: fail job " <> (quote id <> ": ");
}

abbrev pub webhook_wording : Wording
webhook_wording = record {
  enqueue = λ id. "webhook: enqueue delivery " <> (quote id <> ": ");
  dequeue = "webhook: dequeue delivery: ";
  complete = λ id. "webhook: complete delivery " <> (quote id <> ": ");
  fail = λ id. "webhook: fail delivery " <> (quote id <> ": ");
}

-- The row, unless it is deleted: gorm adds deleted_at IS NULL to what it reads and updates.
abbrev pub undeleted {ℓ} : {J : Type 0} {A : Type ℓ} → Option (JobRow J) → A → (JobRow J → A) → A
undeleted none missing found = missing
undeleted (some row) missing found = if row.deleted then missing else found row

module _ {J : Type 0} (q : RetryJob J) where
  -- The condition of the SELECT of Dequeue.
  unfoldable pub is_due : ℕ → JobRow J → Bool
  is_due now row = not row.claimed && (leb (q.next_attempt_at row.job) now && not row.deleted)

  abbrev pub sooner : String × JobRow J → Option (String × JobRow J) → Option (String × JobRow J)
  sooner entry none = some entry
  sooner (k, row) (some (i, best)) =
      if ltb (q.next_attempt_at best.job) (q.next_attempt_at row.job)
      then some (i, best)
      else some (k, row)

  -- ORDER BY next_attempt_at ASC LIMIT 1
  unfoldable pub first_due : ℕ → Dict (JobRow J) → Option (String × JobRow J)
  first_due now [] = none
  first_due now ((k, row) ∷ rest) =
      let best = first_due now rest in if is_due now row then sooner (k, row) best else best

module _ {J : Type 0} (q : RetryJob J) (text : Wording) where
  -- Each method with what the database answers to it: an error, whose transaction is rolled back, or
  -- its work. A second row under one primary key is such an error, and `duplicate` is its value.
  unfoldable pub enqueue :
      Option Error → Error → J → Dict (JobRow J) → Option Error × Dict (JobRow J)
  enqueue db duplicate job t = if q.id job =ₛ "" then (some q.id_required, t) else (elim db [
    | some e ↦ (some (wrap (text.enqueue (q.id job)) e), t)
    | none ↦ elim (lookup (q.id job) t) [
      | some row ↦ (some (wrap (text.enqueue (q.id job)) duplicate), t)
      | none ↦ (none, insert (q.id job) (record { job = job; claimed = false; deleted = false }) t)
    ]
  ])

  unfoldable pub dequeue : Option Error → ℕ → Dict (JobRow J) → Result (Option J) × Dict (JobRow J)
  dequeue db now t = elim db [
    | some e ↦ (err (wrap text.dequeue e), t)
    | none ↦ elim (first_due q now t) [
      | none ↦ (ok none, t)
      | some (id, row) ↦ (ok (some row.job), insert id (record row { claimed = true }) t)
    ]
  ]

  unfoldable pub count_rows : Dict (JobRow J) → ℕ
  count_rows [] = 0
  count_rows ((k, row) ∷ rest) =
      let more = count_rows rest in if row.deleted then more else more + 1

  unfoldable pub count : Option Error → Dict (JobRow J) → Result ℕ
  unfolding count_rows
  count db t = elim db [ some e ↦ err (wrap "queue: count: " e) | none ↦ ok (count_rows t) ]

  unfoldable pub complete : Option Error → String → Dict (JobRow J) → Option Error × Dict (JobRow J)
  complete db id t = elim db [
    | some e ↦ (some (wrap (text.complete id) e), t)
    | none ↦
        undeleted (lookup id t) (some (q.not_found id), t)
          (λ row. (none, insert id (record row { deleted = true }) t))
  ]

  unfoldable pub fail :
      Option Error → String → Option String → ℕ → Dict (JobRow J) → Option Error × Dict (JobRow J)
  fail db id cause next t = elim db [
    | some e ↦ (some (wrap (text.fail id) e), t)
    | none ↦
        undeleted (lookup id t) (some (q.not_found id), t)
          (λ row. (
            none,
            insert id (record row { job = q.reschedule row.job cause next; claimed = false }) t,
          ))
  ]
