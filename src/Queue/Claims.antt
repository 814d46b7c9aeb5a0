-- ===== src/Queue/Claims.antt =====
-- internal/queue/memory.go and internal/webhook/memory_queue.go: the two in-memory retry queues
-- are one text over two types of job. The Go mutex makes each method one step.
pub mod Select
pub mod Enqueueing
pub mod Invariant
pub mod Traces
pub mod Conforms
use envelope.Prelude.{
  ℕ, ◌≡◌, String, ◌=ₛ◌, Bool, true, false, Option, none, some, List, [], ◌∷◌, ltb, length,
  if◌then◌else◌,
}
use envelope.Prelude.Dict.{Dict, lookup, insert, delete}
use envelope.Context.{Context, Error, Result, ok, err}

-- The fields and the errors in which the two texts differ.
pub record RetryJob (J : Type 0) : Type 0 where
  pub id : J → String
  pub next_attempt_at : J → ℕ
  pub attempts : J → ℕ
  pub reschedule : J → Option String → ℕ → J
  pub id_required : Error
  pub not_found : String → Error

-- What the laws of the queue need of them.
pub record IsLawful {J : Type 0} (q : RetryJob J) : Type 0 where
  pub id_kept : (j : J) (cause : Option String) (t : ℕ) → q.id (q.reschedule j cause t) ≡ q.id j

pub record Backend (J : Type 0) : Type 0 where
  pub jobs : Dict J
  pub claimed : Dict Bool

abbrev or_false : Option Bool → Bool
or_false none = false
or_false (some b) = b

-- m.claimed[id], false where the key is missing.
unfoldable pub is_claimed : Dict Bool → String → Bool
is_claimed claimed id = or_false (lookup id claimed)

unfoldable pub new_backend : {J : Type 0} → Backend J
new_backend = record { jobs = []; claimed = [] }

module _ {J : Type 0} (q : RetryJob J) where
  unfoldable pub enqueue : Context → J → Backend J → Option Error × Backend J
  enqueue ctx job m = elim ctx.done [
    | some e ↦ (some e, m)
    | none ↦
        if q.id job =ₛ ""
        then (some q.id_required, m)
        else (none, record m { jobs = insert (q.id job) job m.jobs })
  ]

  -- The body of the loop of Dequeue: `best` after one more entry.
  abbrev earlier : J → Option J → Option J
  earlier job none = some job
  earlier job (some best) =
      if ltb (q.next_attempt_at job) (q.next_attempt_at best) then some job else some best

  unfoldable pub consider : ℕ → Dict Bool → String → J → Option J → Option J
  consider now claimed id job best =
      if is_claimed claimed id
      then best
      else if ltb now (q.next_attempt_at job)
      then best
      else earlier job best

  unfoldable pub select : ℕ → Dict Bool → Dict J → Option J → Option J
  select now claimed [] best = best
  select now claimed ((id, job) ∷ rest) best =
      select now claimed rest (consider now claimed id job best)

  -- `now` is the clock's reading; `ok none` is the Go result with ok = false.
  unfoldable pub dequeue : Context → ℕ → Backend J → Result (Option J) × Backend J
  dequeue ctx now m = elim ctx.done [
    | some e ↦ (err e, m)
    | none ↦ elim (select now m.claimed m.jobs none) [
      | none ↦ (ok none, m)
      | some best ↦ (ok (some best), record m { claimed = insert (q.id best) true m.claimed })
    ]
  ]

  unfoldable pub count : Context → Backend J → Result ℕ
  count ctx m = elim ctx.done [ some e ↦ err e | none ↦ ok (length m.jobs) ]

  unfoldable pub is_empty : Backend J → Bool
  is_empty m = elim m.jobs [ [] ↦ true | _ ∷ _ ↦ false ]

  unfoldable pub complete : Context → String → Backend J → Option Error × Backend J
  complete ctx id m = elim ctx.done [
    | some e ↦ (some e, m)
    | none ↦ elim (lookup id m.jobs) [
      | none ↦ (some (q.not_found id), m)
      | some _ ↦ (none, record { jobs = delete id m.jobs; claimed = delete id m.claimed })
    ]
  ]

  -- `cause` is the text of the cause, if there is one.
  unfoldable pub fail : Context → String → Option String → ℕ → Backend J → Option Error × Backend J
  fail ctx id cause next m = elim ctx.done [
    | some e ↦ (some e, m)
    | none ↦ elim (lookup id m.jobs) [
      | none ↦ (some (q.not_found id), m)
      | some job ↦ (
        none,
        record {
          jobs = insert id (q.reschedule job cause next) m.jobs;
          claimed = delete id m.claimed;
        },
      )
    ]
  ]
