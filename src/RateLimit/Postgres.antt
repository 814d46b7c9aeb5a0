-- ===== src/RateLimit/Postgres.antt =====
-- internal/ratelimit/postgres.go: the limiter whose buckets are rows of a table. The balance of a row
-- is its tokens and one token more, which is never negative: a new row holds capacity - 1 tokens.
pub mod SameAnswers
pub mod Conflicts
use envelope.Prelude.{
  ℕ, zero, suc, ◌+◌, ◌-◌, ◌*◌, ◌≡◌, refl, Bool, true, false, ltb, leb, Option, none, some, String,
  ◌<>◌, quote, List, [], ◌∷◌, if◌then◌else◌,
}
use envelope.Prelude.Dict.{Dict, lookup, insert}
use envelope.Context.{Error, wrap, Result, ok, err}
use envelope.RateLimit.{capped}

pub record BucketRow : Type 0 where
  pub balance : ℕ
  pub last_refill : ℕ

-- What the database makes of one transaction: it works, its SELECT fails, its write or its commit
-- fails, or a rival commits the first row of the key before it does, which only an INSERT notices.
pub data Attempt : Type 0 where
  works : Attempt
  select_fails write_fails : Error → Attempt
  rival : Error → BucketRow → Attempt

-- The results of tryAllow.
pub record Tried : Type 0 where
  pub allowed : Bool
  pub retry : Bool
  pub error : Option Error

abbrev pub answered : Bool → Tried
answered allowed = record { allowed = allowed; retry = false; error = none }

abbrev pub broken : Bool → Error → Tried
broken allowed e = record { allowed = allowed; retry = false; error = some e }

-- `column` is what a timestamptz keeps of an instant, which is its whole microseconds. A SELECT takes
-- no lock, whatever "gorm:query_option" says: a transaction here is one that no other overlaps, but
-- for a rival's first row.
module _ (one : ℕ) (column : ℕ → ℕ) where
  unfoldable pub earned : ℕ → ℕ → ℕ → BucketRow → ℕ
  earned now capacity rate row =
      if ltb row.last_refill now
      then capped (capacity + one) (row.balance + (now - row.last_refill) * rate)
      else row.balance

  -- The body of the case findErr == nil.
  unfoldable pub take : ℕ → ℕ → ℕ → BucketRow → Bool × BucketRow
  unfolding earned
  take now capacity rate row =
      let balance = earned now capacity rate row in
      if ltb balance (one + one)
      then (false, record { balance = balance; last_refill = column now })
      else (true, record { balance = balance - one; last_refill = column now })

  -- What becomes of a transaction that would leave `table` and answer `allowed`.
  unfoldable pub commit : Attempt → Bool → Dict BucketRow → Dict BucketRow → Tried × Dict BucketRow
  commit works allowed before after = (answered allowed, after)
  commit (select_fails e) allowed before after = (broken false e, before)
  commit (write_fails e) allowed before after = (broken allowed e, before)
  commit (rival e row) allowed before after = (answered allowed, after)

  unfoldable pub create : Attempt → String → BucketRow → Dict BucketRow → Tried × Dict BucketRow
  create (rival e row) key fresh t =
      (record { allowed = false; retry = true; error = some e }, insert key row t)
  create works key fresh t = (answered true, insert key fresh t)
  create (select_fails e) key fresh t = (broken false e, t)
  create (write_fails e) key fresh t = (broken true e, t)

  unfoldable pub try_allow : Attempt → ℕ → String → ℕ → ℕ → Dict BucketRow → Tried × Dict BucketRow
  unfolding take
  try_allow attempt now key capacity rate t = elim (lookup key t) [
    | some row ↦
        let (allowed, after) = take now capacity rate row in
        commit attempt allowed t (insert key after t)
    | none ↦ create attempt key (record { balance = capacity; last_refill = column now }) t
  ]

  abbrev pub max_attempts : ℕ
  max_attempts = 3

  -- The Go results (true, err) and (false, err) are both errors.
  abbrev pub result_of : Tried → Result Bool
  result_of r = elim r.error [ none ↦ ok r.allowed | some e ↦ err e ]

  -- The loop of Allow with `left` attempts left, the n-th at the clock's reading `now n`.
  unfoldable pub attempts_from :
      ℕ
      → ℕ
      → Option Error
      → (ℕ → Attempt)
      → (ℕ → ℕ)
      → String
      → ℕ
      → ℕ
      → Dict BucketRow
      → Result Bool × Dict BucketRow
  attempts_from zero n last_err attempt now key capacity rate t = (
    elim last_err [
      | none ↦ ok false
      | some e ↦
          err (wrap ("ratelimit: too many conflicting inserts for key " <> (quote key <> ": ")) e)
    ],
    t,
  )
  attempts_from (suc left) n last_err attempt now key capacity rate t =
      let (tried, after) = try_allow (attempt n) (now n) key capacity rate t in
      let again = attempts_from left (suc n) tried.error attempt now key capacity rate after in
      if tried.retry then again else (result_of tried, after)

  unfoldable pub allow :
      (ℕ → Attempt) → (ℕ → ℕ) → String → ℕ → ℕ → Dict BucketRow → Result Bool × Dict BucketRow
  unfolding attempts_from
  allow attempt now key capacity rate t =
      attempts_from max_attempts 0 none attempt now key capacity rate t

  -- An attempt that is not retried decides.
  pub attempts_from_settled :
      (left n : ℕ) (last_err : Option Error) (attempt : ℕ → Attempt) (now : ℕ → ℕ) (key : String)
      (capacity rate : ℕ) (t : Dict BucketRow) (r : Tried × Dict BucketRow)
      → try_allow (attempt n) (now n) key capacity rate t ≡ r
      → r.0.retry ≡ false
      → attempts_from (suc left) n last_err attempt now key capacity rate t ≡ (result_of r.0, r.1)
  unfolding attempts_from
  attempts_from_settled left n last_err attempt now key capacity rate t r e h =
      rw (e, h, attempts_from) refl

  pub attempts_from_retried :
      (left n : ℕ) (last_err : Option Error) (attempt : ℕ → Attempt) (now : ℕ → ℕ) (key : String)
      (capacity rate : ℕ) (t : Dict BucketRow)
      → (try_allow (attempt n) (now n) key capacity rate t).0.retry ≡ true
      → attempts_from (suc left) n last_err attempt now key capacity rate t
        ≡ attempts_from left
            (suc n)
            (try_allow (attempt n) (now n) key capacity rate t).0.error
            attempt
            now
            key
            capacity
            rate
            (try_allow (attempt n) (now n) key capacity rate t).1
  unfolding attempts_from
  attempts_from_retried left n last_err attempt now key capacity rate t h =
      rw (h, attempts_from) refl
