-- ===== src/RateLimit.antt =====
-- internal/ratelimit/tokenbucket.go: the token bucket of one process. Tokens are float64 in the
-- source and exact here: a token is `one` units, a rate a number of units in a nanosecond.
pub mod Bounds
pub mod Postgres
mod Tests
use envelope.Prelude.{ℕ, ◌+◌, ◌-◌, ◌*◌, Bool, true, false, ltb, leb, List, [], ◌∷◌, if◌then◌else◌}

pub record TokenBucket : Type 0 where
  pub capacity : ℕ
  pub tokens : ℕ
  pub refill_rate : ℕ
  pub last : ℕ

-- `now` is the clock's reading.
unfoldable pub new_token_bucket : ℕ → ℕ → ℕ → TokenBucket
new_token_bucket now capacity refill_rate = record {
  capacity = capacity;
  tokens = capacity;
  refill_rate = refill_rate;
  last = now;
}

-- `if tokens > capacity { tokens = capacity }`
abbrev pub capped : ℕ → ℕ → ℕ
capped capacity tokens = if ltb capacity tokens then capacity else tokens

unfoldable pub refill : ℕ → TokenBucket → TokenBucket
refill now b = if leb now b.last then b else record b {
  last = now;
  tokens = capped b.capacity (b.tokens + (now - b.last) * b.refill_rate);
}

module _ (one : ℕ) where
  -- Under the bucket's mutex, so that a call is one step.
  unfoldable pub allow : ℕ → TokenBucket → Bool × TokenBucket
  allow now b =
      let full = refill now b in
      if ltb full.tokens one
      then (false, full)
      else (true, record full { tokens = full.tokens - one })

  -- Calls at the clock's readings: the answers, and what is left.
  unfoldable pub run : List ℕ → TokenBucket → List Bool × TokenBucket
  run [] b = ([], b)
  run (now ∷ times) b =
      let (allowed, after) = allow now b in
      let (answers, last) = run times after in (allowed ∷ answers, last)
