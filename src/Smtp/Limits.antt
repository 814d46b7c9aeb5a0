-- ===== src/Smtp/Limits.antt =====
-- The RateLimiter interface of internal/platform/smtp/config.go, which internal/ratelimit fills. The
-- rates, float64 in the source, are rational: a count over a period.
use envelope.Prelude.{ℕ, ℤ, Bool, true, false, String}
use envelope.Context.{Context, Result, ok, err}

pub record Limiter : Type 1 where
  pub State : Type 0
  -- Key, capacity, and the tokens that `period` seconds refill.
  pub allow : Context → String → ℤ → ℤ × ℕ → State → Result Bool × State

-- `err == nil && !allowed`: a limiter that fails lets the caller pass.
unfoldable pub is_denied : Result Bool → Bool
is_denied (ok true) = false
is_denied (ok false) = true
is_denied (err e) = false
