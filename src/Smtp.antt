-- ===== src/Smtp.antt =====
-- internal/platform/smtp: the sessions of the inbound server and of the submission server.
pub mod Limits
pub mod Inbound
pub mod Submission
mod Tests
use envelope.Prelude.{ℕ, ℤ, Bool, String, Option, List}
use envelope.Context.{Context, Error, SmtpError, smtp}

-- An SMTPError that a session answers with.
unfoldable pub refusal : ℕ → ℕ × ℕ × ℕ → String → Error
refusal code enhanced text = smtp (record { smtp_code = code; enhanced = enhanced; text = text })

-- The tuning fields of Config (config.go). The collaborators are arguments of the sessions.
pub record Config : Type 0 where
  pub max_message_bytes : ℤ
  -- Whether RateLimiter, Webhooks and Quota are set.
  pub rate_limiter : Bool
  pub webhooks : Bool
  pub quota : Bool
  pub rate_limit_ip_capacity : ℤ
  pub rate_limit_ip_refill : ℤ
  pub rate_limit_sender_capacity : ℤ
  pub rate_limit_sender_refill : ℤ
