-- ===== src/Context.antt =====
-- What the program takes from Go's context and error values. `errors.As` looks through a chain of
-- wrapped errors, so an error is modelled as that chain. internal/deliverer/classify.go
use envelope.Prelude.{ℕ, ◌≡◌, refl, ◌⊎◌, inl, inr, Bool, Option, none, String, ◌<>◌}

-- *gosmtp.SMTPError
pub record SmtpError : Type 0 where
  pub smtp_code : ℕ
  pub enhanced : ℕ × ℕ × ℕ
  pub text : String

-- The errors that the program compares by identity.
pub data Sentinel : Type 0 where
  webhook_not_found directory_not_found apiauth_not_found : Sentinel

pub data Error : Type 0 where
  plain : String → Error
  sentinel : Sentinel → Error
  smtp : SmtpError → Error
  -- *net.DNSError, with its IsNotFound
  dns : Bool → String → Error
  -- *deliveryError, with its `permanent`
  delivery : Bool → Error → Error
  -- fmt.Errorf("...: %w", err)
  wrap : String → Error → Error

-- A call that returns a value or an error.
pub data Result {ℓ} (A : Type ℓ) : Type ℓ where
  ok : A → Result A
  err : Error → Result A

pub Result-cases {ℓ} :
    {A : Type ℓ} (r : Result A) → ((a : A) × (r ≡ ok a)) ⊎ ((e : Error) × (r ≡ err e))
Result-cases (ok a) = inl (a, refl)
Result-cases (err e) = inr (e, refl)

infixl 5 ◌>>=◌
abbrev pub ◌>>=◌ {ℓ κ} : {A : Type ℓ} {B : Type κ} → Result A → (A → Result B) → Result B
ok a >>= f = f a
err e >>= f = err e

-- The context of a call: what `ctx.Err()` returns, and the correlation ID it carries.
pub record Context : Type 0 where
  pub done : Option Error
  pub correlation_id : String

-- The context of a call that nobody cancels.
abbrev pub background : String → Context
background correlation_id = record { done = none; correlation_id = correlation_id }

sentinel_text : Sentinel → String
sentinel_text webhook_not_found = "webhook: not found"
sentinel_text directory_not_found = "directory: not found"
sentinel_text apiauth_not_found = "apiauth: not found"

module _ (smtp_text : SmtpError → String) where
  -- err.Error(); the text of a library's own error type is the library's.
  unfoldable pub message : Error → String
  unfolding sentinel_text
  message (plain s) = s
  message (sentinel s) = sentinel_text s
  message (smtp e) = smtp_text e
  message (dns _ s) = s
  message (delivery _ e) = message e
  message (wrap s e) = s <> message e
