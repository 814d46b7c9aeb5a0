-- ===== src/InternalApi.antt =====
-- internal/internalapi/wire.go: what the API role and the SMTP and IMAP roles send each other. The
-- codec of encoding/json and the functions on keys of crypto/x509 and encoding/pem are parameters.
pub mod Server
pub mod Client
pub mod Confined
pub mod Refinement
mod Tests
use envelope.Prelude.{ℕ, ℤ, Bool, Option, none, some, String, List, ◌≡◌}
use envelope.Context.{SmtpError, Error, plain, Result, ok, err}
use envelope.Webhook.{Payload}

abbrev pub scope_directory_vhost : String
scope_directory_vhost = "directory.vhost"

abbrev pub scope_directory_authenticate : String
scope_directory_authenticate = "directory.authenticate"

abbrev pub scope_store_write : String
scope_store_write = "store.write"

abbrev pub scope_store_read : String
scope_store_read = "store.read"

abbrev pub scope_store_list : String
scope_store_list = "store.list"

abbrev pub scope_store_update_flags : String
scope_store_update_flags = "store.updateflags"

abbrev pub scope_queue_enqueue : String
scope_queue_enqueue = "queue.enqueue"

abbrev pub scope_rate_limit_allow : String
scope_rate_limit_allow = "ratelimit.allow"

abbrev pub scope_webhook_enqueue : String
scope_webhook_enqueue = "webhook.enqueue"

abbrev pub role_smtp_inbound : String
role_smtp_inbound = "smtp-inbound"

abbrev pub role_smtp_submission : String
role_smtp_submission = "smtp-submission"

abbrev pub role_imap : String
role_imap = "imap"

pub record VhostDto : Type 0 where
  pub id : String
  pub domain : String
  pub active : Bool
  pub dkim_selector : String
  pub dkim_key_pem : String
  pub max_message_bytes : ℤ
  pub daily_quota : ℤ
  pub spam_reject_threshold : ℤ
  pub spam_quarantine_threshold : ℤ
  pub retention_days : ℤ

-- A nil *vhostDTO is `none`.
pub record VhostResponse : Type 0 where
  pub found : Bool
  pub vhost : Option VhostDto

pub record AuthenticateRequest : Type 0 where
  pub vhost : String
  pub local_part : String
  pub password : String

pub record WriteResponse : Type 0 where
  pub vhost : String
  pub mailbox : String
  pub key : String

pub record ListRequest : Type 0 where
  pub vhost : String
  pub mailbox : String

pub record MessageMetaDto : Type 0 where
  pub vhost : String
  pub mailbox : String
  pub key : String
  pub size : ℕ
  pub flags : List String
  pub created_at : Option ℕ

pub record UpdateFlagsRequest : Type 0 where
  pub vhost : String
  pub mailbox : String
  pub key : String
  pub flags : List String

pub record EnqueueJobRequest : Type 0 where
  pub id : String
  pub vhost : String
  pub from : String
  pub to : String
  pub body_ref : String
  pub next_attempt_at : ℕ
  pub correlation_id : String

-- The rate is a count over a period, as in envelope.Smtp.Limits.
pub record RateLimitAllowRequest : Type 0 where
  pub key : String
  pub capacity : ℤ
  pub refill : ℤ × ℕ

-- The payload is kept as the value that was marshalled.
pub record WebhookEnqueueRequest : Type 0 where
  pub vhost : String
  pub event_type : String
  pub payload : Payload

-- The bodies: the nine types above, and those of one field, which stand for their field:
-- errorResponse, vhostRequest, authenticateResponse, listResponse and rateLimitAllowResponse.
pub data Shape : Type 0 where
  error_response vhost_request vhost_response authenticate_request authenticate_response
        write_response list_request list_response update_flags_request enqueue_job_request
        rate_limit_allow_request rate_limit_allow_response webhook_enqueue_request :
      Shape

abbrev pub Dto : Shape → Type 0
Dto error_response = String
Dto vhost_request = String
Dto vhost_response = VhostResponse
Dto authenticate_request = AuthenticateRequest
Dto authenticate_response = Bool
Dto write_response = WriteResponse
Dto list_request = ListRequest
Dto list_response = List MessageMetaDto
Dto update_flags_request = UpdateFlagsRequest
Dto enqueue_job_request = EnqueueJobRequest
Dto rate_limit_allow_request = RateLimitAllowRequest
Dto rate_limit_allow_response = Bool
Dto webhook_enqueue_request = WebhookEnqueueRequest

-- encoding/json; x509.MarshalPKCS1PrivateKey, pem.EncodeToMemory, pem.Decode and
-- x509.ParsePKCS1PrivateKey; http.StatusText; and the texts of go-smtp's errors.
pub record Codec : Type 0 where
  pub encode : (s : Shape) → Dto s → String
  pub decode : (s : Shape) → String → Result (Dto s)
  pub marshal_key : ℕ → String
  pub pem_encode : String → String
  pub pem_decode : String → Option String
  pub parse_key : String → Result ℕ
  pub status_text : ℕ → String
  pub smtp_text : SmtpError → String

-- A body that encoding/json gives back as it was: its texts are valid UTF-8.
abbrev pub Survives : Codec → (s : Shape) → Dto s → Type 0
Survives c s x = c.decode s (c.encode s x) ≡ ok x

module _ (c : Codec) where
  unfoldable pub rsa_key_to_pem : ℕ → String
  rsa_key_to_pem key = c.pem_encode (c.marshal_key key)

  unfoldable pub pem_to_rsa_key : String → Result ℕ
  pem_to_rsa_key text = elim (c.pem_decode text) [
    | none ↦ err (plain "internalapi: no PEM block found in DKIM key material")
    | some der ↦ c.parse_key der
  ]

  -- What is documented of PEM and PKCS #1: a block is found where one was written, none in an empty
  -- text, and a marshalled key parses to itself.
  pub record KeepsKeys : Type 0 where
    pub block : (der : String) → c.pem_decode (c.pem_encode der) ≡ some der
    pub no_block : c.pem_decode "" ≡ none
    pub key : (key : ℕ) → c.parse_key (c.marshal_key key) ≡ ok key
