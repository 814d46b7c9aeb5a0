-- ===== src/Storage.antt =====
-- internal/storage/store.go: the contract of a message store, which its clients take as a
-- parameter. A body is the text of its bytes.
pub mod Maildir
mod Tests
use envelope.Prelude.{ℕ, String, Option, List}
use envelope.Context.{Context, Error, Result}

pub record MessageRef : Type 0 where
  pub vhost : String
  pub mailbox : String
  pub key : String

-- The zero time.Time is `none`.
pub record MessageMeta : Type 0 where
  pub ref : MessageRef
  pub size : ℕ
  pub flags : List String
  pub created_at : Option ℕ

abbrev pub outbox_mailbox : String
outbox_mailbox = "Outbox"

-- The inner result of `read` is that of io.ReadAll on the reader it opens.
pub record Store : Type 1 where
  pub State : Type 0
  pub write : Context → String → String → String → State → Result MessageRef × State
  pub read : Context → MessageRef → State → Result (Result String)
  pub list_mailbox : Context → String → String → State → Result (List MessageMeta)
  pub list_vhost : Context → String → State → Result (List MessageMeta)
  pub update_flags : Context → MessageRef → List String → State → Option Error × State
  pub delete_message : Context → MessageRef → State → Option Error × State
