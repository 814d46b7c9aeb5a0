-- ===== src/Directory.antt =====
-- internal/directory/directory.go: vhosts and mailbox credentials, as smtp, imap and the deliverer
-- see them.
pub mod Addresses
use envelope.Prelude.{
  ℕ, ℤ, String, ◌<>◌, ◌=ₛ◌, Bool, true, false, ◌||◌, Option, none, some, cut, if◌then◌else◌,
}

-- The DKIM key is opaque; a spam threshold is an integer in place of a float64, which the program
-- only compares.
pub record Vhost : Type 0 where
  pub id : String
  pub account_id : String
  pub domain : String
  pub active : Bool
  pub dkim_selector : String
  pub dkim_key : Option ℕ
  pub max_message_bytes : ℤ
  pub daily_quota : ℤ
  pub spam_reject_threshold : ℤ
  pub spam_quarantine_threshold : ℤ
  pub retention_days : ℤ

pub record Directory : Type 0 where
  pub vhost : String → Option Vhost
  pub vhost_active : String → Bool
  pub authenticate : String → String → String → Bool

abbrev pub accept : Option (String × String) → Option (String × String)
accept none = none
accept (some (local, domain)) =
    if (local =ₛ "") || (domain =ₛ "") then none else some (local, domain)

-- The local part and the domain, unless the Go result has ok = false.
unfoldable pub parse_address : String → Option (String × String)
parse_address addr = accept (cut b'@' addr)

unfoldable pub mailbox_path : String → String → String
mailbox_path local_part folder = local_part <> ("/" <> folder)

abbrev pub default_dkim_selector : String
default_dkim_selector = "envelope"
