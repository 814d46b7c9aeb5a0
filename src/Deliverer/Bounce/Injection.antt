-- ===== src/Deliverer/Bounce/Injection.antt =====
-- An error text cannot add a line to the notification.
use envelope.Prelude.{
  false, String, ◌≡◌, refl, has_char, replace, has_char-replace, has_char-replace_self,
}
use envelope.Deliverer.Bounce.{sanitize_header_value}

-- A sanitized text, whatever the error said, holds neither a carriage return nor a line feed.
pub sanitize_header_value_no_break :
    (s : String)
    → (has_char 13 (sanitize_header_value s) ≡ false)
      × (has_char 10 (sanitize_header_value s) ≡ false)
unfolding sanitize_header_value
sanitize_header_value_no_break s = (
  has_char-replace 13 10 " " (replace 13 " " s) refl (has_char-replace_self 13 " " s refl),
  has_char-replace_self 10 " " (replace 13 " " s) refl,
)
