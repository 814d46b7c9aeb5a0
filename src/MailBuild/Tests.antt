-- ===== src/MailBuild/Tests.antt =====
-- A message with a custom header, and what a header's name can do.
use envelope.Prelude.{◌≡◌, refl, String, ◌<>◌, has_char, replace, [], ◌∷◌, length}
use envelope.Context.{ok}
use envelope.MailBuild.{
  Message, Parts, write_header, write_headers, sanitize_header_value, fields, build,
  build_body_part, top_part, render,
}
use envelope.MailBuild.Injection.{count_char, build-count_char}

abbrev parts : Parts
parts = record {
  multipart = λ boundary list. ok "parts";
  base64 = λ content. content;
  date = "Mon, 01 Jan 2026 00:00:00 +0000";
  uuids = λ n. "u";
  to_lower = λ name. name;
}

abbrev message : Message
message = record {
  from = "ann@a.example";
  subject = "hi\r\nBcc: eve@e.example";
  text = "hello";
  html = "";
  domain = "a.example";
  to = "bob@b.example" ∷ "cid@c.example" ∷ [];
  cc = [];
  bcc = [];
  attachments = [];
  headers = ("X-Tag", "a") ∷ [];
}

abbrev raw : String
raw = write_headers (fields parts message "text/plain; charset=utf-8") <> ("\r\n" <> "hello")

built : build parts message ≡ ok raw
unfolding build build_body_part top_part render
built = refl

-- A subject that tries to add a header stays in its line; a header's name does not.
name_injects : count_char 10 (write_header "X: a\r\nBcc: eve@e.example\r\nY" "b") ≡ 3
unfolding count_char write_header sanitize_header_value replace
name_injects = refl

build-count_char_example :
    (content_type body : String) × (raw
      ≡ write_headers (fields parts message content_type) <> ("\r\n" <> body))
    × (count_char 10 (write_headers (fields parts message content_type))
        ≡ length (fields parts message content_type))
    × (count_char 13 (write_headers (fields parts message content_type))
        ≡ length (fields parts message content_type))
unfolding has_char
build-count_char_example = build-count_char parts message raw (refl, tt) (refl, tt) built
