-- ===== src/MailBuild.antt =====
-- internal/mailbuild/mailbuild.go: the message that the REST send API composes. mime/multipart,
-- encoding/base64, the date, the UUIDs and strings.ToLower are parameters.
pub mod Injection
mod Tests
use Prim.Native.String.{[] as empty, ◌∷◌ as ◌▹◌}
use envelope.Prelude.{
  ℕ, suc, ◌+◌, ◌==◌, String, ◌<>◌, ◌=ₛ◌, quote, strip_prefix, replace, Bool, true, false, ◌||◌,
  Option, none, some, List, [], ◌∷◌, ◌++◌, if◌then◌else◌,
}
use envelope.Context.{Error, wrap, Result, ok, err, ◌>>=◌}

pub record Attachment : Type 0 where
  pub filename : String
  pub content_type : String
  pub content : String

pub record Message : Type 0 where
  pub from : String
  pub subject : String
  pub text : String
  pub html : String
  pub domain : String
  pub to : List String
  pub cc : List String
  pub bcc : List String
  pub attachments : List Attachment
  pub headers : List (String × String)

-- A part of a multipart body: its header fields and its content.
abbrev pub Part : Type 0
Part = List (String × String) × String

-- `multipart boundary parts` is what multipart.Writer writes for the parts, or its error.
pub record Parts : Type 0 where
  pub multipart : String → List Part → Result String
  pub base64 : String → String
  pub date : String
  pub uuids : ℕ → String
  pub to_lower : String → String

abbrev is_one_of : String → List String → Bool
is_one_of name [] = false
is_one_of name (reserved ∷ rest) = (reserved =ₛ name) || is_one_of name rest

abbrev reserved_headers : List String
reserved_headers =
    "from" ∷ "to" ∷ "subject" ∷ "date" ∷ "message-id" ∷ "mime-version" ∷ "content-type"
    ∷ "content-transfer-encoding" ∷ []

unfoldable pub sanitize_header_value : String → String
sanitize_header_value s = replace 10 " " (replace 13 " " s)

unfoldable pub write_header : String → String → String
write_header name value = name <> (": " <> (sanitize_header_value value <> "\r\n"))

unfoldable pub write_headers : List (String × String) → String
write_headers [] = ""
write_headers ((name, value) ∷ fields) = write_header name value <> write_headers fields

-- strings.Join with ", ".
unfoldable pub join : List String → String
join [] = ""
join (s ∷ []) = s
join (s ∷ t ∷ list) = s <> (", " <> join (t ∷ list))

-- The lines of encodeBase64Wrapped, character by character: `column` of the line are there.
abbrev wrap_from : ℕ → String → String
wrap_from column empty = if column == 0 then "" else "\r\n"
wrap_from column (c ▹ s) =
    let full = c ▹ ("\r\n" <> wrap_from 0 s) in
    let more = c ▹ wrap_from (suc column) s in if suc column == 76 then full else more

abbrev listed : String → List String → List (String × String)
listed name [] = []
listed name (s ∷ list) = (name, join (s ∷ list)) ∷ []

unfoldable pub is_multipart : String → Bool
is_multipart content_type = elim (strip_prefix "multipart/" content_type) [
  | none ↦ false
  | some rest ↦ true
]

module _ (p : Parts) where
  unfoldable pub is_reserved_header : String → Bool
  is_reserved_header name = is_one_of (p.to_lower name) reserved_headers

  unfoldable pub encode_base64_wrapped : String → String
  encode_base64_wrapped content = wrap_from 0 (p.base64 content)

  -- The content type and the body.
  unfoldable pub build_body_part : String → String → Result (String × String)
  build_body_part text html =
      let boundary = "ALT_" <> p.uuids 0 in
      let encoding : String × String = ("Content-Transfer-Encoding", "8bit") in
      if html =ₛ ""
      then ok ("text/plain; charset=utf-8", text)
      else if text =ₛ ""
      then ok ("text/html; charset=utf-8", html)
      else (p.multipart boundary (
            (("Content-Type", "text/plain; charset=utf-8") ∷ encoding ∷ [], text)
            ∷ (("Content-Type", "text/html; charset=utf-8") ∷ encoding ∷ [], html)
            ∷ [])
          >>= λ body. ok ("multipart/alternative; boundary=" <> quote boundary, body))

  unfoldable pub attachment_part : Attachment → Part
  attachment_part a = (
    ("Content-Type", if a.content_type =ₛ "" then "application/octet-stream" else a.content_type)
        ∷ (
          "Content-Disposition",
          "attachment; filename=" <> quote (sanitize_header_value a.filename),
        )
        ∷ ("Content-Transfer-Encoding", "base64")
        ∷ [],
    encode_base64_wrapped a.content,
  )

  unfoldable pub attachment_parts : List Attachment → List Part
  attachment_parts [] = []
  attachment_parts (a ∷ attachments) = attachment_part a ∷ attachment_parts attachments

  unfoldable pub build_mixed : String → String → List Attachment → Result (String × String)
  build_mixed content_type content attachments =
      let boundary = "MIXED_" <> p.uuids 1 in
      let encoding =
        if is_multipart content_type then [] else ("Content-Transfer-Encoding", "8bit") ∷ [] in
      p.multipart boundary
        ((("Content-Type", content_type) ∷ encoding, content) ∷ attachment_parts attachments)
      >>= λ body. ok ("multipart/mixed; boundary=" <> quote boundary, body)

  -- The header fields of Build, in order.
  unfoldable pub fields : Message → String → List (String × String)
  fields msg content_type =
      ("From", msg.from)
      ∷ (listed "To" msg.to
          ++ (listed "Cc" msg.cc
              ++ (("Subject", msg.subject)
                  ∷ ("Date", p.date)
                  ∷ ("Message-Id", "<" <> (p.uuids 2 <> ("@" <> (msg.domain <> ">"))))
                  ∷ ("MIME-Version", "1.0")
                  ∷ (msg.headers ++ ("Content-Type", content_type) ∷ []))))

  -- fmt.Errorf with %w on an error.
  abbrev pub labelled : {A : Type 0} → String → Result A → Result A
  labelled text (ok a) = ok a
  labelled text (err e) = err (wrap text e)

  unfoldable pub top_part : Message → String × String → Result (String × String)
  top_part msg (content_type, content) = elim msg.attachments [
    | [] ↦ ok (content_type, content)
    | _ ∷ _ ↦
        labelled "mailbuild: build mixed envelope: "
          (build_mixed content_type content msg.attachments)
  ]

  unfoldable pub render : Message → String × String → Result String
  render msg (content_type, body) = ok (write_headers (fields msg content_type) <> ("\r\n" <> body))

  unfoldable pub build : Message → Result String
  unfolding top_part render
  build msg =
      labelled "mailbuild: build body part: " (build_body_part msg.text msg.html)
      >>= top_part msg
      >>= render msg
