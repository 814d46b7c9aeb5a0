-- ===== src/Deliverer/Bounce.antt =====
-- internal/deliverer/bounce.go: the delivery status notification for a message that is given up.
-- The multipart writer is that of mime/multipart over a bytes.Buffer, which does not fail.
pub mod Injection
use envelope.Prelude.{
  ℕ, Bool, true, false, Option, none, some, String, ◌<>◌, quote, replace, ◌≡◌, if◌then◌else◌,
}
use envelope.Context.{Context, Error}
use envelope.Storage.{Store}
use envelope.Directory.{Directory, parse_address, mailbox_path}
use envelope.Queue.{Job}

unfoldable pub sanitize_header_value : String → String
sanitize_header_value s = replace 10 " " (replace 13 " " s)

abbrev crlf : String
crlf = "\r\n"

abbrev line : String → String
line s = s <> crlf

-- multipart.Writer.CreatePart, after the first part.
part : String → String → String → String
part boundary content_type body =
    crlf <> (line ("--" <> boundary) <> (line ("Content-Type: " <> content_type) <> (crlf <> body)))

first_part : String → String → String → String
first_part boundary content_type body =
    line ("--" <> boundary) <> (line ("Content-Type: " <> content_type) <> (crlf <> body))

-- What the notification takes from outside: time.Now() in RFC 1123 form, and two UUIDs.
pub record DsnInputs : Type 0 where
  pub date : String
  pub boundary_id : String
  pub message_id : String

dsn_headers : Job → String → DsnInputs → String → String
dsn_headers job mta i boundary =
    line ("From: Mail Delivery System <postmaster@" <> (mta <> ">"))
    <> (line ("To: " <> job.from)
        <> (line "Subject: Undelivered Mail Returned to Sender"
            <> (line ("Message-Id: <" <> (i.message_id <> ("@" <> (mta <> ">"))))
                <> (line ("Date: " <> i.date)
                    <> (line "MIME-Version: 1.0"
                        <> (line (
                              "Content-Type: multipart/report; report-type=delivery-status; boundary="
                              <> quote boundary)
                            <> crlf))))))

explanation : Job → String → String
explanation job cause =
    line "This is an automatically generated Delivery Status Notification."
    <> (crlf
        <> (line "Delivery to the following recipient failed permanently:"
            <> (crlf
                <> (line ("    " <> job.to)
                    <> (crlf <> (line "Technical details:" <> line cause))))))

unfoldable pub diagnostic : String → String
diagnostic cause = line ("Diagnostic-Code: smtp;" <> cause)

status : Job → String → String → String
unfolding diagnostic
status job mta cause =
    line ("Reporting-MTA: dns;" <> mta)
    <> (crlf
        <> (line ("Final-Recipient: rfc822;" <> job.to)
            <> (line "Action: failed" <> (line "Status: 5.0.0" <> diagnostic cause))))

-- `cause` is the text of the error.
unfoldable pub build_dsn : Job → String → String → DsnInputs → String
unfolding dsn_headers explanation status part first_part
build_dsn job mta cause i =
    let boundary = "DSN_" <> i.boundary_id in
    let safe = sanitize_header_value cause in
    dsn_headers job mta i boundary
    <> (first_part boundary "text/plain; charset=utf-8" (explanation job safe)
        <> (part boundary "message/delivery-status" (status job mta safe)
            <> (part boundary "message/rfc822-headers"
                  (line ("From: " <> job.from) <> line ("To: " <> job.to))
                <> (crlf <> line ("--" <> (boundary <> "--"))))))

module _ (store : Store) (dir : Directory) where
  -- Where the notification goes: to the sender's INBOX, if the sender is one of our vhosts'.
  unfoldable pub bounce_target : Job → Option (String × String)
  bounce_target job = elim (parse_address job.from) [
    | none ↦ none
    | some (local, domain) ↦
        if dir.vhost_active domain then some (domain, mailbox_path local "INBOX") else none
  ]

  unfoldable pub deliver_bounce :
      Context → Job → String → String → DsnInputs → store.State → store.State
  unfolding bounce_target
  deliver_bounce ctx job mta cause i s = elim (bounce_target job) [
    | none ↦ s
    | some (domain, mailbox) ↦ (store.write ctx domain mailbox (build_dsn job mta cause i) s).1
  ]
