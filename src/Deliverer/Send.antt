-- ===== src/Deliverer/Send.antt =====
-- internal/deliverer/send.go: MX lookup, and one delivery over SMTP. The resolver, the network and
-- the go-smtp client are parameters.
pub mod Preference
pub mod Outcome
use envelope.Prelude.{
  ℕ, suc, ◌+◌, Bool, true, false, Option, none, some, String, ◌<>◌, ltb, quote, trim_last, itoa,
  join_host_port, List, [], ◌∷◌, if◌then◌else◌,
}
use envelope.Context.{SmtpError, Error, plain, delivery, wrap, Result, ok, err}
use envelope.Queue.{Job}
use envelope.Deliverer.Config.{Config}
use envelope.Deliverer.Classify.{
  permanent_err, temporary_err, is_not_found_dns_error, is_permanent, classify_smtp_err,
}

-- *net.MX
pub record Mx : Type 0 where
  pub host : String
  pub pref : ℕ

-- sort.Slice by preference. The Go sort is not stable: among equals any order is allowed.
insert_mx : Mx → List Mx → List Mx
insert_mx mx [] = mx ∷ []
insert_mx mx (y ∷ ys) = if ltb y.pref mx.pref then y ∷ insert_mx mx ys else mx ∷ (y ∷ ys)

unfoldable pub sort_mx : List Mx → List Mx
unfolding insert_mx
sort_mx [] = []
sort_mx (mx ∷ mxs) = insert_mx mx (sort_mx mxs)

no_mx : String → String
no_mx domain = "deliverer: no MX records for " <> quote domain

-- `answer` is the resolver's.
unfoldable pub lookup_mx : Result (List Mx) → String → Result (List Mx)
unfolding sort_mx no_mx permanent_err temporary_err
lookup_mx (err e) domain =
    if is_not_found_dns_error e
    then err (permanent_err (wrap (no_mx domain <> ": ") e))
    else err (temporary_err (wrap ("deliverer: MX lookup for " <> (quote domain <> " failed: ")) e))
lookup_mx (ok []) domain = err (permanent_err (plain (no_mx domain)))
lookup_mx (ok (mx ∷ mxs)) domain = ok (sort_mx (mx ∷ mxs))

-- The network, and a go-smtp client on it. The dials of one attempt are told apart by the Bool.
pub record Network : Type 1 where
  pub Conn : Type 0
  pub Client : Type 0
  pub Writer : Type 0
  pub tcp_dial : Bool → String → Result Conn
  pub new_client_start_tls : Conn → String → Result Client
  pub new_client : Conn → Client
  pub hello : Client → String → Option Error
  pub mail_from : Client → String → Option Error
  pub rcpt_to : Client → String → Option Error
  pub begin_data : Client → Result Writer
  pub write : Writer → String → Option Error
  pub end_data : Writer → Option Error

-- Give up with the classified error of a stage, or go on.
abbrev or_fail : (Error → Error) → Option Error → Option Error → Option Error
or_fail tag none rest = rest
or_fail tag (some e) rest = some (tag e)

module _ (net : Network) where
  open net use {
    Client, Writer, tcp_dial, new_client_start_tls, new_client, hello, mail_from, rcpt_to,
    begin_data, write, end_data,
  }

  -- Plaintext on a fresh connection where STARTTLS fails.
  plaintext : String → Result Client
  plaintext addr = elim (tcp_dial true addr) [ err e ↦ err e | ok conn ↦ ok (new_client conn) ]

  unfoldable pub dial : String → String → Result Client
  unfolding plaintext
  dial addr host = elim (tcp_dial false addr) [
    | err e ↦ err e
    | ok conn ↦ elim (new_client_start_tls conn host) [
      | ok client ↦ ok client
      | err e ↦ plaintext addr
    ]
  ]

  module _ (temporary : SmtpError → Bool) where
    send_body : Writer → String → Option Error
    unfolding temporary_err
    send_body writer body =
        or_fail (λ e. temporary_err (wrap "deliverer: write message body: " e)) (write writer body)
          (or_fail (classify_smtp_err temporary "DATA") (end_data writer) none)

    begin_body : Result Writer → String → Option Error
    unfolding send_body
    begin_body (err e) body = some (classify_smtp_err temporary "DATA" e)
    begin_body (ok writer) body = send_body writer body

    transaction : Config → Client → Job → String → Option Error
    unfolding begin_body
    transaction cfg client job body =
        or_fail (classify_smtp_err temporary "HELO") (hello client cfg.domain) (
          or_fail (classify_smtp_err temporary "MAIL FROM") (mail_from client job.from) (
            or_fail (classify_smtp_err temporary "RCPT TO") (rcpt_to client job.to)
              (begin_body (begin_data client) body)))

    unfoldable pub send_to_host : Config → String → Job → String → Option Error
    unfolding transaction temporary_err
    send_to_host cfg host job body =
        let addr = join_host_port (trim_last b'.' host) (itoa cfg.port) in
        elim (dial addr host) [
          | err e ↦ some (temporary_err (wrap ("deliverer: connect to " <> (addr <> ": ")) e))
          | ok client ↦ transaction cfg client job body
        ]

-- The network of the n-th host tried is `nets n`.
module _ (nets : ℕ → Network) (temporary : SmtpError → Bool) where
  pub send_from : ℕ → List Mx → Config → Job → String → Option Error → Option Error
  send_from n [] cfg job body last_err = last_err
  send_from n (mx ∷ mxs) cfg job body last_err =
      elim (send_to_host (nets n) temporary cfg mx.host job body) [
        | none ↦ none
        | some e ↦ elim (is_permanent temporary e) [
          | true ↦ some e
          | false ↦ send_from (suc n) mxs cfg job body (some e)
        ]
      ]

  unfoldable pub send : List Mx → Config → Job → String → Option Error
  unfolding send_from
  send mxs cfg job body = send_from 0 mxs cfg job body none
