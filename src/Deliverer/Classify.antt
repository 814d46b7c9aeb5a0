-- ===== src/Deliverer/Classify.antt =====
-- internal/deliverer/classify.go: which failures are final. `errors.As` finds the first error of a
-- type in the chain.
use envelope.Prelude.{Bool, true, false, not, Option, none, some, String, ◌<>◌, if◌then◌else◌}
use envelope.Context.{SmtpError, Error, smtp, dns, delivery, wrap}

unfoldable pub permanent_err : Error → Error
permanent_err e = delivery true e

unfoldable pub temporary_err : Error → Error
temporary_err e = delivery false e

unfoldable pub as_delivery : Error → Option Bool
as_delivery (delivery permanent e) = some permanent
as_delivery (wrap s e) = as_delivery e
as_delivery _ = none

unfoldable pub as_smtp : Error → Option SmtpError
as_smtp (smtp e) = some e
as_smtp (delivery permanent e) = as_smtp e
as_smtp (wrap s e) = as_smtp e
as_smtp _ = none

as_dns : Error → Option Bool
as_dns (dns missing s) = some missing
as_dns (delivery permanent e) = as_dns e
as_dns (wrap s e) = as_dns e
as_dns _ = none

unfoldable pub is_not_found_dns_error : Error → Bool
unfolding as_dns
is_not_found_dns_error e = elim (as_dns e) [ some missing ↦ missing | none ↦ false ]

-- go-smtp's SMTPError.Temporary.
module _ (temporary : SmtpError → Bool) where
  unfoldable pub is_permanent : Error → Bool
  is_permanent e = elim (as_delivery e) [
    | some permanent ↦ permanent
    | none ↦ elim (as_smtp e) [ some reply ↦ not (temporary reply) | none ↦ false ]
  ]

  unfoldable pub classify_smtp_err : String → Error → Error
  unfolding permanent_err temporary_err
  classify_smtp_err stage e = elim (as_smtp e) [
    | some reply ↦
        let wrapped = wrap ("deliverer: " <> (stage <> ": ")) (smtp reply) in
        if temporary reply then temporary_err wrapped else permanent_err wrapped
    | none ↦ temporary_err (wrap ("deliverer: " <> (stage <> ": ")) e)
  ]
