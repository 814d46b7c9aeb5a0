-- ===== src/Filter/Tests.antt =====
-- A message of ann@a.example at thresholds on both sides of its score.
use envelope.Prelude.{◌≤◌, ◌≡◌, ◌≢◌, ◌⊎◌, refl, sym, ◌∙◌, eq_iff, pos, false, none, [], arith, cut}
use envelope.Context.{ok}
use envelope.Samples.{sender_checks, strict_domain}
use envelope.Filter.{
  quarantine, reject, alignment_strict, spf_pass, Input, sender_domain, domain_of, lookup_dmarc,
  unaligned, reaches, decide, aligned, from_header_domain, find_record, is_aligned_with, evaluate,
}
use envelope.Filter.Strictness.{severity, IsStricter, decide_mono}
use envelope.Filter.Alignment.{SharesDomain, HasSignature, verified, not_spoofed}

abbrev letter : Input sender_checks
letter = record {
  body = "hello";
  mail_from = "ann@a.example";
  rcpt_to = [];
  client_ip = tt;
  helo_domain = "mx.a.example";
  reject_threshold = pos 9;
  quarantine_threshold = pos 5;
}

quarantined_letter : (evaluate sender_checks letter).verdict ≡ quarantine
unfolding evaluate decide unaligned reaches find_record lookup_dmarc is_aligned_with aligned
    sender_domain domain_of from_header_domain cut
quarantined_letter = refl

stricter : IsStricter (pos 6) (pos 8)
stricter = record { where_set = λ e. (refl, omega arith) }

decide_mono_example :
    severity (decide none false (pos 7) false (pos 9) (pos 8)).0
    ≤ severity (decide none false (pos 8) false (pos 9) (pos 6)).0
decide_mono_example =
    decide_mono none false false (pos 7) (pos 8) (pos 9) (pos 9) (pos 8) (pos 6) (omega arith)
      (record { where_set = λ e. (refl, omega arith) }) stricter

from_set : from_header_domain sender_checks "hello" ≢ ""
unfolding from_header_domain domain_of cut
from_set = λ e. ground (arith, e, eq_iff "a.example" "")

not_rejected : (evaluate sender_checks letter).verdict ≢ reject
not_rejected = λ e. cc (sym quarantined_letter ∙ e)

not_spoofed_example :
    ((spf_pass ≡ spf_pass)
      × SharesDomain sender_checks
          (sender_domain "ann@a.example" "mx.a.example")
          (from_header_domain sender_checks "hello")
          alignment_strict)
    ⊎ HasSignature sender_checks
        (verified sender_checks (ok []))
        (from_header_domain sender_checks "hello")
        alignment_strict
not_spoofed_example = not_spoofed sender_checks letter strict_domain from_set refl refl not_rejected
