-- ===== src/Filter.antt =====
-- internal/filter: the verdict on an inbound message (verdict.go, spf.go, dkim.go, dmarc.go). SPF,
-- DKIM, DMARC lookup, the public suffix list, header parsing and rspamd are parameters.
pub mod Strictness
pub mod Alignment
mod Tests
use envelope.Prelude.{
  ℕ, ℤ, pos, ltb_ℤ, is_positive, Bool, true, false, not, ◌&&◌, ◌||◌, Option, none, some, String,
  ◌=ₛ◌, cut, List, [], ◌∷◌, if◌then◌else◌,
}
use envelope.Context.{Error, Result, ok, err}

pub data Verdict : Type 0 where
  accept quarantine reject : Verdict

pub data SpfResult : Type 0 where
  spf_none spf_neutral spf_pass spf_fail spf_soft_fail spf_temp_error spf_perm_error : SpfResult

pub record DkimResult : Type 0 where
  pub domain : String
  pub is_valid : Bool

-- dmarc.Policy and dmarc.AlignmentMode: the values that the program tells apart.
pub data Policy : Type 0 where
  policy_none policy_quarantine policy_reject : Policy

pub data AlignmentMode : Type 0 where
  alignment_strict alignment_relaxed : AlignmentMode

pub record DmarcRecord : Type 0 where
  pub policy : Policy
  pub spf_alignment : AlignmentMode
  pub dkim_alignment : AlignmentMode

-- The answer of dmarc.LookupWithOptions; ErrNoPolicy is told apart from other errors.
pub data DmarcAnswer : Type 0 where
  published : DmarcRecord → DmarcAnswer
  no_policy : DmarcAnswer
  lookup_failed : Error → DmarcAnswer

-- A DKIM verification of the library: the signing domain, and its error.
pub record Verification : Type 0 where
  pub domain : String
  pub failure : Option Error

-- What Pipeline calls. Scores are integers in place of float64: they are only compared.
pub record Checks : Type 1 where
  pub Ip : Type 0
  pub check_host : Ip → String → String → SpfResult
  pub verify : String → Result (List Verification)
  pub lookup_record : String → DmarcAnswer
  pub rspamd_check : String → List String → String → Result ℤ
  pub header_from : String → Option String
  pub effective_tld_plus_one : String → Option String
  pub to_lower : String → String

pub record Input (c : Checks) : Type 0 where
  pub body : String
  pub mail_from : String
  pub rcpt_to : List String
  pub client_ip : c.Ip
  pub helo_domain : String
  pub reject_threshold : ℤ
  pub quarantine_threshold : ℤ

pub record Outcome : Type 0 where
  pub verdict : Verdict
  pub reason : String
  pub spf : SpfResult
  pub dkim : List DkimResult
  pub dmarc : Option DmarcRecord
  pub is_aligned : Bool
  pub spam_score : ℤ
  pub failed_open : Bool

after_at : Option (String × String) → String
after_at none = ""
after_at (some (local, domain)) = domain

unfoldable pub domain_of : String → String
unfolding after_at
domain_of addr = after_at (cut b'@' addr)

unfoldable pub sender_domain : String → String → String
sender_domain mail_from helo_domain =
    let d = domain_of mail_from in if d =ₛ "" then helo_domain else d

succeeded : Option Error → Bool
succeeded none = true
succeeded (some e) = false

unfoldable pub results : List Verification → List DkimResult
unfolding succeeded
results [] = []
results (v ∷ vs) = record { domain = v.domain; is_valid = succeeded v.failure } ∷ results vs

-- VerifyDKIM, whose error Evaluate drops.
unfoldable pub verify_dkim : Result (List Verification) → List DkimResult
verify_dkim (ok vs) = results vs
verify_dkim (err e) = []

-- LookupDMARC, whose error Evaluate drops.
unfoldable pub lookup_dmarc : DmarcAnswer → Option DmarcRecord
lookup_dmarc (published r) = some r
lookup_dmarc no_policy = none
lookup_dmarc (lookup_failed e) = none

abbrev pub is_policy_reject : Policy → Bool
is_policy_reject policy_reject = true
is_policy_reject _ = false

abbrev pub is_policy_quarantine : Policy → Bool
is_policy_quarantine policy_quarantine = true
is_policy_quarantine _ = false

-- A policy of the domain, and a message that is not aligned with it.
unfoldable pub unaligned : (Policy → Bool) → Option DmarcRecord → Bool → Bool
unaligned asks none is_aligned = false
unaligned asks (some r) is_aligned = not is_aligned && asks r.policy

-- The threshold is set, and the score has reached it.
unfoldable pub reaches : ℤ → ℤ → Bool
reaches threshold score = is_positive threshold && not (ltb_ℤ score threshold)

unfoldable pub decide : Option DmarcRecord → Bool → ℤ → Bool → ℤ → ℤ → Verdict × String
decide dmarc is_aligned score failed_open reject_threshold quarantine_threshold =
    if not failed_open && reaches reject_threshold score
    then (reject, "spam score at or above reject threshold")
    else if unaligned is_policy_reject dmarc is_aligned
    then (reject, "DMARC policy=reject and message is not aligned")
    else if failed_open
    then (quarantine, "rspamd unavailable; failing open to quarantine (FR-2.6)")
    else if reaches quarantine_threshold score
    then (quarantine, "spam score at or above quarantine threshold")
    else if unaligned is_policy_quarantine dmarc is_aligned
    then (quarantine, "DMARC policy=quarantine and message is not aligned")
    else (accept, "passed all checks")

abbrev is_strict : AlignmentMode → Bool
is_strict alignment_strict = true
is_strict alignment_relaxed = false

abbrev is_pass : SpfResult → Bool
is_pass spf_pass = true
is_pass _ = false

same_org : Option String → Option String → Bool
same_org (some a) (some b) = a =ₛ b
same_org _ _ = false

module _ (c : Checks) where
  open c use {
    check_host, verify, lookup_record, rspamd_check, header_from, effective_tld_plus_one, to_lower,
  }

  unfoldable pub aligned : String → String → AlignmentMode → Bool
  unfolding same_org
  aligned auth from mode =
      let a = to_lower auth in
      let f = to_lower from in
      if a =ₛ f
      then true
      else if is_strict mode
      then false
      else same_org (effective_tld_plus_one a) (effective_tld_plus_one f)

  unfoldable pub from_header_domain : String → String
  from_header_domain body = elim (header_from body) [ none ↦ "" | some addr ↦ domain_of addr ]

  unfoldable pub any_aligned : List DkimResult → String → AlignmentMode → Bool
  any_aligned [] from mode = false
  any_aligned (d ∷ ds) from mode =
      (d.is_valid && aligned d.domain from mode) || any_aligned ds from mode

  unfoldable pub find_record : String → Option DmarcRecord
  find_record from = if from =ₛ "" then none else lookup_dmarc (lookup_record from)

  unfoldable pub is_aligned_with :
      Option DmarcRecord → SpfResult → String → String → String → List DkimResult → Bool
  is_aligned_with none spf mail_from helo from dkim = false
  is_aligned_with (some r) spf mail_from helo from dkim =
      (is_pass spf && aligned (sender_domain mail_from helo) from r.spf_alignment)
      || any_aligned dkim from r.dkim_alignment

  score_of : Result ℤ → ℤ
  score_of (ok score) = score
  score_of (err e) = pos 0

  has_failed : Result ℤ → Bool
  has_failed (ok score) = false
  has_failed (err e) = true

  unfoldable pub evaluate : Input c → Outcome
  unfolding score_of has_failed
  evaluate i =
      let spf = check_host i.client_ip i.helo_domain i.mail_from in
      let dkim = verify_dkim (verify i.body) in
      let from = from_header_domain i.body in
      let dmarc = find_record from in
      let is_aligned = is_aligned_with dmarc spf i.mail_from i.helo_domain from dkim in
      let rv = rspamd_check i.mail_from i.rcpt_to i.body in
      let decided =
        decide dmarc is_aligned (score_of rv) (has_failed rv) i.reject_threshold
          i.quarantine_threshold in
      record {
        verdict = decided.0;
        reason = decided.1;
        spf = spf;
        dkim = dkim;
        dmarc = dmarc;
        is_aligned = is_aligned;
        spam_score = score_of rv;
        failed_open = has_failed rv;
      }
