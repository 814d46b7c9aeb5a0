-- ===== src/Filter/Alignment.antt =====
-- What stands behind a message that its domain's DMARC policy lets through.
use envelope.Prelude.{
  ◌≡◌, ◌≢◌, refl, ◌⊎◌, inl, inr, ℤ, Bool, true, ◌&&◌, Option, none, some, String, ◌=ₛ◌, eq_iff,
  List, [], ◌∷◌, arith, Bool-cases,
}
use envelope.Context.{Result, ok, err}
use envelope.Filter.{
  reject, SpfResult, spf_pass, policy_reject, AlignmentMode, alignment_relaxed, DmarcRecord,
  published, Verification, Checks, Input, results, verify_dkim, sender_domain, lookup_dmarc,
  unaligned, decide, aligned, same_org, from_header_domain, any_aligned, find_record,
  is_aligned_with, evaluate, succeeded, is_pass,
}

module _ (c : Checks) where
  -- RFC 7489: the same domain, or one organisational domain unless the mode is strict.
  abbrev pub SharesDomain : String → String → AlignmentMode → Type 0
  SharesDomain auth from mode =
      (c.to_lower auth ≡ c.to_lower from)
      ⊎ ((mode ≡ alignment_relaxed)
          × ((org : String) × (c.effective_tld_plus_one (c.to_lower auth) ≡ some org)
              × (c.effective_tld_plus_one (c.to_lower from) ≡ some org)))

  same_org-some :
      (a b : Option String) → same_org a b ≡ true → (org : String) × (a ≡ some org) × (b ≡ some org)
  unfolding same_org
  same_org-some (some a) (some b) h = (a, refl, ground (arith, eq_iff a b))
  same_org-some (some a) none h = cc
  same_org-some none b h = cc

  aligned-SharesDomain :
      (auth from : String) (mode : AlignmentMode)
      → aligned c auth from mode ≡ true
      → SharesDomain auth from mode
  unfolding aligned same_org
  aligned-SharesDomain auth from mode h = elim (Bool-cases (c.to_lower auth =ₛ c.to_lower from)) [
    | inl same ↦ inl ((eq_iff _ _).0 same)
    | inr other ↦
        let a = c.effective_tld_plus_one (c.to_lower auth) in
        let b = c.effective_tld_plus_one (c.to_lower from) in
        inr (ground (arith, h, other), same_org-some a b (ground (arith, h, other)))
  ]

  -- A signature that verified, of a domain aligned with the header's.
  abbrev pub HasSignature : List Verification → String → AlignmentMode → Type 0
  HasSignature [] from mode = ⊥
  HasSignature (v ∷ vs) from mode =
      ((v.failure ≡ none) × SharesDomain v.domain from mode) ⊎ HasSignature vs from mode

  any_aligned-HasSignature :
      (vs : List Verification) (from : String) (mode : AlignmentMode)
      → any_aligned c (results vs) from mode ≡ true
      → HasSignature vs from mode
  unfolding any_aligned results succeeded
  any_aligned-HasSignature [] from mode h = cc
  any_aligned-HasSignature (v ∷ vs) from mode h =
      elim (Bool-cases (succeeded v.failure && aligned c v.domain from mode)) [
        | inl good ↦
            inl
              (ground (arith, good), aligned-SharesDomain v.domain from mode (ground (arith, good)))
        | inr bad ↦ inr (any_aligned-HasSignature vs from mode (ground (arith, h, bad)))
      ]

  -- The verifications of the body, none if the library failed.
  abbrev pub verified : Result (List Verification) → List Verification
  verified (ok vs) = vs
  verified (err e) = []

  verify_dkim_lem :
      (answer : Result (List Verification)) → verify_dkim answer ≡ results (verified answer)
  unfolding verify_dkim results
  verify_dkim_lem (ok vs) = refl
  verify_dkim_lem (err e) = refl

  decide_unaligned :
      (r : DmarcRecord) (is_aligned failed_open : Bool) (score reject_at quarantine_at : ℤ)
      → r.policy ≡ policy_reject
      → (decide (some r) is_aligned score failed_open reject_at quarantine_at).0 ≢ reject
      → is_aligned ≡ true
  unfolding decide unaligned
  decide_unaligned r is_aligned failed_open score reject_at quarantine_at strict passed =
      ground (arith, passed)

  is_pass_lem : (spf : SpfResult) → is_pass spf ≡ true → spf ≡ spf_pass
  is_pass_lem spf h = ground arith

  is_aligned_with_lem :
      (r : DmarcRecord) (spf : SpfResult) (mail_from helo from : String)
      (answer : Result (List Verification))
      → is_aligned_with c (some r) spf mail_from helo from (verify_dkim answer) ≡ true
      → ((spf ≡ spf_pass) × SharesDomain (sender_domain mail_from helo) from r.spf_alignment)
        ⊎ HasSignature (verified answer) from r.dkim_alignment
  unfolding is_aligned_with
  is_aligned_with_lem r spf mail_from helo from answer h =
      elim (Bool-cases
        (is_pass spf && aligned c (sender_domain mail_from helo) from r.spf_alignment)) [
          | inl good ↦ inl (
            is_pass_lem spf (ground (arith, good)),
            aligned-SharesDomain (sender_domain mail_from helo) from r.spf_alignment
                (ground (arith, good)),
          )
          | inr bad ↦ inr (
              any_aligned-HasSignature (verified answer) from r.dkim_alignment
                (rw (← verify_dkim_lem answer) (ground (arith, h, bad))))
        ]

  -- A message that is not rejected, whose From domain publishes the policy `reject`, is backed by
  -- an SPF pass of an aligned domain or by a valid DKIM signature of an aligned domain, also when
  -- rspamd is out of reach and whatever the spam thresholds are.
  pub not_spoofed :
      (i : Input c) (r : DmarcRecord)
      → from_header_domain c i.body ≢ ""
      → c.lookup_record (from_header_domain c i.body) ≡ published r
      → r.policy ≡ policy_reject
      → (evaluate c i).verdict ≢ reject
      → let from = from_header_domain c i.body in
        ((c.check_host i.client_ip i.helo_domain i.mail_from ≡ spf_pass)
          × SharesDomain (sender_domain i.mail_from i.helo_domain) from r.spf_alignment)
        ⊎ HasSignature (verified (c.verify i.body)) from r.dkim_alignment
  unfolding evaluate
  not_spoofed i r sent listed strict passed =
      let from = from_header_domain c i.body in
      let found : find_record c from ≡ some r =
        unfold find_record lookup_dmarc in ground (arith, eq_iff from "", sent, listed) in
      is_aligned_with_lem r (c.check_host i.client_ip i.helo_domain i.mail_from) i.mail_from
        i.helo_domain from (c.verify i.body)
        (decide_unaligned r _ _ _ _ _ strict (rw found at passed))
