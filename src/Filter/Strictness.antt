-- ===== src/Filter/Strictness.antt =====
-- How the verdict depends on score, thresholds and the scorer's failure.
use envelope.Prelude.{
  ℕ, ◌≤◌, ◌≡◌, ◌⊎◌, ℤ, ◌≤ℤ◌, is_positive, Bool, true, false, Option, some, arith,
}
use envelope.Filter.{
  Verdict, accept, quarantine, reject, DmarcRecord, policy_reject, decide, unaligned, reaches,
}

abbrev pub severity : Verdict → ℕ
severity accept = 0
severity quarantine = 1
severity reject = 2

-- The threshold `a` lets no score pass that `b` stops: 0 and less stand for no threshold.
pub record IsStricter (a b : ℤ) : Type 0 where
  pub where_set : is_positive b ≡ true → (is_positive a ≡ true) × (a ≤ℤ b)

reaches_mono :
    (score score' threshold threshold' : ℤ)
    → score ≤ℤ score'
    → IsStricter threshold' threshold
    → reaches threshold score ≡ true
    → reaches threshold' score' ≡ true
unfolding reaches
reaches_mono score score' t t' h s e = ground (arith, s.where_set)

-- A higher score and stricter thresholds never make the verdict milder.
pub decide_mono :
    (dmarc : Option DmarcRecord) (is_aligned failed_open : Bool) (score score' : ℤ)
    (reject_at reject_at' quarantine_at quarantine_at' : ℤ)
    → score ≤ℤ score'
    → IsStricter reject_at' reject_at
    → IsStricter quarantine_at' quarantine_at
    → severity (decide dmarc is_aligned score failed_open reject_at quarantine_at).0
      ≤ severity (decide dmarc is_aligned score' failed_open reject_at' quarantine_at').0
unfolding decide
decide_mono dmarc is_aligned failed_open score score' r r' q q' h hr hq =
    ground (arith, reaches_mono score score' r r' h hr, reaches_mono score score' q q' h hq)

-- With the scorer out of reach no message is accepted, and none is rejected but by the DMARC policy
-- of its domain, whatever the thresholds are.
pub decide_failed_open :
    (dmarc : Option DmarcRecord) (is_aligned : Bool) (score reject_at quarantine_at : ℤ)
    → let verdict = (decide dmarc is_aligned score true reject_at quarantine_at).0 in
      (verdict ≡ quarantine)
      ⊎ ((verdict ≡ reject)
          × (is_aligned ≡ false)
          × ((r : DmarcRecord) × (dmarc ≡ some r) × (r.policy ≡ policy_reject)))
unfolding decide unaligned
decide_failed_open dmarc is_aligned score reject_at quarantine_at = ground arith
