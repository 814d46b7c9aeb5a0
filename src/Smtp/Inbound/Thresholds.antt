-- ===== src/Smtp/Inbound/Thresholds.antt =====
-- effectiveThresholds against the thresholds of each recipient's vhost.
use envelope.Prelude.{◌≤◌, ℤ, pos, String, List, [], ◌∷◌, All, arith}
use envelope.Directory.{Vhost}
use envelope.Filter.{Input, evaluate}
use envelope.Filter.Strictness.{severity, IsStricter, decide_mono}
use envelope.Smtp.{Config}
use envelope.Smtp.Inbound.{Parts, Session, min_positive, strictest, input}

IsStricter-refl : (a : ℤ) → IsStricter a a
IsStricter-refl a = record { where_set = λ e. (e, omega arith) }

IsStricter-trans : (a b c : ℤ) → IsStricter a b → IsStricter b c → IsStricter a c
IsStricter-trans a b c h k = record {
  where_set = λ e. (
    (h.where_set (k.where_set e).0).0,
    omega (arith, (h.where_set (k.where_set e).0).1, (k.where_set e).1),
  );
}

min_positive_left : (a b : ℤ) → IsStricter (min_positive a b) a
unfolding min_positive
min_positive_left a b = record { where_set = λ e. ground (arith, e) }

min_positive_right : (a b : ℤ) → IsStricter (min_positive a b) b
unfolding min_positive
min_positive_right a b = record { where_set = λ e. ground (arith, e) }

strictest_start :
    (threshold : Vhost → ℤ) (current : ℤ) (rcpts : List (String × Vhost))
    → IsStricter (strictest threshold current rcpts) current
unfolding strictest
strictest_start t current [] = IsStricter-refl current
strictest_start t current ((to, v) ∷ rest) =
    IsStricter-trans _ _ _ (strictest_start t (min_positive current (t v)) rest)
      (min_positive_left current (t v))

strictest-IsStricter_each :
    (threshold : Vhost → ℤ) (current : ℤ) (rcpts : List (String × Vhost))
    → All (λ r. IsStricter (strictest threshold current rcpts) (threshold r.1)) rcpts
unfolding strictest
strictest-IsStricter_each t current [] = tt
strictest-IsStricter_each t current ((to, v) ∷ rest) = (
  IsStricter-trans _ _ _ (strictest_start t (min_positive current (t v)) rest)
      (min_positive_right current (t v)),
  strictest-IsStricter_each t (min_positive current (t v)) rest,
)

module _ (p : Parts) (cfg : Config) where
  -- The message as a server with this one vhost would hand it to the filter.
  abbrev pub input_of : Session p → String → Vhost → Input p.checks
  input_of s body v = record (input p cfg s body) {
    reject_threshold = v.spam_reject_threshold;
    quarantine_threshold = v.spam_quarantine_threshold;
  }

  as_strict_as :
      (s : Session p) (body : String) (rcpts : List (String × Vhost))
      → All (λ r. IsStricter (input p cfg s body).reject_threshold r.1.spam_reject_threshold) rcpts
      → All
          (λ r. IsStricter (input p cfg s body).quarantine_threshold r.1.spam_quarantine_threshold)
          rcpts
      → All
          (λ r.
            severity (evaluate p.checks (input_of s body r.1)).verdict
            ≤ severity (evaluate p.checks (input p cfg s body)).verdict)
          rcpts
  unfolding evaluate input
  as_strict_as s body [] _ _ = tt
  as_strict_as s body ((to, v) ∷ rest) (h, hs) (k, ks) =
      (decide_mono _ _ _ _ _ _ _ _ _ (omega arith) h k, as_strict_as s body rest hs ks)

  -- The verdict of a transaction is at least as severe as the one that each recipient's vhost would
  -- come to at its own two thresholds, on the same message from the same client: no recipient's
  -- policy is waived because another recipient's is milder.
  pub evaluate-strictest :
      (s : Session p) (body : String)
      → All
          (λ r.
            severity (evaluate p.checks (input_of s body r.1)).verdict
            ≤ severity (evaluate p.checks (input p cfg s body)).verdict)
          s.rcpts
  unfolding input
  evaluate-strictest s body =
      as_strict_as s body s.rcpts (strictest-IsStricter_each _ (pos 0) s.rcpts)
        (strictest-IsStricter_each _ (pos 0) s.rcpts)
