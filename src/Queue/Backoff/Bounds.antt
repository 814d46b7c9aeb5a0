-- ===== src/Queue/Backoff/Bounds.antt =====
-- The delay that FullJitter draws.
use envelope.Prelude.{
  ℕ, zero, suc, ◌^◌, ◌*◌, ◌≤◌, ◌<◌, ◌≡◌, ◌⊎◌, ℤ, pos, pos_part, ltb, ltb_ℤ, is_positive, Bool, true,
  false, ◌&&◌, ap, inl, inr, some, arith, if◌then◌else◌, refl,
}
use envelope.Queue.Backoff.{Rand, upper_bound, to_int64, full_jitter}

-- A duration of at most 2 ^ 53 nanoseconds, which is 104 days.
abbrev pub IsDuration : ℤ → Type 0
IsDuration z = (n : ℕ) × (z ≡ pos n) × (n ≤ 2 ^ 53)

-- A positive one.
abbrev pub IsPositiveDuration : ℤ → Type 0
IsPositiveDuration z = (n : ℕ) × (z ≡ pos n) × (n ≤ 2 ^ 53) × (0 < n)

pos-is_positive : (n : ℕ) → 0 < n → is_positive (pos n) ≡ true
pos-is_positive zero h = absurd (omega (arith, h))
pos-is_positive (suc n) h = refl

and_false : (b : Bool) → (b && false) ≡ false
and_false true = refl
and_false false = refl

if-pos : (b : Bool) (x y : ℕ) → (if b then pos x else pos y) ≡ pos (if b then x else y)
if-pos true x y = refl
if-pos false x y = refl

least : ℕ → ℕ → ℕ
least cap product = if ltb_ℤ (pos cap) (pos product) then cap else product

least-le : (cap product : ℕ) → (least cap product ≤ cap) × (least cap product ≤ product)
unfolding least
least-le cap product = ground arith

module _ (rand : Rand) (r : rand.State) where
  upper_bound-least :
      (attempt : ℤ) (base cap : ℕ)
      → base ≤ 2 ^ 53
      → 0 < base
      → cap ≤ 2 ^ 53
      → upper_bound rand attempt (pos base) (pos cap)
        ≡ some (pos (least cap (base * 2 ^ pos_part attempt)))
  unfolding upper_bound least
  upper_bound-least attempt base cap small positive fits =
      rw
        (
          rand.float64_exact base small,
          rand.float64_exact cap fits,
          pos-is_positive base positive,
          and_false (ltb 1023 (pos_part attempt)),
        )
        (ap some (if-pos (ltb_ℤ (pos cap) (pos (base * 2 ^ pos_part attempt))) cap _))

  draw-lt :
      (n : ℕ)
      → n ≤ 2 ^ 53
      → let delay =
          (if is_positive (pos n) then rand.int63n r (to_int64 rand (pos n)) else (0, r)).0 in
        (delay ≡ 0) ⊎ (delay < n)
  unfolding to_int64
  draw-lt zero h = inl refl
  draw-lt (suc n) h =
      let fits : ltb_ℤ (pos (suc n)) (pos (2 ^ 63)) ≡ true = ground (arith, h) in
      inr (rw (fits, to_int64) (rand.int63n_lt r (suc n) (omega arith)))

  -- Whatever the attempt, a negative one counting as 0: for a positive base and a cap of at most
  -- 2 ^ 53 nanoseconds each, the delay is 0, or lies below the cap and below base * 2 ^ attempt.
  pub full_jitter_bounds :
      (attempt base max_delay : ℤ)
      → IsPositiveDuration base
      → IsDuration max_delay
      → let delay = (full_jitter rand attempt base max_delay r).0 in
        (delay ≡ 0)
        ⊎ ((delay < pos_part max_delay) × (delay < pos_part base * 2 ^ pos_part attempt))
  unfolding full_jitter
  full_jitter_bounds attempt base max_delay (b, is_b, small, positive) (c, is_c, fits) =
      let n = least c (b * 2 ^ pos_part attempt) in
      let (below, under) = least-le c (b * 2 ^ pos_part attempt) in
      rw (is_b, is_c, upper_bound-least attempt b c small positive fits, full_jitter)
        (elim (draw-lt n (omega (arith, below, fits))) [
          | inl e ↦ inl e
          | inr l ↦ inr (omega (arith, l, below), omega (arith, l, under))
        ])
