-- ===== src/RateLimit/Bounds.antt =====
-- How many calls a bucket lets through.
use native.Mathlib.Nat.{add-mul, suc-mul}
use envelope.Prelude.{
  ℕ, suc, ◌+◌, ◌-◌, ◌*◌, ◌≤◌, ◌≡◌, ap, ◌∙◌, arith, Bool, true, false, Bool-cases, inl, inr, ltb,
  leb, List, [], ◌∷◌, All,
}
use envelope.RateLimit.{TokenBucket, new_token_bucket, refill, allow, run}

abbrev pub count_allowed : List Bool → ℕ
count_allowed [] = 0
count_allowed (true ∷ answers) = suc (count_allowed answers)
count_allowed (false ∷ answers) = count_allowed answers

-- What the bucket could still give up to the time `until`.
abbrev budget : ℕ → TokenBucket → ℕ
budget until b = b.tokens + (until - b.last) * b.refill_rate

-- A bucket that has not seen a later time, and holds no more than it can.
record Fits (until : ℕ) (b : TokenBucket) : Type 0 where
  seen : b.last ≤ until
  full : b.tokens ≤ b.capacity

refill-Fits :
    (until now : ℕ) (b : TokenBucket) → now ≤ until → Fits until b → Fits until (refill now b)
unfolding refill
refill-Fits until now b h f = elim (Bool-cases (leb now b.last)) [
  | inl e ↦ rw (e, refill) f
  | inr e ↦ rw (e, refill) (record { seen = h; full = ground arith })
]

split_time :
    (until now last rate : ℕ)
    → last ≤ now
    → now ≤ until
    → (until - last) * rate ≡ (until - now) * rate + (now - last) * rate
split_time until now last rate h k =
    ap (λ n. n * rate) gap ∙ add-mul (until - now) (now - last) rate
  where
    gap : until - last ≡ (until - now) + (now - last)
    gap = omega (arith, h, k)

refill-budget :
    (until now : ℕ) (b : TokenBucket) → now ≤ until → budget until (refill now b) ≤ budget until b
unfolding refill
refill-budget until now b h = elim (Bool-cases (leb now b.last)) [
  | inl e ↦ rw (e, refill) (omega arith)
  | inr e ↦
      rw (e, refill)
        (ground (arith, h, e, split_time until now b.last b.refill_rate (ground (arith, e)) h))
]

-- What one call takes out.
cost : ℕ → Bool → ℕ
cost one true = one
cost one false = 0

module _ (one : ℕ) where
  allow-budget :
      (until now : ℕ) (b : TokenBucket)
      → now ≤ until
      → cost one (allow one now b).0 + budget until (allow one now b).1 ≤ budget until b
  unfolding allow cost
  allow-budget until now b h = elim (Bool-cases (ltb (refill now b).tokens one)) [
    | inl e ↦ rw (e, allow) (omega (arith, refill-budget until now b h))
    | inr e ↦ rw (e, allow) (ground (arith, e, refill-budget until now b h))
  ]

  allow-Fits :
      (until now : ℕ) (b : TokenBucket)
      → now ≤ until
      → Fits until b
      → Fits until (allow one now b).1
  unfolding allow
  allow-Fits until now b h f =
      let g = refill-Fits until now b h f in
      elim (Bool-cases (ltb (refill now b).tokens one)) [
        | inl e ↦ rw (e, allow) g
        | inr e ↦ rw (e, allow) (record { seen = g.seen; full = omega (arith, g.full) })
      ]

  count_cost :
      (allowed : Bool) (answers : List Bool)
      → count_allowed (allowed ∷ answers) * one ≡ cost one allowed + count_allowed answers * one
  unfolding cost
  count_cost true answers = suc-mul (count_allowed answers) one ∙ omega arith
  count_cost false answers = omega arith

  run-budget :
      (until : ℕ) (times : List ℕ) (b : TokenBucket)
      → All (λ now. now ≤ until) times
      → count_allowed (run one times b).0 * one + budget until (run one times b).1 ≤ budget until b
  unfolding run
  run-budget until [] b h = omega arith
  run-budget until (now ∷ times) b (h, hs) = omega (
    arith,
    count_cost (allow one now b).0 (run one times (allow one now b).1).0,
    run-budget until times (allow one now b).1 hs,
    allow-budget until now b h,
  )

  run-Fits :
      (until : ℕ) (times : List ℕ) (b : TokenBucket)
      → All (λ now. now ≤ until) times
      → Fits until b
      → Fits until (run one times b).1
  unfolding run
  run-Fits until [] b h f = f
  run-Fits until (now ∷ times) b (h, hs) f =
      run-Fits until times (allow one now b).1 hs (allow-Fits until now b h f)

  -- A new bucket lets no more calls through than its capacity and what it earns up to the latest of
  -- the clock's readings, whatever the readings are and also when the clock goes back, and it never
  -- holds more than its capacity.
  pub run-allowed_bound :
      (until created capacity refill_rate : ℕ) (times : List ℕ)
      → created ≤ until
      → All (λ now. now ≤ until) times
      → let r = run one times (new_token_bucket created capacity refill_rate) in
        (count_allowed r.0 * one ≤ capacity + (until - created) * refill_rate)
        × (r.1.tokens ≤ r.1.capacity)
  unfolding new_token_bucket
  run-allowed_bound until created capacity refill_rate times h hs =
      let start = new_token_bucket created capacity refill_rate in
      (
        omega (arith, run-budget until times start hs),
        (run-Fits until times start hs (record { seen = h; full = omega arith })).full,
      )
