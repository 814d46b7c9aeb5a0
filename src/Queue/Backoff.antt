-- ===== src/Queue/Backoff.antt =====
-- internal/queue/backoff.go. Durations are whole nanoseconds. A float64 is the integer that it stands
-- for: an infinite product is above every duration, or below 0, as its exact value is, so that it
-- needs no case of its own, while the product of 0 and an infinite power is not a number.
pub mod Bounds
use envelope.Prelude.{
  ℕ, zero, suc, ◌^◌, ◌≤◌, ◌<◌, ◌≡◌, ℤ, pos, negsuc, pos_part, scale, ltb, ltb_ℤ, is_positive, Bool,
  true, false, not, ◌&&◌, Option, none, some, if◌then◌else◌,
}

-- What the processor and math/rand do: `float64` rounds an integer, `int64_of_other` is the conversion
-- of a float64 that no int64 equals, and `int63n` is r.Int63n(n) with the state that it leaves, a
-- number below a positive n. Where n is not positive the call panics, and its value means nothing.
pub record Rand : Type 1 where
  pub float64 : ℤ → ℤ
  pub float64_exact : (n : ℕ) → n ≤ 2 ^ 53 → float64 (pos n) ≡ pos n
  pub int64_of_other : ℤ
  pub State : Type 0
  pub int63n : State → ℤ → ℕ × State
  pub int63n_lt : (r : State) (n : ℕ) → 0 < n → (int63n r (pos n)).0 < n

abbrev is_zero : ℤ → Bool
is_zero n = not (is_positive n) && not (ltb_ℤ n (pos 0))

module _ (rand : Rand) where
  -- The bound of the draw: base * 2 ^ attempt, and the cap above it; `none` is NaN. From 1024 on
  -- math.Pow(2, attempt) is infinite.
  unfoldable pub upper_bound : ℤ → ℤ → ℤ → Option ℤ
  upper_bound attempt base max_delay =
      let upper = scale (rand.float64 base) (2 ^ pos_part attempt) in
      if ltb 1023 (pos_part attempt) && is_zero (rand.float64 base)
      then none
      else some (if ltb_ℤ (rand.float64 max_delay) upper then rand.float64 max_delay else upper)

  -- int64(upper)
  unfoldable pub to_int64 : ℤ → ℤ
  to_int64 upper = if ltb_ℤ upper (pos (2 ^ 63)) then upper else rand.int64_of_other

  unfoldable pub full_jitter : ℤ → ℤ → ℤ → rand.State → ℕ × rand.State
  full_jitter attempt base max_delay r = elim (upper_bound attempt base max_delay) [
    | none ↦ rand.int63n r rand.int64_of_other
    | some upper ↦ if is_positive upper then rand.int63n r (to_int64 upper) else (0, r)
  ]
