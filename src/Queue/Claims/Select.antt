-- ===== src/Queue/Claims/Select.antt =====
-- The loop of Dequeue: which job it settles on.
use envelope.Prelude.{
  ℕ, ◌≤◌, ◌≡◌, String, ◌⊎◌, inl, inr, Bool, false, Option, none, some, [], ◌∷◌, arith, eq_iff,
  eq_refl, ◌=ₛ◌, Bool-cases, subst,
}
use envelope.Prelude.Dict.{Dict, lookup}
use envelope.Queue.Claims.{RetryJob, is_claimed, consider, select}

module _ {J : Type 0} (q : RetryJob J) where
  -- Every entry stands under its job's own ID, and no key stands twice.
  abbrev pub Keyed : Dict J → Type 0
  Keyed [] = Unit
  Keyed ((k, j) ∷ m) = (q.id j ≡ k) × (lookup k m ≡ none) × Keyed m

  -- The job at `k` is there, due at `now`, and not claimed.
  abbrev pub Eligible : ℕ → Dict Bool → Dict J → String → J → Type 0
  Eligible now claimed m k j =
      (lookup k m ≡ some j) × (is_claimed claimed k ≡ false) × (q.next_attempt_at j ≤ now)

  -- `best` is there and no later than `t`.
  abbrev pub AtMost : ℕ → Option J → Type 0
  AtMost t none = ⊥
  AtMost t (some best) = q.next_attempt_at best ≤ t

  consider-AtMost :
      (now : ℕ) (claimed : Dict Bool) (k : String) (j : J) (best : Option J) (t : ℕ)
      → AtMost t best
      → AtMost t (consider q now claimed k j best)
  unfolding consider
  consider-AtMost now claimed k j none t h = absurd h
  consider-AtMost now claimed k j (some b) t h = ground arith

  consider_self :
      (now : ℕ) (claimed : Dict Bool) (k : String) (j : J) (best : Option J)
      → is_claimed claimed k ≡ false
      → q.next_attempt_at j ≤ now
      → AtMost (q.next_attempt_at j) (consider q now claimed k j best)
  unfolding consider
  consider_self now claimed k j none free due = ground arith
  consider_self now claimed k j (some b) free due = ground arith

  select-AtMost :
      (now : ℕ) (claimed : Dict Bool) (m : Dict J) (best : Option J) (t : ℕ)
      → AtMost t best
      → AtMost t (select q now claimed m best)
  unfolding select
  select-AtMost now claimed [] best t h = h
  select-AtMost now claimed ((k, j) ∷ m) best t h =
      select-AtMost now claimed m (consider q now claimed k j best) t
        (consider-AtMost now claimed k j best t h)

  -- Nothing that is eligible is due before what the loop settles on.
  pub select_earliest :
      (now : ℕ) (claimed : Dict Bool) (m : Dict J) (best : Option J) (k : String) (j : J)
      → Eligible now claimed m k j
      → AtMost (q.next_attempt_at j) (select q now claimed m best)
  unfolding select lookup
  select_earliest now claimed [] best k j h = absurd (cc (h.0))
  select_earliest now claimed ((i, x) ∷ m) best k j (found, free, due) =
      elim (Bool-cases (i =ₛ k)) [
        | inl same ↦
            select-AtMost now claimed m (consider q now claimed i x best) (q.next_attempt_at j) (
              subst (λ y. AtMost (q.next_attempt_at y) (consider q now claimed i x best))
                (ground (arith, found, same))
                (consider_self now claimed i x best (ground (arith, (eq_iff i k).0 same))
                  (ground (arith, found, same))))
        | inr other ↦
            select_earliest now claimed m (consider q now claimed i x best) k j
              (ground (arith, found, other), free, due)
      ]

  consider_cases :
      (now : ℕ) (claimed : Dict Bool) (k : String) (j : J) (best : Option J) (b : J)
      → consider q now claimed k j best ≡ some b
      → (best ≡ some b) ⊎ ((j ≡ b) × (is_claimed claimed k ≡ false) × (q.next_attempt_at b ≤ now))
  unfolding consider
  consider_cases now claimed k j none b e = ground arith
  consider_cases now claimed k j (some c) b e = ground arith

  -- What the loop settles on is eligible, unless it is where it began.
  pub select-Eligible :
      (now : ℕ) (claimed : Dict Bool) (m : Dict J) (best : Option J) (b : J)
      → Keyed m
      → select q now claimed m best ≡ some b
      → (best ≡ some b) ⊎ (Eligible now claimed m (q.id b) b)
  unfolding select lookup
  select-Eligible now claimed [] best b keyed e = inl e
  select-Eligible now claimed ((k, j) ∷ m) best b (own, fresh, keyed) e =
      elim (select-Eligible now claimed m (consider q now claimed k j best) b keyed e) [
        | inl here ↦ elim (consider_cases now claimed k j best b here) [
          | inl start ↦ inl start
          | inr (same, free, due) ↦ inr (ground (arith, eq_refl k), ground arith, due)
        ]
        | inr (found, free, due) ↦ inr (ground (arith, eq_iff k (q.id b), fresh, found), free, due)
      ]
