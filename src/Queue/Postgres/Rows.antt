-- ===== src/Queue/Postgres/Rows.antt =====
-- The row that the SELECT of Dequeue finds.
use envelope.Prelude.{
  ℕ, ◌≤◌, ◌≡◌, refl, sym, subst, ◌∙◌, String, ◌=ₛ◌, eq_iff, eq_refl, arith, true, false, Bool-cases,
  inl, inr, Option, none, some, [], ◌∷◌, ltb,
}
use envelope.Prelude.Dict.{Dict, lookup, Unique}
use envelope.Queue.Claims.{RetryJob}
use envelope.Queue.Postgres.{JobRow, is_due, first_due, sooner}

some_injective : {A : Type 0} {a b : A} → some a ≡ some b → a ≡ b
some_injective h = cc

module _ {J : Type 0} (q : RetryJob J) where
  -- No row that is due comes before this one.
  abbrev pub Earliest : ℕ → Dict (JobRow J) → JobRow J → Type 0
  Earliest now t best =
      (k : String) (row : JobRow J)
      → lookup k t ≡ some row
      → is_due q now row ≡ true
      → q.next_attempt_at best.job ≤ q.next_attempt_at row.job

  -- What the SELECT finds.
  pub data Found (now : ℕ) (t : Dict (JobRow J)) : Option (String × JobRow J) → Type 0 where
    no_row :
        ((k : String) (row : JobRow J) → lookup k t ≡ some row → is_due q now row ≡ false)
        → Found now t none
    a_row :
        (k : String) (row : JobRow J)
        → lookup k t ≡ some row
        → is_due q now row ≡ true
        → Earliest now t row
        → Found now t (some (k, row))

  -- What is true of every row of the rest and of the row in front.
  in_front :
      (k : String) (row : JobRow J) (t : Dict (JobRow J)) (P : JobRow J → Type 0)
      → P row
      → ((i : String) (r : JobRow J) → lookup i t ≡ some r → P r)
      → (i : String) (r : JobRow J) → lookup i ((k, row) ∷ t) ≡ some r
      → P r
  unfolding lookup
  in_front k row t P here there i r h = elim (Bool-cases (k =ₛ i)) [
    | inl e ↦ subst P (some_injective (sym (simp e refl) ∙ h)) here
    | inr e ↦ there i r (sym (simp e refl) ∙ h)
  ]

  still_found :
      (k i : String) (row r : JobRow J) (t : Dict (JobRow J))
      → lookup k t ≡ none
      → lookup i t ≡ some r
      → lookup i ((k, row) ∷ t) ≡ some r
  unfolding lookup
  still_found k i row r t fresh h = ground (arith, eq_iff k i, h, fresh)

  skip :
      (now : ℕ) (k : String) (row : JobRow J) (t : Dict (JobRow J)) (o : Option (String × JobRow J))
      → lookup k t ≡ none
      → is_due q now row ≡ false
      → Found now t o
      → Found now ((k, row) ∷ t) o
  skip now k row t none fresh e (no_row h) =
      no_row (in_front k row t (λ r. is_due q now r ≡ false) e h)
  skip now k row t (some (i, best)) fresh e (a_row _ _ h due first) =
      a_row i best (still_found k i row best t fresh h) due (λ j r found d.
        in_front k row t
          (λ r. is_due q now r ≡ true → q.next_attempt_at best.job ≤ q.next_attempt_at r.job)
          (λ d. absurd (cc (e, d))) first j r found d)

  take_front :
      (now : ℕ) (k : String) (row : JobRow J) (t : Dict (JobRow J))
      → is_due q now row ≡ true
      → Earliest now t row
      → Found now ((k, row) ∷ t) (some (k, row))
  unfolding lookup
  take_front now k row t e first = a_row k row (simp eq_refl refl) e (
      in_front k row t
        (λ r. is_due q now r ≡ true → q.next_attempt_at row.job ≤ q.next_attempt_at r.job)
        (λ d. omega arith) first)

  consider :
      (now : ℕ) (k : String) (row : JobRow J) (t : Dict (JobRow J)) (o : Option (String × JobRow J))
      → lookup k t ≡ none
      → is_due q now row ≡ true
      → Found now t o
      → Found now ((k, row) ∷ t) (sooner q (k, row) o)
  consider now k row t none fresh e (no_row h) =
      take_front now k row t e (λ i r found d. absurd (cc (h i r found, d)))
  consider now k row t (some (i, best)) fresh e (a_row _ _ h due first) =
      elim (Bool-cases (ltb (q.next_attempt_at best.job) (q.next_attempt_at row.job))) [
        | inl l ↦ rw l (
            a_row i best (still_found k i row best t fresh h) due (
              in_front k row t
                (λ r. is_due q now r ≡ true → q.next_attempt_at best.job ≤ q.next_attempt_at r.job)
                (λ d. ground (arith, l)) first))
        | inr l ↦
            rw l (take_front now k row t e (λ j r found d. ground (arith, l, first j r found d)))
      ]

  pub first_due-Found : (now : ℕ) (t : Dict (JobRow J)) → Unique t → Found now t (first_due q now t)
  unfolding first_due lookup
  first_due-Found now [] u = no_row (λ k row h. absurd (cc h))
  first_due-Found now ((k, row) ∷ t) (fresh, u) = elim (Bool-cases (is_due q now row)) [
    | inl e ↦ rw (e, first_due) (consider now k row t _ fresh e (first_due-Found now t u))
    | inr e ↦ rw (e, first_due) (skip now k row t _ fresh e (first_due-Found now t u))
  ]
