-- ===== src/RateLimit/Postgres/Conflicts.antt =====
-- What Allow makes of conflicting first requests and of errors.
use envelope.Prelude.{
  ℕ, suc, ◌≡◌, ◌⊎◌, refl, sym, ap, ◌∙◌, eq_refl, Bool, true, false, inl, inr, Option, none, some,
  Option-cases, String,
}
use envelope.Prelude.Dict.{Dict, lookup, lookup-insert}
use envelope.Context.{Error, Result, err}
use envelope.RateLimit.Postgres.{
  BucketRow, Attempt, works, select_fails, write_fails, rival, Tried, commit, create, try_allow,
  attempts_from, attempts_from_settled, attempts_from_retried, allow, result_of,
}

-- The database gives this error to the transaction, and it is not a conflict.
abbrev pub Fails : Attempt → Error → Type 0
Fails attempt e = (attempt ≡ select_fails e) ⊎ (attempt ≡ write_fails e)

module _ (one : ℕ) (column : ℕ → ℕ) (key : String) (capacity rate : ℕ) where
  -- An attempt that is not retried, and whose error is the database's.
  Decides : Attempt → Tried × Dict BucketRow → Type 0
  Decides attempt r =
      (r.0.retry ≡ false) × ((e : Error) → result_of one column r.0 ≡ err e → Fails attempt e)

  err_injective : {a b : Error} → ◌≡◌ {A = Result Bool} (err a) (err b) → a ≡ b
  err_injective h = cc

  commit-Decides :
      (attempt : Attempt) (allowed : Bool) (before after : Dict BucketRow)
      → Decides attempt (commit one column attempt allowed before after)
  unfolding Decides commit
  commit-Decides works allowed before after = (refl, λ e h. cc)
  commit-Decides (select_fails x) allowed before after =
      (refl, λ e h. inl (ap select_fails (err_injective h)))
  commit-Decides (write_fails x) allowed before after =
      (refl, λ e h. inr (ap write_fails (err_injective h)))
  commit-Decides (rival x row) allowed before after = (refl, λ e h. cc)

  found-Decides :
      (attempt : Attempt) (now : ℕ) (t : Dict BucketRow) (row : BucketRow)
      → lookup key t ≡ some row
      → Decides attempt (try_allow one column attempt now key capacity rate t)
  unfolding try_allow Decides
  found-Decides attempt now t row found = rw (found, try_allow) (commit-Decides attempt _ t _)

  -- An attempt without a row decides too, or it leaves a row.
  missing-Decides :
      (attempt : Attempt) (now : ℕ) (t : Dict BucketRow)
      → lookup key t ≡ none
      → Decides attempt (try_allow one column attempt now key capacity rate t)
        ⊎ (((try_allow one column attempt now key capacity rate t).0.retry ≡ true)
            × ((row : BucketRow) × (lookup key
                    (try_allow one column attempt now key capacity rate t).1
                  ≡ some row)))
  unfolding try_allow Decides create
  missing-Decides works now t missing = inl (rw (missing, try_allow) (refl, λ e h. cc))
  missing-Decides (select_fails x) now t missing =
      inl (rw (missing, try_allow) (refl, λ e h. inl (ap select_fails (err_injective h))))
  missing-Decides (write_fails x) now t missing =
      inl (rw (missing, try_allow) (refl, λ e h. inr (ap write_fails (err_injective h))))
  missing-Decides (rival x row) now t missing =
      inr (rw (missing, try_allow) (refl, (row, lookup-insert key key row t ∙ simp eq_refl refl)))

  decided :
      (left n : ℕ) (last_err : Option Error) (attempt : ℕ → Attempt) (now : ℕ → ℕ)
      (t : Dict BucketRow)
      → Decides (attempt n) (try_allow one column (attempt n) (now n) key capacity rate t)
      → (e : Error)
      → (attempts_from one column (suc left) n last_err attempt now key capacity rate t).0 ≡ err e
      → Fails (attempt n) e
  unfolding Decides
  decided left n last_err attempt now t (settled, blame) e h = blame e (
      sym (
        ap (λ r. r.0)
          (attempts_from_settled one column left n last_err attempt now key capacity rate t _ refl
            settled))
      ∙ h)

  -- Allow fails only with an error that the database gives to its first or to its second transaction:
  -- of two first requests for one key that race, the loser finds the winner's row when it is retried,
  -- so that conflicting inserts never exhaust the three attempts.
  pub allow-Fails :
      (attempt : ℕ → Attempt) (now : ℕ → ℕ) (t : Dict BucketRow) (e : Error)
      → (allow one column attempt now key capacity rate t).0 ≡ err e
      → Fails (attempt 0) e ⊎ Fails (attempt 1) e
  unfolding allow
  allow-Fails attempt now t e h = elim (Option-cases (lookup key t)) [
    | inr (row, found) ↦
        inl (decided 2 0 none attempt now t (found-Decides (attempt 0) (now 0) t row found) e h)
    | inl missing ↦ elim (missing-Decides (attempt 0) (now 0) t missing) [
      | inl d ↦ inl (decided 2 0 none attempt now t d e h)
      | inr (again, (row, found)) ↦ inr (
          decided 1 1 (try_allow one column (attempt 0) (now 0) key capacity rate t).0.error attempt
            now (try_allow one column (attempt 0) (now 0) key capacity rate t).1
            (found-Decides (attempt 1) (now 1) _ row found) e
            (sym (
                ap (λ r. r.0)
                  (attempts_from_retried one column 2 0 none attempt now key capacity rate t again))
              ∙ h))
    ]
  ]
