-- ===== src/RateLimit/Tests.antt =====
-- A token of ten units: two tokens, and one more every ten nanoseconds.
use envelope.Prelude.{
  ◌/◌, ℕ, zero, suc, ◌+◌, ◌-◌, ◌*◌, ◌≤◌, ◌≡◌, ◌⊎◌, refl, arith, true, false, [], ◌∷◌, map,
}
use envelope.Prelude.Dict.{lookup, insert}
use envelope.Context.{Error, plain, ok, err}
use envelope.RateLimit.{new_token_bucket, refill, allow, run}
use envelope.RateLimit.Bounds.{count_allowed, run-allowed_bound}
use envelope.RateLimit.Postgres.{
  BucketRow, Attempt, works, write_fails, rival, try_allow, create, commit, attempts_from,
}
use envelope.RateLimit.Postgres as Postgres
use envelope.RateLimit.Postgres.SameAnswers as Same
use envelope.RateLimit.Postgres.SameAnswers.{run-same_answers}
use envelope.RateLimit.Postgres.Conflicts.{Fails, allow-Fails}

-- The clock goes back once.
two_then_one :
    (run 10 (100 ∷ 100 ∷ 100 ∷ 112 ∷ 90 ∷ []) (new_token_bucket 100 20 1)).0
    ≡ true ∷ true ∷ false ∷ true ∷ false ∷ []
unfolding run allow refill new_token_bucket
two_then_one = refl

run-allowed_bound_example :
    let r = run 10 (100 ∷ 112 ∷ 90 ∷ []) (new_token_bucket 100 20 1) in
    (count_allowed r.0 * 10 ≤ 20 + (112 - 100) * 1) × (r.1.tokens ≤ r.1.capacity)
run-allowed_bound_example =
    run-allowed_bound 10 112 100 20 1 (100 ∷ 112 ∷ 90 ∷ []) (omega arith)
      (omega arith, (omega arith, (omega arith, tt)))

-- What a timestamptz keeps of an instant.
abbrev micros : ℕ → ℕ
micros n = n / 1000 * 1000

run-same_answers_example :
    (Same.run 10 micros "ip:192.0.2.1" 20 1 (1000 ∷ 1000 ∷ 2000 ∷ []) []).0
    ≡ map ok (run 10 (1000 ∷ 1000 ∷ 2000 ∷ []) (new_token_bucket 1000 20 1)).0
unfolding lookup
run-same_answers_example =
    run-same_answers 10 micros "ip:192.0.2.1" 20 1 1000 (1000 ∷ 2000 ∷ []) [] (omega arith) refl
      (omega arith, (omega arith, tt)) (refl, (refl, (refl, tt)))

abbrev lost : Error
lost = plain "connection reset"

-- A rival wins the race of the first request, and the second transaction is cut off.
abbrev race : ℕ → Attempt
race zero = rival (plain "duplicate key") (record { balance = 20; last_refill = 100 })
race (suc n) = write_fails lost

race_fails : (Postgres.allow 10 micros race (λ n. 101) "k" 20 1 []).0 ≡ err lost
unfolding Postgres.allow Postgres.attempts_from try_allow create commit lookup insert
race_fails = refl

allow-Fails_example : Fails (race 0) lost ⊎ Fails (race 1) lost
allow-Fails_example = allow-Fails 10 micros "k" 20 1 race (λ n. 101) [] lost race_fails
