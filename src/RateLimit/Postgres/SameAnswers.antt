-- ===== src/RateLimit/Postgres/SameAnswers.antt =====
-- The limiter on the table against the token bucket of one process.
use envelope.Prelude.{
  ℕ, ◌+◌, ◌-◌, ◌*◌, ◌≤◌, ◌≡◌, refl, sym, ap, ◌∙◌, subst, arith, eq_refl, Bool, true, false,
  Bool-cases, inl, inr, ltb, leb, none, some, String, List, [], ◌∷◌, map,
}
use envelope.Prelude.Dict.{Dict, lookup, insert, lookup-insert}
use envelope.Context.{Result, ok}
use envelope.RateLimit.{TokenBucket, new_token_bucket, capped, refill}
use envelope.RateLimit as Bucket
use envelope.RateLimit.Postgres.{
  BucketRow, works, earned, take, commit, create, try_allow, allow, answered, attempts_from_settled,
}

-- The clock does not go back.
abbrev pub Ascending : ℕ → List ℕ → Type 0
Ascending from [] = Unit
Ascending from (now ∷ times) = (from ≤ now) × Ascending now times

-- The row that stands for a bucket.
abbrev row_of : ℕ → TokenBucket → BucketRow
row_of one b = record { balance = b.tokens + one; last_refill = b.last }

same_row :
    (allowed : Bool) (balance balance' at at' : ℕ)
    → balance ≡ balance'
    → at ≡ at'
    → ◌≡◌ {A = Bool × BucketRow}
        (allowed, record { balance = balance; last_refill = at })
        (allowed, record { balance = balance'; last_refill = at' })
same_row allowed balance balance' at at' h k =
    ap (λ n. (allowed, record { balance = n; last_refill = at })) h
    ∙ ap (λ n. (allowed, record { balance = balance'; last_refill = n })) k

-- The column keeps these readings of the clock as they are.
abbrev pub Kept : (ℕ → ℕ) → List ℕ → Type 0
Kept column [] = Unit
Kept column (now ∷ times) = (column now ≡ now) × Kept column times

module _ (one : ℕ) (column : ℕ → ℕ) where
  earned-refill :
      (now : ℕ) (b : TokenBucket)
      → b.last ≤ now
      → (earned one column now b.capacity b.refill_rate (row_of one b)
          ≡ (refill now b).tokens + one)
        × ((refill now b).last ≡ now)
  unfolding earned refill
  earned-refill now b h = elim (Bool-cases (leb now b.last)) [
    | inl e ↦ rw (e, refill) (ground (arith, e, h), ground (arith, e, h))
    | inr e ↦ rw (e, refill) (ground (arith, e, h), refl)
  ]

  take-allow :
      (now : ℕ) (b : TokenBucket)
      → b.last ≤ now
      → column now ≡ now
      → take one column now b.capacity b.refill_rate (row_of one b)
        ≡ ((Bucket.allow one now b).0, row_of one (Bucket.allow one now b).1)
  unfolding take Bucket.allow
  take-allow now b h kept =
      let (balanced, seen) = earned-refill now b h in
      let held = earned one column now b.capacity b.refill_rate (row_of one b) in
      elim (Bool-cases (ltb (refill now b).tokens one)) [
        | inl e ↦
            let poor : ltb held (one + one) ≡ true = ground (arith, e, balanced) in
            rw (poor, e, take, Bucket.allow) (same_row false _ _ _ _ balanced (kept ∙ sym seen))
        | inr e ↦
            let rich : ltb held (one + one) ≡ false = ground (arith, e, balanced) in
            rw (rich, e, take, Bucket.allow)
              (same_row true _ _ _ _ (ground (arith, e, balanced)) (kept ∙ sym seen))
      ]

  try_allow_found :
      (key : String) (now : ℕ) (b : TokenBucket) (t : Dict BucketRow)
      → b.last ≤ now
      → column now ≡ now
      → lookup key t ≡ some (row_of one b)
      → try_allow one column works now key b.capacity b.refill_rate t ≡ (
        answered (Bucket.allow one now b).0,
        insert key (row_of one (Bucket.allow one now b).1) t,
      )
  unfolding try_allow commit
  try_allow_found key now b t h kept found =
      rw (found, try_allow) (ap (λ r. (answered r.0, insert key r.1 t)) (take-allow now b h kept))

  -- Calls for one key, each of whose transactions works.
  abbrev pub run : String → ℕ → ℕ → List ℕ → Dict BucketRow → List (Result Bool) × Dict BucketRow
  run key capacity rate [] t = ([], t)
  run key capacity rate (now ∷ times) t =
      let (result, after) = allow one column (λ n. works) (λ n. now) key capacity rate t in
      let (results, last) = run key capacity rate times after in (result ∷ results, last)

  try_allow_missing :
      (key : String) (now capacity rate : ℕ) (t : Dict BucketRow)
      → lookup key t ≡ none
      → try_allow one column works now key capacity rate t
        ≡ (answered true, insert key (record { balance = capacity; last_refill = column now }) t)
  unfolding try_allow create
  try_allow_missing key now capacity rate t missing = rw (missing, try_allow) refl

  allow_found :
      (key : String) (now : ℕ) (b : TokenBucket) (t : Dict BucketRow)
      → b.last ≤ now
      → column now ≡ now
      → lookup key t ≡ some (row_of one b)
      → allow one column (λ n. works) (λ n. now) key b.capacity b.refill_rate t
        ≡ (ok (Bucket.allow one now b).0, insert key (row_of one (Bucket.allow one now b).1) t)
  unfolding allow
  allow_found key now b t h kept found =
      attempts_from_settled one column 2 0 none (λ n. works) (λ n. now) key b.capacity b.refill_rate
        t
        (answered (Bucket.allow one now b).0, insert key (row_of one (Bucket.allow one now b).1) t)
        tried refl
    where
      tried : try_allow one column works now key b.capacity b.refill_rate t ≡ (
        answered (Bucket.allow one now b).0,
        insert key (row_of one (Bucket.allow one now b).1) t,
      )
      tried = try_allow_found key now b t h kept found

  -- The bucket keeps its capacity and its rate, and its time does not pass the clock.
  allow_kept :
      (now : ℕ) (b : TokenBucket)
      → b.last ≤ now
      → ((Bucket.allow one now b).1.capacity ≡ b.capacity)
        × ((Bucket.allow one now b).1.refill_rate ≡ b.refill_rate)
        × ((Bucket.allow one now b).1.last ≤ now)
  unfolding Bucket.allow refill
  allow_kept now b h = elim (Bool-cases (leb now b.last)) [
    | inl e ↦ elim (Bool-cases (ltb b.tokens one)) [
      | inl f ↦ rw (e, refill, f, Bucket.allow) (refl, refl, h)
      | inr f ↦ rw (e, refill, f, Bucket.allow) (refl, refl, h)
    ]
    | inr e ↦
        elim (Bool-cases
          (ltb (capped b.capacity (b.tokens + (now - b.last) * b.refill_rate)) one)) [
            | inl f ↦ rw (e, refill, f, Bucket.allow) (refl, refl, omega arith)
            | inr f ↦ rw (e, refill, f, Bucket.allow) (refl, refl, omega arith)
          ]
  ]

  run_found :
      (key : String) (times : List ℕ) (from : ℕ) (b : TokenBucket) (t : Dict BucketRow)
      → b.last ≤ from
      → Ascending from times
      → Kept column times
      → lookup key t ≡ some (row_of one b)
      → (run key b.capacity b.refill_rate times t).0 ≡ map ok (Bucket.run one times b).0
  unfolding Bucket.run
  run_found key [] from b t h a k found = refl
  run_found key (now ∷ times) from b t h (l, a) (same, k) found =
      let (same_capacity, same_rate, seen) = allow_kept now b (omega (arith, h, l)) in
      let after = (Bucket.allow one now b).1 in
      let rest =
        run_found key times now after (insert key (row_of one after) t) seen a k
          (lookup-insert key key (row_of one after) t ∙ simp eq_refl refl) in
      rw (allow_found key now b t (omega (arith, h, l)) same found) (
        ap (λ answers. ok (Bucket.allow one now b).0 ∷ answers)
          (subst
            (λ rate.
              (run key b.capacity rate times (insert key (row_of one after) t)).0
              ≡ map ok (Bucket.run one times after).0)
            same_rate
            (subst
              (λ capacity.
                (run key capacity after.refill_rate times (insert key (row_of one after) t)).0
                ≡ map ok (Bucket.run one times after).0)
              same_capacity rest)))

  -- What is left of a new bucket after its first call.
  first_used : ℕ → ℕ → ℕ → TokenBucket
  first_used now capacity rate = record {
    capacity = capacity;
    tokens = capacity - one;
    refill_rate = rate;
    last = now;
  }

  new_token_bucket-first :
      (now capacity rate : ℕ)
      → one ≤ capacity
      → Bucket.allow one now (new_token_bucket now capacity rate)
        ≡ (true, first_used now capacity rate)
  unfolding Bucket.allow new_token_bucket refill first_used
  new_token_bucket-first now capacity rate h =
      let still : leb now now ≡ true = ground arith in
      let enough : ltb capacity one ≡ false = ground (arith, h) in rw (still, enough) refl

  allow_missing :
      (key : String) (now capacity rate : ℕ) (t : Dict BucketRow)
      → column now ≡ now
      → one ≤ capacity
      → lookup key t ≡ none
      → allow one column (λ n. works) (λ n. now) key capacity rate t
        ≡ (ok true, insert key (row_of one (first_used now capacity rate)) t)
  unfolding allow first_used
  allow_missing key now capacity rate t kept h missing =
      attempts_from_settled one column 2 0 none (λ n. works) (λ n. now) key capacity rate t
        (answered true, insert key (record { balance = capacity; last_refill = column now }) t)
        (try_allow_missing key now capacity rate t missing) refl
      ∙ ap (λ n. (ok true, insert key (record { balance = n; last_refill = column now }) t))
          (omega (arith, h))
      ∙ ap
          (λ at.
            (ok true, insert key (record { balance = capacity - one + one; last_refill = at }) t))
          kept

  -- For a key that has no row yet, a capacity of at least one token, and readings of a clock that do not
  -- go back and that the column of the table keeps as they are, which it does with whole
  -- microseconds: calls one after the other get from the limiter on the table the answers of a token
  -- bucket that is made at the first call.
  pub run-same_answers :
      (key : String) (capacity rate now : ℕ) (times : List ℕ) (t : Dict BucketRow)
      → one ≤ capacity
      → lookup key t ≡ none
      → Ascending now times
      → Kept column (now ∷ times)
      → (run key capacity rate (now ∷ times) t).0
        ≡ map ok (Bucket.run one (now ∷ times) (new_token_bucket now capacity rate)).0
  unfolding Bucket.run first_used
  run-same_answers key capacity rate now times t h missing a (same, k) =
      let after = first_used now capacity rate in
      rw
        (
          allow_missing key now capacity rate t same h missing,
          new_token_bucket-first now capacity rate h,
        )
        (ap (λ answers. ok true ∷ answers)
          (run_found key times now after (insert key (row_of one after) t) (omega arith) a k
            (lookup-insert key key (row_of one after) t ∙ simp eq_refl refl)))
