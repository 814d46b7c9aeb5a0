-- ===== src/Deliverer/Semaphore/Limit.antt =====
-- At most the limit of goroutines deliver to one domain, in every interleaving.
use envelope.Prelude.{
  ℕ, ◌+◌, ◌-◌, ◌≤◌, ◌<◌, ◌≡◌, refl, ap, ℤ, pos_part, is_positive, ltb, none, some, String, ◌⊎◌,
  ◌=ₛ◌, eq_iff, List, [], ◌∷◌, ◌++◌, arith, Bool-cases, inl, inr, if◌then◌else◌, subst,
}
use envelope.Prelude.Dict.{lookup, insert, lookup-insert}
use envelope.Deliverer.Config.{Config, with_defaults}
use envelope.Deliverer.Semaphore.{
  DomainSemaphores, new_domain_semaphores, taken, acquire, release, Running, Step, enters, leaves,
  cancelled, Reach, here, next, start,
}

-- How many of the goroutines deliver to the domain.
pub running_for : String → List String → ℕ
running_for domain [] = 0
running_for domain (d ∷ ds) = (if d =ₛ domain then 1 else 0) + running_for domain ds

running_for-append :
    (k : String) (xs ys : List String)
    → running_for k (xs ++ ys) ≡ running_for k xs + running_for k ys
unfolding running_for
running_for-append k [] ys = omega arith
running_for-append k (x ∷ xs) ys = omega (arith, running_for-append k xs ys)

pub record Inv (limit : ℕ) (s : Running) : Type 0 where
  pub exact : (k : String) → taken k s.slots ≡ running_for k s.domains
  pub within : (k : String) → taken k s.slots ≤ limit
  pub limit_kept : s.slots.limit ≡ limit

start-Inv : (limit : ℤ) → Inv (start limit).slots.limit (start limit)
unfolding start new_domain_semaphores taken lookup running_for
start-Inv limit = record { exact = λ k. refl; within = λ k. omega arith; limit_kept = refl }

taken-insert :
    (domain k : String) (n : ℕ) (d : DomainSemaphores)
    → taken k (record d { sems = insert domain n d.sems }) ≡ (if domain =ₛ k then n else taken k d)
unfolding taken
taken-insert domain k n d = simp lookup-insert (ground arith)

acquire-some :
    (domain : String) (s d : DomainSemaphores)
    → acquire domain s ≡ some d
    → (taken domain s < s.limit)
      × (record s { sems = insert domain (taken domain s + 1) s.sems } ≡ d)
unfolding acquire
acquire-some domain s d got = elim (Bool-cases (ltb (taken domain s) s.limit)) [
  | inl room ↦ (ground (arith, room), ground (arith, got, room))
  | inr full ↦ absurd (ground (arith, got, full))
]

enter-Inv :
    (limit : ℕ) (domain : String) (s : Running)
    → taken domain s.slots < s.slots.limit
    → Inv limit s
    → Inv limit (record {
      slots = record s.slots { sems = insert domain (taken domain s.slots + 1) s.slots.sems };
      domains = domain ∷ s.domains;
    })
unfolding running_for
enter-Inv limit domain s room v = record {
  exact = λ k. ground (
    arith,
    taken-insert domain k (taken domain s.slots + 1) s.slots,
    eq_iff domain k,
    v.exact k,
    v.exact domain,
  );
  within = λ k. ground (
    arith,
    taken-insert domain k (taken domain s.slots + 1) s.slots,
    v.within k,
    v.limit_kept,
    room,
  );
  limit_kept = v.limit_kept;
}

Step-Inv : (limit : ℕ) {s t : Running} → Step s t → Inv limit s → Inv limit t
unfolding release running_for
Step-Inv limit (enters domain {s} {d} got) v =
    let (room, slots) = acquire-some domain s.slots d got in
    subst (λ e. Inv limit (record { slots = e; domains = domain ∷ s.domains })) slots
      (enter-Inv limit domain s room v)
Step-Inv limit (leaves front domain back {s} split) v = record {
  exact = λ k. ground (
    arith,
    taken-insert domain k (taken domain s.slots - 1) s.slots,
    eq_iff domain k,
    v.exact k,
    v.exact domain,
    ap (running_for k) split,
    running_for-append k front (domain ∷ back),
    running_for-append k front back,
  );
  within = λ k. ground (
    arith,
    taken-insert domain k (taken domain s.slots - 1) s.slots,
    v.within k,
    v.within domain,
  );
  limit_kept = v.limit_kept;
}
Step-Inv limit cancelled v = v

Reach-Inv : (limit : ℕ) {s t : Running} → Inv limit s → Reach s t → Inv limit t
Reach-Inv limit v here = v
Reach-Inv limit v (next r st) = Step-Inv limit st (Reach-Inv limit v r)

-- The limit that a Deliverer runs with: PerDomainConcurrency, or 5 where that is not positive.
abbrev pub allowed : Config → ℕ
allowed cfg =
    if is_positive cfg.per_domain_concurrency then pos_part cfg.per_domain_concurrency else 5

allowed_lem :
    (cfg : Config) → (start (with_defaults cfg).per_domain_concurrency).slots.limit ≡ allowed cfg
unfolding start new_domain_semaphores with_defaults
allowed_lem cfg = elim (Bool-cases (is_positive cfg.per_domain_concurrency)) [
  | inl e ↦ simp (e, start, new_domain_semaphores, with_defaults) refl
  | inr e ↦ simp (e, start, new_domain_semaphores, with_defaults) refl
]

-- Whatever the order in which goroutines of a Deliverer enter, leave and are cancelled: no more of them
-- deliver to one domain at a time than PerDomainConcurrency allows, 5 where that is not positive; and
-- while fewer do, the next one gets a slot, and else it waits.
pub running_for-le-limit :
    (cfg : Config) (domain : String) {s : Running}
    → Reach (start (with_defaults cfg).per_domain_concurrency) s
    → (running_for domain s.domains ≤ allowed cfg)
      × (((running_for domain s.domains < allowed cfg)
            × ((d : DomainSemaphores) × (acquire domain s.slots ≡ some d)))
          ⊎ ((running_for domain s.domains ≡ allowed cfg) × (acquire domain s.slots ≡ none)))
unfolding acquire
running_for-le-limit cfg domain {s} r =
    let limit = (start (with_defaults cfg).per_domain_concurrency).slots.limit in
    let v = Reach-Inv limit (start-Inv (with_defaults cfg).per_domain_concurrency) r in
    let same = allowed_lem cfg in
    (
      omega (arith, v.exact domain, v.within domain, same),
      elim (Bool-cases (ltb (taken domain s.slots) s.slots.limit)) [
        | inl room ↦
            let less : taken domain s.slots < s.slots.limit = ground (arith, room) in
            inl (
              omega (arith, v.exact domain, v.limit_kept, same, less),
              (
                record s.slots { sems = insert domain (taken domain s.slots + 1) s.slots.sems },
                rw (room, acquire) refl,
              ),
            )
        | inr full ↦
            let more : s.slots.limit ≤ taken domain s.slots = ground (arith, full) in
            inr (
              omega (arith, v.exact domain, v.within domain, v.limit_kept, same, more),
              rw (full, acquire) refl,
            )
      ],
    )
