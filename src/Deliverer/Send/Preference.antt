-- ===== src/Deliverer/Send/Preference.antt =====
-- The MX hosts that lookupMX returns.
use mathlib.Core.List.{Perm}
use mathlib.Core.List.Perm
use envelope.Prelude.{
  ℕ, ◌≤◌, ◌≡◌, ◌⊎◌, inl, inr, Bool, true, false, List, [], ◌∷◌, arith, ltb, Bool-cases, All, String,
  refl, ◌≢◌, ◌↔◌, some,
}
use envelope.Context.{Error, Result, ok, err}
use envelope.Deliverer.Classify.{as_delivery, is_not_found_dns_error}
use envelope.Deliverer.Send.{Mx, insert_mx, sort_mx, lookup_mx}

abbrev pub IsSorted : List Mx → Type 0
IsSorted [] = Unit
IsSorted (x ∷ xs) = All (λ y. x.pref ≤ y.pref) xs × IsSorted xs

insert_mx-perm : (x : Mx) (xs : List Mx) → Perm (insert_mx x xs) (x ∷ xs)
unfolding insert_mx
insert_mx-perm x [] = Perm.refl (x ∷ [])
insert_mx-perm x (y ∷ ys) = elim (Bool-cases (ltb y.pref x.pref)) [
  | inl later ↦
      rw (later, insert_mx) (Perm.trans (Perm.cons y (insert_mx-perm x ys)) (Perm.swap x y ys))
  | inr here ↦ rw (here, insert_mx) (Perm.refl (x ∷ y ∷ ys))
]

sort_mx-perm : (xs : List Mx) → Perm (sort_mx xs) xs
unfolding sort_mx
sort_mx-perm [] = Perm.refl []
sort_mx-perm (x ∷ xs) = Perm.trans (insert_mx-perm x (sort_mx xs)) (Perm.cons x (sort_mx-perm xs))

All-insert_mx :
    (p : ℕ) (x : Mx) (xs : List Mx)
    → p ≤ x.pref
    → All (λ y. p ≤ y.pref) xs
    → All (λ y. p ≤ y.pref) (insert_mx x xs)
unfolding insert_mx
All-insert_mx p x [] h hs = (h, tt)
All-insert_mx p x (y ∷ ys) h (k, ks) = ground (arith, All-insert_mx p x ys h ks)

All-mono : (p r : ℕ) (xs : List Mx) → p ≤ r → All (λ y. r ≤ y.pref) xs → All (λ y. p ≤ y.pref) xs
All-mono p r [] h hs = tt
All-mono p r (x ∷ xs) h (k, ks) = (omega arith, All-mono p r xs h ks)

insert_mx-IsSorted : (x : Mx) (xs : List Mx) → IsSorted xs → IsSorted (insert_mx x xs)
unfolding insert_mx
insert_mx-IsSorted x [] h = (tt, tt)
insert_mx-IsSorted x (y ∷ ys) (low, rest) = elim (Bool-cases (ltb y.pref x.pref)) [
  | inl later ↦
      rw (later, insert_mx)
        (All-insert_mx y.pref x ys (ground (arith, later)) low, insert_mx-IsSorted x ys rest)
  | inr here ↦
      rw (here, insert_mx)
        ((ground (arith, here), All-mono x.pref y.pref ys (ground (arith, here)) low), (low, rest))
]

sort_mx-IsSorted : (xs : List Mx) → IsSorted (sort_mx xs)
unfolding sort_mx
sort_mx-IsSorted [] = tt
sort_mx-IsSorted (x ∷ xs) = insert_mx-IsSorted x (sort_mx xs) (sort_mx-IsSorted xs)

-- What lookupMX makes of the resolver's answer.
abbrev pub Looked : Result (List Mx) → Result (List Mx) → Type 0
Looked answer (ok mxs) =
    (given : List Mx) × (answer ≡ ok given) × Perm mxs given × IsSorted mxs × (mxs ≢ [])
Looked answer (err e) =
    (permanent : Bool) × (as_delivery e ≡ some permanent)
    × ((permanent ≡ true)
        ↔ ((answer ≡ ok []) ⊎ ((d : Error) × (answer ≡ err d) × (is_not_found_dns_error d ≡ true))))

insert_mx-ne-nil : (x : Mx) (xs : List Mx) → insert_mx x xs ≢ []
unfolding insert_mx
insert_mx-ne-nil x [] e = cc
insert_mx-ne-nil x (y ∷ ys) e = ground arith

-- lookupMX returns the hosts that the resolver gave, each as often, by rising preference and never
-- an empty list; or it fails, and the failure is tagged, as permanent exactly if the answer was
-- empty or "not found".
pub lookup_mx-Looked :
    (answer : Result (List Mx)) (domain : String) → Looked answer (lookup_mx answer domain)
unfolding lookup_mx as_delivery
lookup_mx-Looked (ok []) domain = (true, refl, ((λ h. inl refl), (λ h. refl)))
lookup_mx-Looked (ok (x ∷ xs)) domain = (
  x ∷ xs,
  refl,
  sort_mx-perm (x ∷ xs),
  sort_mx-IsSorted (x ∷ xs),
  insert_mx-ne-nil x (sort_mx xs),
)
lookup_mx-Looked (err e) domain = elim (Bool-cases (is_not_found_dns_error e)) [
  | inl missing ↦ rw (missing, lookup_mx) (true, refl, ((λ h. inr (e, refl, missing)), (λ h. refl)))
  | inr other ↦
      rw (other, lookup_mx)
        (
          false,
          refl,
          (
            (λ h. cc),
            (λ h. elim h [
              | inl bad ↦ cc
              | inr (d, same, found) ↦ ground (arith, found, same, other)
            ]),
          ),
        )
]
