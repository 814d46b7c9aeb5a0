-- ===== src/Api/Tokens/Postgres/Lifetime.antt =====
-- From the creation of a row to its revocation.
use envelope.Prelude.{
  ℕ, ◌≡◌, ◌≢◌, refl, sym, ap, ◌∙◌, arith, eq_iff, eq_refl, String, ◌=ₛ◌, Bool, true, false, ◌||◌,
  Bool-cases, Option-cases, inl, inr, Option, none, some, [], ◌∷◌, if◌then◌else◌,
}
use envelope.Prelude.Dict.{Dict, lookup, insert, lookup-insert}
use envelope.Context.{Error, ok}
use envelope.Api.Tokens.{Token}
use envelope.Api.Tokens.Postgres.{
  TokenRow, token_from_row, hash_used, create_token, with_hash, authenticate, revoke_token,
}

-- The token of a row that is not deleted.
abbrev live_token : TokenRow → Option Token
live_token r = if r.deleted then none else some (token_from_row r)

neither : (a b : Bool) → (a || b) ≡ false → (a ≡ false) × (b ≡ false)
neither a b h = ground (arith, h)

with_hash_unused :
    (token_hash : String) (t : Dict TokenRow)
    → hash_used token_hash t ≡ false
    → with_hash token_hash t ≡ none
unfolding hash_used with_hash
with_hash_unused token_hash [] h = refl
with_hash_unused token_hash ((id, r) ∷ t) h =
    let (here, there) = neither (r.token_hash =ₛ token_hash) (hash_used token_hash t) h in
    rw here (with_hash_unused token_hash t there)

-- The row with a hash of its own is the one that the hash finds.
with_hash-insert :
    (id : String) (r : TokenRow) (t : Dict TokenRow)
    → hash_used r.token_hash t ≡ false
    → with_hash r.token_hash (insert id r t) ≡ live_token r
unfolding hash_used with_hash insert
with_hash-insert id r [] h = simp eq_refl refl
with_hash-insert id r ((k, s) ∷ t) h =
    let (here, there) = neither (s.token_hash =ₛ r.token_hash) (hash_used r.token_hash t) h in
    elim (Bool-cases (k =ₛ id)) [
      | inl same ↦
          rw (same, insert) (rw (eq_refl r.token_hash, with_hash_unused r.token_hash t there) refl)
      | inr differs ↦ rw (differs, insert) (rw here (with_hash-insert id r t there))
    ]

hash_used-insert :
    (id : String) (r : TokenRow) (t : Dict TokenRow) → hash_used r.token_hash (insert id r t) ≡ true
unfolding hash_used insert
hash_used-insert id r [] = simp eq_refl refl
hash_used-insert id r ((k, s) ∷ t) = ground (arith, eq_refl r.token_hash, hash_used-insert id r t)

insert-insert :
    (id : String) (r s : TokenRow) (t : Dict TokenRow) → insert id s (insert id r t) ≡ insert id s t
unfolding insert
insert-insert id r s [] = simp eq_refl refl
insert-insert id r s ((k, x) ∷ t) = elim (Bool-cases (k =ₛ id)) [
  | inl same ↦ rw (same, insert) (rw (eq_refl id) refl)
  | inr differs ↦ rw (differs, insert) (rw differs (ap (λ u. (k, x) ∷ u) (insert-insert id r s t)))
]

absent :
    (here : Bool) (f : TokenRow) (later : Option TokenRow)
    → (if here then some f else later) ≡ none
    → (here ≡ false) × (later ≡ none)
absent true f later h = absurd (cc h)
absent false f later h = (refl, h)

-- Another hash finds what it found, past a new row.
with_hash_past :
    (id other : String) (r : TokenRow) (t : Dict TokenRow)
    → lookup id t ≡ none
    → (r.token_hash =ₛ other) ≡ false
    → with_hash other (insert id r t) ≡ with_hash other t
unfolding with_hash insert lookup
with_hash_past id other r [] fresh h = rw h refl
with_hash_past id other r ((k, s) ∷ t) fresh h =
    let (differs, rest) = absent (k =ₛ id) s (lookup id t) fresh in
    rw (differs, insert) (rw (with_hash_past id other r t rest h) refl)

module _ (duplicate : Error) (now : ℕ) (id account_id label token_hash : String) where
  abbrev row : TokenRow
  row = record {
    id = id;
    account_id = account_id;
    label = label;
    token_hash = token_hash;
    created_at = some now;
    deleted = false;
  }

  abbrev revoked_row : TokenRow
  revoked_row = record row { deleted = true }

  abbrev pub made : Token
  made = record { id = id; account_id = account_id; label = label; created_at = now }

  abbrev pub after_create : Dict TokenRow → Dict TokenRow
  after_create t = (create_token none duplicate now id account_id label token_hash t).1

  abbrev pub after_revoke : Dict TokenRow → Dict TokenRow
  after_revoke t = (revoke_token none account_id id (after_create t)).1

  created :
      (t : Dict TokenRow)
      → id ≢ ""
      → lookup id t ≡ none
      → hash_used token_hash t ≡ false
      → create_token none duplicate now id account_id label token_hash t
        ≡ (ok made, insert id row t)
  unfolding create_token token_from_row
  created t named fresh unused =
      let e : (id =ₛ "") ≡ false = ground (arith, named, eq_iff id "") in
      rw (e, create_token) (rw (fresh, unused) refl)

  stored_at : (t : Dict TokenRow) → lookup id (insert id row t) ≡ some row
  stored_at t = lookup-insert id id row t ∙ simp eq_refl refl

  revoked :
      (t : Dict TokenRow)
      → (revoke_token none account_id id (insert id row t)).1 ≡ insert id revoked_row t
  unfolding revoke_token
  revoked t =
      rw (stored_at t, revoke_token) (rw (eq_refl account_id) (insert-insert id row revoked_row t))

  not_revoked :
      (t : Dict TokenRow) (other : String)
      → (account_id =ₛ other) ≡ false
      → (revoke_token none other id (insert id row t)).1 ≡ insert id row t
  unfolding revoke_token
  not_revoked t other foreign = rw (stored_at t, revoke_token) (rw foreign refl)

  hash_taken :
      (now' : ℕ) (id' account' label' : String) (t : Dict TokenRow)
      → hash_used token_hash t ≡ true
      → (create_token none duplicate now' id' account' label' token_hash t).1 ≡ t
  unfolding create_token
  hash_taken now' id' account' label' t used = elim (Bool-cases (id' =ₛ "")) [
    | inl e ↦ rw (e, create_token) refl
    | inr e ↦ elim (Option-cases (lookup id' t)) [
      | inl f ↦ rw (e, f, create_token) (rw used refl)
      | inr (r, f) ↦ rw (e, f, create_token) refl
    ]
  ]

  -- For a new ID and a hash that no row has: after CreateToken the hash authenticates as the new token,
  -- and every other hash as before; RevokeToken by another account then changes nothing; after
  -- RevokeToken by its own account the hash authenticates no more, every other hash as before, and
  -- CreateToken with that hash is refused.
  pub row_lifetime :
      (t : Dict TokenRow)
      → id ≢ ""
      → lookup id t ≡ none
      → hash_used token_hash t ≡ false
      → (authenticate none token_hash (after_create t) ≡ ok (some made))
        × ((other : String)
            → (token_hash =ₛ other) ≡ false
            → (authenticate none other (after_create t) ≡ authenticate none other t)
              × (authenticate none other (after_revoke t) ≡ authenticate none other t))
        × ((other : String)
            → (account_id =ₛ other) ≡ false
            → (revoke_token none other id (after_create t)).1 ≡ after_create t)
        × (authenticate none token_hash (after_revoke t) ≡ ok none)
        × ((now' : ℕ) (id' account' label' : String)
            → (create_token none duplicate now' id' account' label' token_hash (after_revoke t)).1
              ≡ after_revoke t)
  unfolding authenticate token_from_row
  row_lifetime t named fresh unused =
      let kept : after_create t ≡ insert id row t = ap (λ r. r.1) (created t named fresh unused) in
      let gone : after_revoke t ≡ insert id revoked_row t =
        ap (λ u. (revoke_token none account_id id u).1) kept ∙ revoked t in
      (
        ap (λ u. ok (with_hash token_hash u)) kept ∙ ap ok (with_hash-insert id row t unused),
        λ other differs. (
          ap (λ u. ok (with_hash other u)) kept
              ∙ ap ok (with_hash_past id other row t fresh differs),
          ap (λ u. ok (with_hash other u)) gone
              ∙ ap ok (with_hash_past id other revoked_row t fresh differs),
        ),
        λ other foreign.
            ap (λ u. (revoke_token none other id u).1) kept
            ∙ not_revoked t other foreign
            ∙ sym kept,
        ap (λ u. ok (with_hash token_hash u)) gone
            ∙ ap ok (with_hash-insert id revoked_row t unused),
        λ now' id' account' label'.
            hash_taken now' id' account' label' (after_revoke t)
              (ap (hash_used token_hash) gone ∙ hash_used-insert id revoked_row t),
      )
