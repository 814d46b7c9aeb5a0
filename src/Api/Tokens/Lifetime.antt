-- ===== src/Api/Tokens/Lifetime.antt =====
-- From the creation of a token to its revocation.
use envelope.Prelude.{
  ℕ, ◌≡◌, ◌≢◌, refl, sym, ap, ◌∙◌, arith, eq_iff, eq_refl, String, ◌=ₛ◌, Bool, true, false,
  Bool-cases, inl, inr, Option, none, some, [], ◌∷◌, if◌then◌else◌,
}
use envelope.Prelude.Dict.{Dict, lookup, insert, delete, lookup-insert}
use envelope.Context.{background, ok}
use envelope.Api.Tokens.{Token, TokenEntry, create_token, with_hash, authenticate, revoke_token}

both_none :
    (here : Bool) (t : Token) (later : Option Token)
    → (if here then some t else later) ≡ none
    → (here ≡ false) × (later ≡ none)
both_none true t later h = absurd (cc h)
both_none false t later h = (refl, h)

absent :
    (here : Bool) (f : TokenEntry) (later : Option TokenEntry)
    → (if here then some f else later) ≡ none
    → (here ≡ false) × (later ≡ none)
absent true f later h = absurd (cc h)
absent false f later h = (refl, h)

with_hash-insert :
    (id : String) (e : TokenEntry) (m : Dict TokenEntry)
    → with_hash e.hash m ≡ none
    → with_hash e.hash (insert id e m) ≡ some e.token
unfolding with_hash insert
with_hash-insert id e [] h = simp eq_refl refl
with_hash-insert id e ((k, f) ∷ m) h =
    let (other, rest) = both_none (f.hash =ₛ e.hash) f.token (with_hash e.hash m) h in
    elim (Bool-cases (k =ₛ id)) [
      | inl same ↦ rw (same, insert) (simp eq_refl refl)
      | inr differs ↦ rw (differs, insert) (rw other (with_hash-insert id e m rest))
    ]

-- Another hash finds what it found, past a new token.
with_hash_past :
    (id other : String) (e : TokenEntry) (m : Dict TokenEntry)
    → lookup id m ≡ none
    → (e.hash =ₛ other) ≡ false
    → with_hash other (insert id e m) ≡ with_hash other m
unfolding with_hash insert lookup
with_hash_past id other e [] fresh h = rw h refl
with_hash_past id other e ((k, f) ∷ m) fresh h =
    let (differs, rest) = absent (k =ₛ id) f (lookup id m) fresh in
    rw (differs, insert) (rw (with_hash_past id other e m rest h) refl)

delete_new :
    (id : String) (e : TokenEntry) (m : Dict TokenEntry)
    → lookup id m ≡ none
    → delete id (insert id e m) ≡ m
unfolding insert delete lookup
delete_new id e [] fresh = simp eq_refl refl
delete_new id e ((k, f) ∷ m) fresh =
    let (differs, rest) = absent (k =ₛ id) f (lookup id m) fresh in
    rw (differs, insert, delete) (rw differs (ap (λ u. (k, f) ∷ u) (delete_new id e m rest)))

module _ (c : String) (now : ℕ) (id account_id label token_hash : String) where
  abbrev pub made : Token
  made = record { id = id; account_id = account_id; label = label; created_at = now }

  abbrev pub after_create : Dict TokenEntry → Dict TokenEntry
  after_create m = (create_token (background c) now id account_id label token_hash m).1

  created :
      (m : Dict TokenEntry)
      → id ≢ ""
      → after_create m ≡ insert id (record { token = made; hash = token_hash }) m
  unfolding create_token
  created m named =
      let e : (id =ₛ "") ≡ false = ground (arith, named, eq_iff id "") in
      rw (e, after_create, create_token) refl

  stored_at :
      (m : Dict TokenEntry)
      → lookup id (insert id (record { token = made; hash = token_hash }) m)
        ≡ some (record { token = made; hash = token_hash })
  stored_at m =
      lookup-insert id id (record { token = made; hash = token_hash }) m ∙ simp eq_refl refl

  revoked :
      (m : Dict TokenEntry)
      → let stored = insert id (record { token = made; hash = token_hash }) m in
        (revoke_token (background c) account_id id stored).1 ≡ delete id stored
  unfolding revoke_token
  revoked m = rw (stored_at m, revoke_token) (rw (eq_refl account_id) refl)

  not_revoked :
      (m : Dict TokenEntry) (other : String)
      → (account_id =ₛ other) ≡ false
      → let stored = insert id (record { token = made; hash = token_hash }) m in
        (revoke_token (background c) other id stored).1 ≡ stored
  unfolding revoke_token
  not_revoked m other foreign = rw (stored_at m, revoke_token) (rw foreign refl)

  -- For a new ID and a hash that no token has: after CreateToken the hash authenticates as the new
  -- token, and every other hash as before; RevokeToken by another account then changes nothing, and by
  -- its own account leaves the tokens that there were before its creation, so that the hash
  -- authenticates no more.
  pub token_lifetime :
      (m : Dict TokenEntry)
      → id ≢ ""
      → lookup id m ≡ none
      → with_hash token_hash m ≡ none
      → (authenticate (background c) token_hash (after_create m) ≡ ok (some made))
        × ((other : String)
            → (token_hash =ₛ other) ≡ false
            → authenticate (background c) other (after_create m)
              ≡ authenticate (background c) other m)
        × ((other : String)
            → (account_id =ₛ other) ≡ false
            → (revoke_token (background c) other id (after_create m)).1 ≡ after_create m)
        × ((revoke_token (background c) account_id id (after_create m)).1 ≡ m)
        × (authenticate
              (background c)
              token_hash
              (revoke_token (background c) account_id id (after_create m)).1
            ≡ ok none)
  unfolding authenticate
  token_lifetime m named fresh unused =
      let entry : TokenEntry = record { token = made; hash = token_hash } in
      let stored = insert id entry m in
      let kept = created m named in
      let undone : (revoke_token (background c) account_id id (after_create m)).1 ≡ m =
        ap (λ x. (revoke_token (background c) account_id id x).1) kept
        ∙ revoked m
        ∙ delete_new id entry m fresh in
      (
        ap (λ x. ok (with_hash token_hash x)) kept ∙ ap ok (with_hash-insert id entry m unused),
        λ other differs.
            ap (λ x. ok (with_hash other x)) kept
            ∙ ap ok (with_hash_past id other entry m fresh differs),
        λ other foreign.
            ap (λ x. (revoke_token (background c) other id x).1) kept
            ∙ not_revoked m other foreign
            ∙ sym kept,
        undone,
        ap (λ x. ok (with_hash token_hash x)) undone ∙ ap ok unused,
      )
