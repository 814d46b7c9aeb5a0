-- ===== src/Api/Tokens/Postgres.antt =====
-- internal/apiauth/postgres.go: API tokens in a table. A revoked row stays, marked as deleted. An
-- argument `db` is the database's error in a call, if it has one, and `duplicate` its error for a
-- row whose ID or hash a row has.
pub mod Lifetime
use envelope.Prelude.{
  ℕ, ℤ, pos, negsuc, ltb, String, ◌<>◌, ◌=ₛ◌, ◌==◌, quote, before, Bool, true, false, not, ◌&&◌,
  ◌||◌, Option, none, some, List, [], ◌∷◌, take, if◌then◌else◌,
}
use envelope.Prelude.Dict.{Dict, lookup, insert}
use envelope.Context.{Error, plain, wrap, sentinel, apiauth_not_found, Result, ok, err}
use envelope.Api.Tokens.{Token, default_page_size, max_page_size, place_token}

pub record TokenRow : Type 0 where
  pub id : String
  pub account_id : String
  pub label : String
  pub token_hash : String
  pub created_at : Option ℕ
  pub deleted : Bool

-- The zero time is the instant 0.
abbrev or_zero : Option ℕ → ℕ
or_zero none = 0
or_zero (some t) = t

unfoldable pub token_from_row : TokenRow → Token
token_from_row r = record {
  id = r.id;
  account_id = r.account_id;
  label = r.label;
  created_at = or_zero r.created_at;
}

-- Some row has the hash, a deleted one too: what the unique index tests.
unfoldable pub hash_used : String → Dict TokenRow → Bool
hash_used token_hash [] = false
hash_used token_hash ((id, r) ∷ t) =
    let later = hash_used token_hash t in (r.token_hash =ₛ token_hash) || later

unfoldable pub create_token :
    Option Error
    → Error
    → ℕ
    → String
    → String
    → String
    → String
    → Dict TokenRow
    → Result Token × Dict TokenRow
create_token db duplicate now id account_id label token_hash t =
    let row : TokenRow = record {
      id = id;
      account_id = account_id;
      label = label;
      token_hash = token_hash;
      created_at = some now;
      deleted = false;
    } in
    if id =ₛ "" then (err (plain "apiauth: token ID is required"), t) else elim db [
      | some e ↦ (err (wrap "apiauth: create token: " e), t)
      | none ↦ elim (lookup id t) [
        | some _ ↦ (err (wrap "apiauth: create token: " duplicate), t)
        | none ↦
            if hash_used token_hash t
            then (err (wrap "apiauth: create token: " duplicate), t)
            else (ok (token_from_row row), insert id row t)
      ]
    ]

-- The row with the hash that is not deleted; the index lets there be one at most.
unfoldable pub with_hash : String → Dict TokenRow → Option Token
with_hash token_hash [] = none
with_hash token_hash ((id, r) ∷ t) =
    let later = with_hash token_hash t in
    if r.token_hash =ₛ token_hash
    then if r.deleted then later else some (token_from_row r)
    else later

-- `ok none` is the Go result with ok = false.
unfoldable pub authenticate : Option Error → String → Dict TokenRow → Result (Option Token)
authenticate db token_hash t = elim db [
  | some e ↦ err (wrap "apiauth: authenticate: " e)
  | none ↦ ok (with_hash token_hash t)
]

-- WHERE account_id = ? ORDER BY id ASC
unfoldable pub of_account : String → Dict TokenRow → List Token
of_account account_id [] = []
of_account account_id ((id, r) ∷ t) =
    let rest = of_account account_id t in
    if (r.account_id =ₛ account_id) && not r.deleted
    then place_token (token_from_row r) rest
    else rest

abbrev listing_failed : String → Error → Error
listing_failed account_id e =
    wrap ("apiauth: list tokens for account " <> (quote account_id <> ": ")) e

unfoldable pub list_tokens : Option Error → String → Dict TokenRow → Result (List Token)
list_tokens db account_id t = elim db [
  | some e ↦ err (listing_failed account_id e)
  | none ↦ ok (of_account account_id t)
]

-- A limit that is not positive is the default, and one that is too large the maximum.
unfoldable pub page_limit : ℤ → ℕ
page_limit (negsuc n) = default_page_size
page_limit (pos n) =
    if n == 0 then default_page_size else if ltb max_page_size n then max_page_size else n

-- id > ?
unfoldable pub after_cursor : String → List Token → List Token
after_cursor cursor [] = []
after_cursor cursor (tok ∷ rest) =
    let later = after_cursor cursor rest in if before cursor tok.id then tok ∷ later else later

unfoldable pub list_tokens_page :
    Option Error → String → String → ℤ → Dict TokenRow → Result (List Token)
list_tokens_page db account_id cursor limit t =
    let all = of_account account_id t in
    elim db [
      | some e ↦ err (listing_failed account_id e)
      | none ↦ ok (take (page_limit limit) (if cursor =ₛ "" then all else after_cursor cursor all))
    ]

unfoldable pub revoke_token :
    Option Error → String → String → Dict TokenRow → Option Error × Dict TokenRow
revoke_token db account_id id t =
    let missing = wrap ("apiauth: token " <> (quote id <> ": ")) (sentinel apiauth_not_found) in
    elim db [
      | some e ↦ (some (wrap ("apiauth: revoke token " <> (quote id <> ": ")) e), t)
      | none ↦ elim (lookup id t) [
        | none ↦ (some missing, t)
        | some r ↦
            if (r.account_id =ₛ account_id) && not r.deleted
            then (none, insert id (record r { deleted = true }) t)
            else (some missing, t)
      ]
    ]
