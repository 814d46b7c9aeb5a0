-- ===== src/Api/Tokens.antt =====
-- internal/apiauth/memory.go: API tokens in memory. The Go mutex makes each method one step.
pub mod Lifetime
pub mod Postgres
use envelope.Prelude.{
  ℕ, ◌+◌, ℤ, pos, negsuc, ltb, leb, String, ◌<>◌, ◌=ₛ◌, ◌==◌, quote, before, Bool, true, false, not,
  ◌||◌, Option, none, some, List, [], ◌∷◌, take, if◌then◌else◌,
}
use envelope.Prelude.Dict.{Dict, lookup, insert, delete}
use envelope.Context.{Context, Error, plain, wrap, sentinel, apiauth_not_found, Result, ok, err}

pub record Token : Type 0 where
  pub id : String
  pub account_id : String
  pub label : String
  pub created_at : ℕ

pub record TokenEntry : Type 0 where
  pub token : Token
  pub hash : String

abbrev pub default_page_size : ℕ
default_page_size = 100

abbrev pub max_page_size : ℕ
max_page_size = 500

-- `now` is the clock's reading.
unfoldable pub create_token :
    Context
    → ℕ
    → String
    → String
    → String
    → String
    → Dict TokenEntry
    → Result Token × Dict TokenEntry
create_token ctx now id account_id label token_hash m =
    let tok : Token = record {
      id = id;
      account_id = account_id;
      label = label;
      created_at = now;
    } in
    elim ctx.done [
      | some e ↦ (err e, m)
      | none ↦
          if id =ₛ ""
          then (err (plain "apiauth: token ID is required"), m)
          else (ok tok, insert id (record { token = tok; hash = token_hash }) m)
    ]

-- The loop of Authenticate.
unfoldable pub with_hash : String → Dict TokenEntry → Option Token
with_hash token_hash [] = none
with_hash token_hash ((id, e) ∷ m) =
    let later = with_hash token_hash m in if e.hash =ₛ token_hash then some e.token else later

-- `ok none` is the Go result with ok = false.
unfoldable pub authenticate : Context → String → Dict TokenEntry → Result (Option Token)
authenticate ctx token_hash m = elim ctx.done [
  | some e ↦ err e
  | none ↦ ok (with_hash token_hash m)
]

abbrev pub place_token : Token → List Token → List Token
place_token t [] = t ∷ []
place_token t (u ∷ out) =
    let rest = place_token t out in if before t.id u.id then t ∷ u ∷ out else u ∷ rest

-- The tokens of the account, sorted by ID.
unfoldable pub of_account : String → Dict TokenEntry → List Token
of_account account_id [] = []
of_account account_id ((id, e) ∷ m) =
    let rest = of_account account_id m in
    if e.token.account_id =ₛ account_id then place_token e.token rest else rest

unfoldable pub list_tokens : Context → String → Dict TokenEntry → Result (List Token)
list_tokens ctx account_id m = elim ctx.done [
  | some e ↦ err e
  | none ↦ ok (of_account account_id m)
]

-- The tokens from the first one behind the cursor on.
unfoldable pub behind_cursor : String → List Token → List Token
behind_cursor cursor [] = []
behind_cursor cursor (t ∷ all) =
    let rest = behind_cursor cursor all in if before cursor t.id then t ∷ all else rest

-- A limit that is not positive or too large is the default.
unfoldable pub page_limit : ℤ → ℕ
page_limit (negsuc n) = default_page_size
page_limit (pos n) = if (n == 0) || ltb max_page_size n then default_page_size else n

unfoldable pub list_tokens_page :
    Context → String → String → ℤ → Dict TokenEntry → Result (List Token)
list_tokens_page ctx account_id cursor limit m = elim (list_tokens ctx account_id m) [
  | err e ↦ err e
  | ok all ↦ ok (take (page_limit limit) (if cursor =ₛ "" then all else behind_cursor cursor all))
]

unfoldable pub revoke_token :
    Context → String → String → Dict TokenEntry → Option Error × Dict TokenEntry
revoke_token ctx account_id id m =
    let missing = wrap ("apiauth: token " <> (quote id <> ": ")) (sentinel apiauth_not_found) in
    elim ctx.done [
      | some e ↦ (some e, m)
      | none ↦ elim (lookup id m) [
        | none ↦ (some missing, m)
        | some e ↦
            if e.token.account_id =ₛ account_id then (none, delete id m) else (some missing, m)
      ]
    ]
