-- ===== src/Api/Tests.antt =====
-- A token of one account, at its own vhost, another's, and none.
use envelope.Prelude.{
  ℕ, ◌≡◌, ◌≢◌, refl, pos, true, false, none, some, [], String, ◌=ₛ◌, eq_iff, strip_prefix,
  before_first, arith, if◌then◌else◌,
}
use envelope.Context.{
  Context, background, Error, plain, wrap, sentinel, directory_not_found, Result, ok, err,
}
use envelope.Prelude.Dict.{lookup}
use envelope.Directory.{Vhost}
use envelope.Samples.{live, vhost_at, generous}
use envelope.Api.Auth.{
  Parts, Policy, Headers, AuthContext, granted, client_ip, bearer_token, check_api_rate_limit,
  identify, authenticate, is_not_found, require_vhost_account_access,
}
use envelope.Api.Tokens as Tokens
use envelope.Api.Tokens.{with_hash, revoke_token}
use envelope.Api.Tokens.Lifetime.{made, after_create, token_lifetime}
use envelope.Api.Tokens.Postgres as Table
use envelope.Api.Tokens.Postgres.{hash_used}
use envelope.Api.Tokens.Postgres.Lifetime as Rows
use envelope.Api.Tokens.Postgres.Lifetime.{row_lifetime}
use envelope.Api.Auth.Access.{Allowed, require_vhost_account_access-Allowed, vhost_existence_hidden}

abbrev missing : Error
missing = wrap "directory: vhost: " (sentinel directory_not_found)

abbrev own : Vhost
own = record (vhost_at "a.example" (pos 5)) { account_id = "acc" }

abbrev foreign : Vhost
foreign = record (vhost_at "b.example" (pos 5)) { account_id = "other" }

abbrev find : Context → String → Result Vhost
find ctx id = if id =ₛ "own" then ok own else if id =ₛ "foreign" then ok foreign else err missing

abbrev parts : Parts
parts = record {
  tokens = λ ctx hash. ok (some "acc");
  hash_token = λ raw. raw;
  trim_space = λ s. s;
  limiter = generous;
  get_vhost = find;
}

abbrev policy : Policy
policy = record { admin = "root"; limited = true; capacity = pos 0; refill = pos 0 }

abbrev headers : Headers
headers = record { authorization = "Bearer env_1"; forwarded_for = "" }

abbrev caller : AuthContext
caller = record { is_admin = false; account_id = "acc" }

require_vhost_account_access-Allowed_example :
    Allowed parts policy live headers "own"
      (require_vhost_account_access parts policy live headers "own" tt).0
require_vhost_account_access-Allowed_example =
    require_vhost_account_access-Allowed parts policy live headers "own" tt

identified : (authenticate parts policy live headers tt).0 ≡ granted caller
unfolding authenticate check_api_rate_limit identify bearer_token client_ip strip_prefix
    before_first
identified = refl

of_other : caller.account_id ≢ foreign.account_id
of_other = λ e. ground (arith, e, eq_iff "acc" "other")

vhost_existence_hidden_example :
    require_vhost_account_access parts policy live headers "nowhere" tt
    ≡ require_vhost_account_access parts policy live headers "foreign" tt
unfolding is_not_found
vhost_existence_hidden_example =
    vhost_existence_hidden parts policy live headers "nowhere" "foreign" tt caller missing foreign
      identified refl refl refl refl of_other

token_lifetime_example :
    let stored = after_create "c1" 7 "t1" "acc" "ci" "h1" [] in
    (Tokens.authenticate (background "c1") "h1" stored
      ≡ ok (some (made "c1" 7 "t1" "acc" "ci" "h1")))
    × ((other : String)
        → ("h1" =ₛ other) ≡ false
        → Tokens.authenticate (background "c1") other stored
          ≡ Tokens.authenticate (background "c1") other [])
    × ((other : String)
        → ("acc" =ₛ other) ≡ false
        → (revoke_token (background "c1") other "t1" stored).1 ≡ stored)
    × ((revoke_token (background "c1") "acc" "t1" stored).1 ≡ [])
    × (Tokens.authenticate
          (background "c1")
          "h1"
          (revoke_token (background "c1") "acc" "t1" stored).1
        ≡ ok none)
unfolding with_hash lookup
token_lifetime_example =
    token_lifetime "c1" 7 "t1" "acc" "ci" "h1" [] (λ e. ground (arith, e, eq_iff "t1" "")) refl refl

abbrev taken_already : Error
taken_already = plain "duplicate key"

row_lifetime_example :
    let stored = Rows.after_create taken_already 7 "t1" "acc" "ci" "h1" [] in
    let revoked = Rows.after_revoke taken_already 7 "t1" "acc" "ci" "h1" [] in
    (Table.authenticate none "h1" stored
      ≡ ok (some (Rows.made taken_already 7 "t1" "acc" "ci" "h1")))
    × ((other : String)
        → ("h1" =ₛ other) ≡ false
        → (Table.authenticate none other stored ≡ Table.authenticate none other [])
          × (Table.authenticate none other revoked ≡ Table.authenticate none other []))
    × ((other : String)
        → ("acc" =ₛ other) ≡ false
        → (Table.revoke_token none other "t1" stored).1 ≡ stored)
    × (Table.authenticate none "h1" revoked ≡ ok none)
    × ((now : ℕ) (id account label : String)
        → (Table.create_token none taken_already now id account label "h1" revoked).1 ≡ revoked)
unfolding hash_used lookup
row_lifetime_example =
    row_lifetime taken_already 7 "t1" "acc" "ci" "h1" [] (λ e. ground (arith, e, eq_iff "t1" ""))
      refl refl
