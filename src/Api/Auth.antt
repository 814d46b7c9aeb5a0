-- ===== src/Api/Auth.antt =====
-- internal/api/auth.go: who a bearer token is, and what it may act on.
pub mod Access
use envelope.Prelude.{
  ℕ, ℤ, pos, is_positive, Bool, true, false, not, ◌||◌, ◌&&◌, Option, none, some, String, ◌<>◌,
  ◌=ₛ◌, before_first, strip_prefix, if◌then◌else◌,
}
use envelope.Context.{
  Context, Error, plain, sentinel, smtp, dns, delivery, wrap, directory_not_found, Sentinel,
  webhook_not_found, apiauth_not_found, Result, ok, err,
}
use envelope.Directory.{Vhost}
use envelope.Smtp.Limits.{Limiter, is_denied}

pub record AuthContext : Type 0 where
  pub is_admin : Bool
  pub account_id : String

-- The error outputs, with their texts: 401, 403, 429 and 500.
pub data Output : Type 0 where
  unauthorized forbidden too_many_requests internal_server_error : String → Output

pub data Answer : Type 0 where
  granted : AuthContext → Answer
  refused : Output → Answer

-- The store of tokens by their hash (the account of the token), the hash, strings.TrimSpace, the
-- limiter, and the lookup of a vhost by its ID.
pub record Parts : Type 1 where
  pub tokens : Context → String → Result (Option String)
  pub hash_token : String → String
  pub trim_space : String → String
  pub limiter : Limiter
  pub get_vhost : Context → String → Result Vhost

-- `limited` says whether the policy and its limiter are set; a nil admin token is "".
pub record Policy : Type 0 where
  pub admin : String
  pub limited : Bool
  pub capacity : ℤ
  pub refill : ℤ

pub record Headers : Type 0 where
  pub authorization : String
  pub forwarded_for : String

-- errors.Is(err, directory.ErrNotFound)
unfoldable pub is_not_found : Error → Bool
is_not_found (sentinel directory_not_found) = true
is_not_found (sentinel webhook_not_found) = false
is_not_found (sentinel apiauth_not_found) = false
is_not_found (plain s) = false
is_not_found (smtp e) = false
is_not_found (dns b s) = false
is_not_found (delivery b e) = is_not_found e
is_not_found (wrap s e) = is_not_found e

unfoldable pub actor : AuthContext → String
actor ac = if ac.is_admin then "admin" else "account:" <> ac.account_id

or_default : ℤ → ℕ → ℤ
or_default n default = if is_positive n then n else pos default

module _ (p : Parts) (policy : Policy) where
  unfoldable pub client_ip : String → String
  client_ip forwarded_for = p.trim_space (before_first b',' forwarded_for)

  unfoldable pub check_api_rate_limit :
      Context → String → p.limiter.State → Option Output × p.limiter.State
  unfolding or_default
  check_api_rate_limit ctx forwarded_for s =
      let ip = client_ip forwarded_for in
      if not policy.limited || (ip =ₛ "")
      then (none, s)
      else (let (allowed, left) =
            p.limiter.allow ctx ("api:" <> ip) (or_default policy.capacity 60)
              (or_default policy.refill 1, 1) s in
          (
            if is_denied allowed
                then some (too_many_requests "rate limit exceeded, try again later")
                else none,
            left,
          ))

  unfoldable pub bearer_token : String → Option String
  bearer_token header = elim (strip_prefix "Bearer " header) [
    | none ↦ none
    | some rest ↦ let raw = p.trim_space rest in if raw =ₛ "" then none else some raw
  ]

  token_answer : Result (Option String) → Answer
  token_answer (err e) = refused (internal_server_error "failed to authenticate")
  token_answer (ok none) = refused (unauthorized "invalid or revoked token")
  token_answer (ok (some id)) = granted (record { is_admin = false; account_id = id })

  -- authenticate, after the rate limit.
  unfoldable pub identify : Context → Option String → Answer
  unfolding token_answer
  identify ctx none =
      refused (unauthorized "missing or malformed Authorization header (expected: Bearer <token>)")
  identify ctx (some raw) =
      if not (policy.admin =ₛ "") && (raw =ₛ policy.admin)
      then granted (record { is_admin = true; account_id = "" })
      else token_answer (p.tokens ctx (p.hash_token raw))

  unfoldable pub authenticate : Context → Headers → p.limiter.State → Answer × p.limiter.State
  authenticate ctx h s =
      let (limit, left) = check_api_rate_limit ctx h.forwarded_for s in
      elim limit [
        | some out ↦ (refused out, left)
        | none ↦ (identify ctx (bearer_token h.authorization), left)
      ]

  admin_only : Answer → Answer
  admin_only (refused out) = refused out
  admin_only (granted ac) =
      if ac.is_admin then granted ac else refused (forbidden "admin token required")

  unfoldable pub require_admin : Context → Headers → p.limiter.State → Answer × p.limiter.State
  unfolding admin_only
  require_admin ctx h s = let (answer, left) = authenticate ctx h s in (admin_only answer, left)

  of_account : String → Answer → Answer
  of_account account (refused out) = refused out
  of_account account (granted ac) =
      if ac.is_admin || (ac.account_id =ₛ account)
      then granted ac
      else refused (forbidden "token is not authorized for this account")

  unfoldable pub require_account_access :
      Context → Headers → String → p.limiter.State → Answer × p.limiter.State
  unfolding of_account
  require_account_access ctx h account s =
      let (answer, left) = authenticate ctx h s in (of_account account answer, left)

  -- The answer once the vhost is looked up.
  unfoldable pub of_vhost : AuthContext → Result Vhost → Answer
  of_vhost ac (err e) =
      if is_not_found e
      then refused (forbidden "token is not authorized for this vhost")
      else refused (internal_server_error "failed to verify vhost")
  of_vhost ac (ok v) =
      if ac.account_id =ₛ v.account_id
      then granted ac
      else refused (forbidden "token is not authorized for this vhost")

  unfoldable pub vhost_answer : Context → String → Answer → Answer
  vhost_answer ctx id (refused out) = refused out
  vhost_answer ctx id (granted ac) =
      if ac.is_admin then granted ac else of_vhost ac (p.get_vhost ctx id)

  unfoldable pub require_vhost_account_access :
      Context → Headers → String → p.limiter.State → Answer × p.limiter.State
  require_vhost_account_access ctx h id s =
      let (answer, left) = authenticate ctx h s in (vhost_answer ctx id answer, left)
