-- ===== src/Api/Auth/Access.antt =====
-- Who is let through to a vhost.
use envelope.Prelude.{
  ◌≡◌, ◌≢◌, ◌⊎◌, refl, ap, true, false, Bool-cases, inl, inr, Option, none, some, Option-cases,
  String, ◌=ₛ◌, eq_iff, arith, not, ◌&&◌,
}
use envelope.Context.{Context, Error, Result, ok, err}
use envelope.Directory.{Vhost}
use envelope.Api.Auth.{
  Parts, Policy, Headers, AuthContext, Output, Answer, granted, refused, bearer_token, identify,
  check_api_rate_limit, token_answer, authenticate, is_not_found, of_vhost, vhost_answer,
  require_vhost_account_access,
}

module _ (p : Parts) (policy : Policy) where
  -- The bearer of this token: the admin credential, which is set, or a live token of the account.
  pub data IsKnown (ctx : Context) (raw : String) : AuthContext → Type 0 where
    as_admin :
        raw ≡ policy.admin
        → raw ≢ ""
        → IsKnown ctx raw (record { is_admin = true; account_id = "" })
    as_account :
        (id : String)
        → p.tokens ctx (p.hash_token raw) ≡ ok (some id)
        → IsKnown ctx raw (record { is_admin = false; account_id = id })

  data Identified (ctx : Context) (raw : String) : Answer → Type 0 where
    nobody : (out : Output) → Identified ctx raw (refused out)
    somebody : (ac : AuthContext) → IsKnown ctx raw ac → Identified ctx raw (granted ac)

  token_answer-Identified :
      (ctx : Context) (raw : String) (r : Result (Option String))
      → p.tokens ctx (p.hash_token raw) ≡ r
      → Identified ctx raw (token_answer p policy r)
  unfolding token_answer
  token_answer-Identified ctx raw (err e) f = nobody _
  token_answer-Identified ctx raw (ok none) f = nobody _
  token_answer-Identified ctx raw (ok (some id)) f = somebody _ (as_account id f)

  identify-Identified :
      (ctx : Context) (raw : String) → Identified ctx raw (identify p policy ctx (some raw))
  unfolding identify
  identify-Identified ctx raw =
      elim (Bool-cases (not (policy.admin =ₛ "") && (raw =ₛ policy.admin))) [
        | inl e ↦
            rw (e, identify)
              (somebody _ (
                as_admin (ground (arith, e, eq_iff raw policy.admin)) (
                  ground
                    (arith, e, eq_iff raw policy.admin, eq_iff raw "", eq_iff policy.admin ""))))
        | inr e ↦ rw (e, identify) (token_answer-Identified ctx raw _ refl)
      ]

  -- The answer to a request on a vhost.
  pub data Allowed (ctx : Context) (h : Headers) (id : String) : Answer → Type 0 where
    denied : (out : Output) → Allowed ctx h id (refused out)
    allowed :
        (raw : String) (ac : AuthContext)
        → bearer_token p policy h.authorization ≡ some raw
        → IsKnown ctx raw ac
        → (ac.is_admin ≡ true)
          ⊎ ((v : Vhost) × (p.get_vhost ctx id ≡ ok v) × (ac.account_id ≡ v.account_id))
        → Allowed ctx h id (granted ac)

  of_vhost-Allowed :
      (ctx : Context) (h : Headers) (id raw : String) (ac : AuthContext) (r : Result Vhost)
      → bearer_token p policy h.authorization ≡ some raw
      → IsKnown ctx raw ac
      → p.get_vhost ctx id ≡ r
      → Allowed ctx h id (of_vhost p policy ac r)
  unfolding of_vhost
  of_vhost-Allowed ctx h id raw ac (err e) b k g = elim (Bool-cases (is_not_found e)) [
    | inl f ↦ rw (f, of_vhost) (denied _)
    | inr f ↦ rw (f, of_vhost) (denied _)
  ]
  of_vhost-Allowed ctx h id raw ac (ok v) b k g =
      elim (Bool-cases (ac.account_id =ₛ v.account_id)) [
        | inl f ↦
            simp (f, of_vhost)
              (allowed raw ac b k (inr (v, g, (eq_iff ac.account_id v.account_id).0 f)))
        | inr f ↦ simp (f, of_vhost) (denied _)
      ]

  vhost_answer-Allowed :
      (ctx : Context) (h : Headers) (id raw : String) (answer : Answer)
      → bearer_token p policy h.authorization ≡ some raw
      → Identified ctx raw answer
      → Allowed ctx h id (vhost_answer p policy ctx id answer)
  unfolding vhost_answer
  vhost_answer-Allowed ctx h id raw (refused out) b i = denied out
  vhost_answer-Allowed ctx h id raw (granted _) b (somebody ac k) = elim (Bool-cases ac.is_admin) [
    | inl f ↦ simp (f, vhost_answer) (allowed raw ac b k (inl f))
    | inr f ↦ simp (f, vhost_answer) (of_vhost-Allowed ctx h id raw ac _ b k refl)
  ]

  -- A request on a vhost is let through only with a bearer token that is the admin credential, which is
  -- not empty, or a live token of the account that the vhost with this ID belongs to.
  pub require_vhost_account_access-Allowed :
      (ctx : Context) (h : Headers) (id : String) (s : p.limiter.State)
      → Allowed ctx h id (require_vhost_account_access p policy ctx h id s).0
  unfolding require_vhost_account_access authenticate vhost_answer identify
  require_vhost_account_access-Allowed ctx h id s =
      elim (Option-cases (check_api_rate_limit p policy ctx h.forwarded_for s).0) [
        | inr (out, e) ↦ rw (e, require_vhost_account_access, authenticate) (denied out)
        | inl e ↦ elim (Option-cases (bearer_token p policy h.authorization)) [
          | inl f ↦ rw (e, f, require_vhost_account_access, authenticate) (denied _)
          | inr (raw, f) ↦
              rw (e, f, require_vhost_account_access, authenticate)
                (vhost_answer-Allowed ctx h id raw _ f (identify-Identified ctx raw))
        ]
      ]

  -- A caller that is not the admin gets the same answer for an ID that no vhost has as for the ID of
  -- another account's vhost: the answers do not tell which vhosts exist.
  pub vhost_existence_hidden :
      (ctx : Context) (h : Headers) (a b : String) (s : p.limiter.State) (ac : AuthContext)
      (e : Error) (v : Vhost)
      → (authenticate p policy ctx h s).0 ≡ granted ac
      → ac.is_admin ≡ false
      → p.get_vhost ctx a ≡ err e
      → is_not_found e ≡ true
      → p.get_vhost ctx b ≡ ok v
      → ac.account_id ≢ v.account_id
      → require_vhost_account_access p policy ctx h a s
        ≡ require_vhost_account_access p policy ctx h b s
  unfolding require_vhost_account_access vhost_answer of_vhost
  vhost_existence_hidden ctx h a b s ac e v known plain missing absent found foreign =
      ap (λ x. (x, (authenticate p policy ctx h s).1)) same
    where
      differs : (ac.account_id =ₛ v.account_id) ≡ false
      differs = ground (arith, eq_iff ac.account_id v.account_id, foreign)

      same :
          vhost_answer p policy ctx a (authenticate p policy ctx h s).0
          ≡ vhost_answer p policy ctx b (authenticate p policy ctx h s).0
      same = simp (known, plain, missing, absent, found, differs, vhost_answer, of_vhost) refl
