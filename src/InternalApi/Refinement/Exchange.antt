-- ===== src/InternalApi/Refinement/Exchange.antt =====
-- One exchange with the server, and what a vhost keeps on its way.
use envelope.Prelude.{
  ℕ, ◌≡◌, ◌∙◌, refl, sym, ap, false, Option, none, some, String, ◌=ₛ◌, eq_iff, arith,
}
use envelope.Prelude.Dict.{lookup}
use envelope.Context.{Error, Result, ok, err}
use envelope.Storage.{MessageRef}
use envelope.Directory.{Vhost}
use envelope.Queue.{Job}
use envelope.InternalApi.{
  KeepsKeys, rsa_key_to_pem, pem_to_rsa_key, vhost_response, scope_directory_vhost,
}
use envelope.InternalApi.Server.{
  ref_in, Request, Response, Parts, World, authorize, serve, handle, routes, handle_vhost,
  vhost_answer, vhost_dto, job_of, write_json, write_error, done_or_error,
}
use envelope.InternalApi.Client as Client
use envelope.InternalApi.Client.{
  Fault, sound, lost_request, lost_reply, exchange, post, job_request, flags_request, write_request,
  read_request, meta_of, vhost_of, vhost_in, key_of, reply_of, reply_to, decoded, error_of, do_json,
  tell,
}
use envelope.InternalApi.Refinement.{
  Call, ask_vhost, ask_active, Reply, got_vhost, got_bool, succeeded, shared, is_active, direct,
  failed, direct_under, Carries, IsGranted, remote,
}

module _ (p : Parts) where
  module _ (token : String) where
    pub authorize-next :
        (scope : String) (next : Request → World p → Response × World p) (r : Request) (w : World p)
        → r.token ≡ token
        → IsGranted p token scope
        → authorize p scope next r w ≡ next r w
    unfolding authorize
    authorize-next scope next r w e g = simp (e, g.given, g.known, g.granted, authorize) refl

    -- An exchange that agrees with the direct p call when nothing is lost, and reports a fault as a
    -- failure.
    pub exchanged :
        (fault : Fault) (c : Call) (r : Request) (w : World p) (f : Result Response → Reply)
        → ((e : Error) → f (err e) ≡ failed p c)
        → (f (ok (handle p r w).0), (handle p r w).1) ≡ direct p c w
        → (f (exchange p token fault r w).0, (exchange p token fault r w).1)
          ≡ direct_under p fault c w
    unfolding exchange
    exchanged sound c r w f lost h = h
    exchanged (lost_request e) c r w f lost h = ap (λ x. (x, w)) (lost e)
    exchanged (lost_reply e) c r w f lost h =
        ap (λ x. (x, (handle p r w).1)) (lost e) ∙ ap (λ x. (failed p c, x.1)) h

    pub job_of-job_request :
        (job : Job) → job.attempts ≡ 0 → job.last_error ≡ "" → job_of (job_request job) ≡ job
    unfolding job_of job_request
    job_of-job_request job new unfailed =
        ap (λ n. record job { attempts = n; last_error = "" }) (sym new)
        ∙ ap (λ t. record job { last_error = t }) (sym unfailed)

    pub ref_in-read_request : (ref : MessageRef) → ref_in (read_request p token ref).query ≡ ref
    unfolding read_request lookup
    ref_in-read_request ref = refl

    pub told :
        (path : String) (refused : Option Error)
        → succeeded (error_of p token (reply_of p token "POST" path (ok (done_or_error p refused))))
          ≡ succeeded refused
    unfolding error_of reply_of done_or_error write_error write_json
    told path none = refl
    told path (some e) = refl

    module _ (keys : KeepsKeys p.codec) where
      pub key_of-rsa_key_to_pem : (key : ℕ) → key_of p.codec (rsa_key_to_pem p.codec key) ≡ some key
      unfolding key_of rsa_key_to_pem pem_to_rsa_key
      key_of-rsa_key_to_pem key =
          simp (not_empty, keys.block, keys.key, key_of, pem_to_rsa_key, rsa_key_to_pem) refl
        where
          clash : p.codec.pem_encode (p.codec.marshal_key key) ≡ "" → ⊥
          clash e =
              let found = keys.block (p.codec.marshal_key key) in
              let lost = ap p.codec.pem_decode e ∙ keys.no_block in cc

          not_empty : (p.codec.pem_encode (p.codec.marshal_key key) =ₛ "") ≡ false
          not_empty =
              ground (arith, eq_iff (p.codec.pem_encode (p.codec.marshal_key key)) "", clash)

      pub key_kept :
          (key : Option ℕ)
          → key_of p.codec (elim key [ none ↦ "" | some k ↦ rsa_key_to_pem p.codec k ]) ≡ key
      unfolding key_of
      key_kept none = refl
      key_kept (some key) = key_of-rsa_key_to_pem key

      pub vhost_of-vhost_dto :
          (v : Vhost) → vhost_of p.codec (vhost_dto p v) ≡ record v { account_id = "" }
      unfolding vhost_of vhost_dto
      vhost_of-vhost_dto v =
          ap (λ key. record v { account_id = ""; dkim_key = key }) (key_kept v.dkim_key)

      pub vhost_in-vhost_answer :
          (found : Option Vhost) → vhost_in p.codec (ok (vhost_answer p found)) ≡ shared found
      unfolding vhost_in vhost_answer
      vhost_in-vhost_answer none = refl
      vhost_in-vhost_answer (some v) = ap some (vhost_of-vhost_dto v)

      pub is_active-shared : (found : Option Vhost) → is_active (shared found) ≡ is_active found
      is_active-shared none = refl
      is_active-shared (some v) = refl

      pub ask_vhost-direct :
          (fault : Fault) (w : World p) (domain : String)
          (g : IsGranted p token scope_directory_vhost)
          → Carries p (ask_vhost domain) w
          → remote p token fault (ask_vhost domain) w ≡ direct_under p fault (ask_vhost domain) w
      unfolding Client.vhost vhost_in do_json reply_of post handle routes serve handle_vhost
          write_json decoded
      ask_vhost-direct fault w domain g (kept, kept') =
          exchanged fault _ _ w
            (λ resp. got_vhost (
              vhost_in p.codec (
                decoded p token vhost_response
                  (reply_of p token "POST" "/internal/v1/directory/vhost" resp))))
            (λ e. refl)
            (simp
              (
                authorize-next _ (handle_vhost p) (post p token _ _ _) w refl g,
                kept,
                kept',
                handle_vhost,
                decoded,
              )
              (ap (λ v. (got_vhost v, w)) (vhost_in-vhost_answer (p.dir.vhost domain))))

      pub ask_active-direct :
          (fault : Fault) (w : World p) (domain : String)
          (g : IsGranted p token scope_directory_vhost)
          → Carries p (ask_active domain) w
          → remote p token fault (ask_active domain) w ≡ direct_under p fault (ask_active domain) w
      unfolding Client.vhost_active Client.vhost vhost_in do_json reply_of post handle routes serve
          handle_vhost write_json decoded
      ask_active-direct fault w domain g (kept, kept') =
          exchanged fault _ _ w
            (λ resp.
              got_bool
                (elim (vhost_in p.codec (
                  decoded p token vhost_response
                    (reply_of p token "POST" "/internal/v1/directory/vhost" resp))) [
                      | none ↦ false
                      | some v ↦ v.active
                    ]))
            (λ e. refl)
            (simp
              (
                authorize-next _ (handle_vhost p) (post p token _ _ _) w refl g,
                kept,
                kept',
                handle_vhost,
                decoded,
              )
              (ap (λ b. (got_bool b, w))
                (ap is_active (vhost_in-vhost_answer (p.dir.vhost domain))
                  ∙ is_active-shared (p.dir.vhost domain))))
