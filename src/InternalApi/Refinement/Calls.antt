-- ===== src/InternalApi/Refinement/Calls.antt =====
-- Each call through its client against the call on the parts.
use envelope.Prelude.{ℕ, ℤ, ◌≡◌, refl, ap, false, inl, inr, String, List, [], ◌∷◌, map}
use envelope.Prelude.Dict.{lookup}
use envelope.Context.{ok, err, Result-cases}
use envelope.Storage.{MessageRef, MessageMeta}
use envelope.Queue.{Job}
use envelope.Webhook.{Payload}
use envelope.InternalApi.{
  authenticate_response, write_response, list_response, rate_limit_allow_response,
  scope_directory_authenticate, scope_store_write, scope_store_read, scope_store_list,
  scope_store_update_flags, scope_queue_enqueue, scope_rate_limit_allow, scope_webhook_enqueue,
}
use envelope.InternalApi.Server.{
  Parts, World, serve, handle, routes, handle_authenticate, handle_store_write, handle_store_read,
  handle_store_list, handle_store_update_flags, handle_queue_enqueue, handle_rate_limit_allow,
  handle_webhook_enqueue, write_response_of, meta_dto, flags_ref, write_json, write_error, copied,
}
use envelope.InternalApi.Client as Client
use envelope.InternalApi.Client.{
  Fault, sound, lost_request, lost_reply, exchange, post, job_request, flags_request, write_request,
  read_request, meta_of, vhost_of, vhost_in, key_of, reply_of, reply_to, decoded, error_of, do_json,
  tell,
}
use envelope.InternalApi.Refinement.{
  log_in, write_message, read_message, list_messages, set_flags, queue_job, take_token, fire_event,
  got_bool, got_ref, got_body, got_metas, got_allowed, outcome, succeeded, direct_under, Carries,
  IsGranted, remote,
}
use envelope.InternalApi.Refinement.Exchange.{
  authorize-next, exchanged, job_of-job_request, ref_in-read_request, told,
}

module _ (p : Parts) where
  module _ (token : String) where
    module _ (fault : Fault) (w : World p) where
      pub log_in-direct :
          (vhost local password : String) (g : IsGranted p token scope_directory_authenticate)
          → Carries p (log_in vhost local password) w
          → remote p token fault (log_in vhost local password) w
            ≡ direct_under p fault (log_in vhost local password) w
      unfolding Client.authenticate do_json reply_of post handle routes serve handle_authenticate
          write_json decoded
      log_in-direct vhost local password g (kept, kept') =
          exchanged p token fault _ _ w
            (λ resp.
              got_bool
                (elim (decoded p token authenticate_response
                  (reply_of p token "POST" "/internal/v1/directory/authenticate" resp)) [
                    | err e ↦ false
                    | ok b ↦ b
                  ]))
            (λ e. refl)
            (simp
              (
                authorize-next p token _ (handle_authenticate p) (post p token _ _ _) w refl g,
                kept,
                kept',
                handle_authenticate,
                decoded,
              )
              refl)

      pub write_message-direct :
          (vhost mailbox body : String) (g : IsGranted p token scope_store_write)
          → Carries p (write_message vhost mailbox body) w
          → remote p token fault (write_message vhost mailbox body) w
            ≡ direct_under p fault (write_message vhost mailbox body) w
      unfolding Client.write write_request reply_to handle routes serve handle_store_write
          write_json write_error decoded lookup Client.ref_of write_response_of
      write_message-direct vhost mailbox body g (some_vhost, some_mailbox, kept) =
          exchanged p token fault _ (write_request p token vhost mailbox body) w
            (λ resp. got_ref (
              outcome
                (elim (decoded p token write_response
                  (reply_to p token "POST" "/internal/v1/store/write" resp)) [
                    | err e ↦ err e
                    | ok wr ↦ ok (Client.ref_of wr)
                  ])))
            (λ e. refl)
            (elim (Result-cases (p.store.write p.ctx vhost mailbox body w.stored).0) [
              | inl (ref, e) ↦
                  simp
                    (
                      authorize-next p token _ (handle_store_write p) (write_request p token _ _ _)
                          w refl g,
                      some_vhost,
                      some_mailbox,
                      e,
                      kept ref e,
                      handle_store_write,
                      decoded,
                    )
                    refl
              | inr (x, e) ↦
                  simp
                    (
                      authorize-next p token _ (handle_store_write p) (write_request p token _ _ _)
                          w refl g,
                      some_vhost,
                      some_mailbox,
                      e,
                      handle_store_write,
                      decoded,
                    )
                    refl
            ])

      pub set_flags-direct :
          (ref : MessageRef) (flags : List String) (g : IsGranted p token scope_store_update_flags)
          → Carries p (set_flags ref flags) w
          → remote p token fault (set_flags ref flags) w
            ≡ direct_under p fault (set_flags ref flags) w
      unfolding Client.update_flags tell error_of reply_of post handle routes serve
          handle_store_update_flags flags_ref flags_request
      set_flags-direct ref flags g kept =
          exchanged p token fault _ _ w
            (λ resp. got_bool (
              succeeded
                (error_of p token (reply_of p token "POST" "/internal/v1/store/updateflags" resp))))
            (λ e. refl)
            (simp
              (
                authorize-next p token _ (handle_store_update_flags p) (post p token _ _ _) w refl
                    g,
                kept,
                handle_store_update_flags,
              )
              (ap
                (λ b. (
                  got_bool b,
                  record w { stored = (p.store.update_flags p.ctx ref flags w.stored).1 },
                ))
                (told p token _ _)))

      pub queue_job-direct :
          (job : Job) (g : IsGranted p token scope_queue_enqueue)
          → Carries p (queue_job job) w
          → remote p token fault (queue_job job) w ≡ direct_under p fault (queue_job job) w
      unfolding Client.enqueue tell post handle routes serve handle_queue_enqueue error_of reply_of
      queue_job-direct job g (kept, new, unfailed) =
          exchanged p token fault _ _ w
            (λ resp. got_bool (
              succeeded
                (error_of p token (reply_of p token "POST" "/internal/v1/queue/enqueue" resp))))
            (λ e. refl)
            (simp
              (
                authorize-next p token _ (handle_queue_enqueue p) (post p token _ _ _) w refl g,
                kept,
                handle_queue_enqueue,
                job_of-job_request p token job new unfailed,
              )
              (ap (λ b. (got_bool b, record w { queued = (p.enqueue p.ctx job w.queued).1 }))
                (told p token _ _)))

      pub fire_event-direct :
          (vhost event_type : String) (payload : Payload)
          (g : IsGranted p token scope_webhook_enqueue)
          → Carries p (fire_event vhost event_type payload) w
          → remote p token fault (fire_event vhost event_type payload) w
            ≡ direct_under p fault (fire_event vhost event_type payload) w
      unfolding Client.fire tell post handle routes serve handle_webhook_enqueue error_of reply_of
      fire_event-direct vhost event_type payload g kept =
          exchanged p token fault _ _ w
            (λ resp. got_bool (
              succeeded
                (error_of p token (reply_of p token "POST" "/internal/v1/webhook/enqueue" resp))))
            (λ e. refl)
            (simp
              (
                authorize-next p token _ (handle_webhook_enqueue p) (post p token _ _ _) w refl g,
                kept,
                handle_webhook_enqueue,
              )
              (ap
                (λ b. (
                  got_bool b,
                  record w { hooked = (p.fire p.ctx vhost event_type payload w.hooked).1 },
                ))
                (told p token _ _)))

      pub take_token-direct :
          (key : String) (capacity : ℤ) (refill : ℤ × ℕ)
          (g : IsGranted p token scope_rate_limit_allow)
          → Carries p (take_token key capacity refill) w
          → remote p token fault (take_token key capacity refill) w
            ≡ direct_under p fault (take_token key capacity refill) w
      unfolding Client.allow do_json reply_of post handle routes serve handle_rate_limit_allow
          write_json write_error decoded
      take_token-direct key capacity refill g (kept, kept') =
          exchanged p token fault _ _ w
            (λ resp. got_allowed (
              outcome (
                decoded p token rate_limit_allow_response
                  (reply_of p token "POST" "/internal/v1/ratelimit/allow" resp))))
            (λ e. refl)
            (elim (Result-cases (p.limiter.allow p.ctx key capacity refill w.buckets).0) [
              | inl (a, e) ↦
                  simp
                    (
                      authorize-next p token _ (handle_rate_limit_allow p) (post p token _ _ _) w
                          refl g,
                      kept,
                      e,
                      kept' a e,
                      handle_rate_limit_allow,
                      decoded,
                    )
                    refl
              | inr (x, e) ↦
                  simp
                    (
                      authorize-next p token _ (handle_rate_limit_allow p) (post p token _ _ _) w
                          refl g,
                      kept,
                      e,
                      handle_rate_limit_allow,
                      decoded,
                    )
                    refl
            ])

      meta_of-meta_dto : (metas : List MessageMeta) → map meta_of (map meta_dto metas) ≡ metas
      unfolding meta_of meta_dto
      meta_of-meta_dto [] = refl
      meta_of-meta_dto (m ∷ metas) = ap (◌∷◌ m) (meta_of-meta_dto metas)

      pub list_messages-direct :
          (vhost mailbox : String) (g : IsGranted p token scope_store_list)
          → Carries p (list_messages vhost mailbox) w
          → remote p token fault (list_messages vhost mailbox) w
            ≡ direct_under p fault (list_messages vhost mailbox) w
      unfolding Client.list_mailbox do_json reply_of post handle routes serve handle_store_list
          write_json write_error decoded
      list_messages-direct vhost mailbox g (kept, kept') =
          exchanged p token fault _ _ w
            (λ resp. got_metas (
              outcome
                (elim (decoded p token list_response
                  (reply_of p token "POST" "/internal/v1/store/list" resp)) [
                    | err e ↦ err e
                    | ok metas ↦ ok (map meta_of metas)
                  ])))
            (λ e. refl)
            (elim (Result-cases (p.store.list_mailbox p.ctx vhost mailbox w.stored)) [
              | inl (a, e) ↦
                  simp
                    (
                      authorize-next p token _ (handle_store_list p) (post p token _ _ _) w refl g,
                      kept,
                      e,
                      kept' a e,
                      handle_store_list,
                      decoded,
                      meta_of-meta_dto a,
                    )
                    refl
              | inr (x, e) ↦
                  simp
                    (
                      authorize-next p token _ (handle_store_list p) (post p token _ _ _) w refl g,
                      kept,
                      e,
                      handle_store_list,
                      decoded,
                    )
                    refl
            ])

      pub read_message-direct :
          (ref : MessageRef) (g : IsGranted p token scope_store_read)
          → Carries p (read_message ref) w
          → remote p token fault (read_message ref) w ≡ direct_under p fault (read_message ref) w
      unfolding Client.read read_request reply_to handle routes serve handle_store_read copied
          write_json write_error decoded lookup
      read_message-direct ref g (some_vhost, some_mailbox, some_key, unfailed) =
          exchanged p token fault _ (read_request p token ref) w
            (λ resp. got_body (
              outcome (elim (reply_to p token "GET" "/internal/v1/store/read" resp) [
                | err e ↦ err e
                | ok resp ↦ ok (ok resp.content)
              ])))
            (λ e. refl)
            (elim (Result-cases (p.store.read p.ctx ref w.stored)) [
              | inl (ok body, e) ↦
                  simp
                    (
                      authorize-next p token _ (handle_store_read p) (read_request p token _) w refl
                          g,
                      ref_in-read_request p token ref,
                      some_vhost,
                      some_mailbox,
                      some_key,
                      e,
                      handle_store_read,
                      copied,
                    )
                    refl
              | inl (err x, e) ↦ absurd (unfailed x e)
              | inr (x, e) ↦
                  simp
                    (
                      authorize-next p token _ (handle_store_read p) (read_request p token _) w refl
                          g,
                      ref_in-read_request p token ref,
                      some_vhost,
                      some_mailbox,
                      some_key,
                      e,
                      handle_store_read,
                    )
                    refl
            ])
