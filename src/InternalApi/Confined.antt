-- ===== src/InternalApi/Confined.antt =====
-- What a role's token can change on the server.
use envelope.Prelude.{
  ◌≡◌, ◌≢◌, ◌⊎◌, inl, inr, refl, ap, subst, true, Bool-cases, ◌||◌, String, ◌=ₛ◌, eq_iff, arith,
  List, [], ◌∷◌, All,
}
use envelope.Context.{Result-cases}
use envelope.InternalApi.{
  role_smtp_inbound, role_smtp_submission, role_imap, scope_store_write, scope_store_update_flags,
  scope_directory_vhost, scope_directory_authenticate, scope_store_read, scope_store_list,
  scope_queue_enqueue, scope_rate_limit_allow, scope_webhook_enqueue, vhost_request,
  authenticate_request, list_request, update_flags_request, enqueue_job_request,
  rate_limit_allow_request, webhook_enqueue_request,
}
use envelope.InternalApi.Server.{
  ref_in, Request, Parts, World, Route, get, has_scope, role_scopes, role_of, authorize, matches,
  serve, handle, routes, handle_vhost, handle_authenticate, handle_store_write, handle_store_read,
  handle_store_list, handle_store_update_flags, handle_queue_enqueue, handle_rate_limit_allow,
  handle_webhook_enqueue,
}

module _ (p : Parts) where
  -- What an operation of this scope may change.
  record Footprint (scope : String) (w w' : World p) : Type 0 where
    stored : scope ≢ scope_store_write → scope ≢ scope_store_update_flags → w'.stored ≡ w.stored
    buckets : scope ≢ scope_rate_limit_allow → w'.buckets ≡ w.buckets
    queued : scope ≢ scope_queue_enqueue → w'.queued ≡ w.queued
    hooked : scope ≢ scope_webhook_enqueue → w'.hooked ≡ w.hooked

  untouched : (scope : String) (w : World p) → Footprint scope w w
  untouched scope w = record {
    stored = λ a b. refl;
    buckets = λ a. refl;
    queued = λ a. refl;
    hooked = λ a. refl;
  }

  written :
      (w : World p) (s : p.store.State) → Footprint scope_store_write w (record w { stored = s })
  written w s = record {
    stored = λ a b. absurd (a refl);
    buckets = λ a. refl;
    queued = λ a. refl;
    hooked = λ a. refl;
  }

  flagged :
      (w : World p) (s : p.store.State)
      → Footprint scope_store_update_flags w (record w { stored = s })
  flagged w s = record {
    stored = λ a b. absurd (b refl);
    buckets = λ a. refl;
    queued = λ a. refl;
    hooked = λ a. refl;
  }

  counted :
      (w : World p) (s : p.limiter.State)
      → Footprint scope_rate_limit_allow w (record w { buckets = s })
  counted w s = record {
    stored = λ a b. refl;
    buckets = λ a. absurd (a refl);
    queued = λ a. refl;
    hooked = λ a. refl;
  }

  enqueued :
      (w : World p) (s : p.Queued) → Footprint scope_queue_enqueue w (record w { queued = s })
  enqueued w s = record {
    stored = λ a b. refl;
    buckets = λ a. refl;
    queued = λ a. absurd (a refl);
    hooked = λ a. refl;
  }

  hooked_up :
      (w : World p) (s : p.Hooked) → Footprint scope_webhook_enqueue w (record w { hooked = s })
  hooked_up w s = record {
    stored = λ a b. refl;
    buckets = λ a. refl;
    queued = λ a. refl;
    hooked = λ a. absurd (a refl);
  }

  handle_vhost-Stays :
      (r : Request) (w : World p) → Footprint scope_directory_vhost w (handle_vhost p r w).1
  unfolding handle_vhost
  handle_vhost-Stays r w = elim (Result-cases (p.codec.decode vhost_request r.body)) [
    | inr (x, e) ↦ rw (e, handle_vhost) (untouched _ w)
    | inl (req, e) ↦ rw (e, handle_vhost) (untouched _ w)
  ]

  handle_authenticate-Stays :
      (r : Request) (w : World p)
      → Footprint scope_directory_authenticate w (handle_authenticate p r w).1
  unfolding handle_authenticate
  handle_authenticate-Stays r w = elim (Result-cases (p.codec.decode authenticate_request r.body)) [
    | inr (x, e) ↦ rw (e, handle_authenticate) (untouched _ w)
    | inl (req, e) ↦ rw (e, handle_authenticate) (untouched _ w)
  ]

  handle_store_list-Stays :
      (r : Request) (w : World p) → Footprint scope_store_list w (handle_store_list p r w).1
  unfolding handle_store_list
  handle_store_list-Stays r w = elim (Result-cases (p.codec.decode list_request r.body)) [
    | inr (x, e) ↦ rw (e, handle_store_list) (untouched _ w)
    | inl (req, e) ↦
        elim (Result-cases (p.store.list_mailbox p.ctx req.vhost req.mailbox w.stored)) [
          | inr (x, f) ↦ rw (e, f, handle_store_list) (untouched _ w)
          | inl (metas, f) ↦ rw (e, f, handle_store_list) (untouched _ w)
        ]
  ]

  handle_store_update_flags-Stays :
      (r : Request) (w : World p)
      → Footprint scope_store_update_flags w (handle_store_update_flags p r w).1
  unfolding handle_store_update_flags
  handle_store_update_flags-Stays r w =
      elim (Result-cases (p.codec.decode update_flags_request r.body)) [
        | inr (x, e) ↦ rw (e, handle_store_update_flags) (untouched _ w)
        | inl (req, e) ↦ rw (e, handle_store_update_flags) (flagged w _)
      ]

  handle_queue_enqueue-Stays :
      (r : Request) (w : World p) → Footprint scope_queue_enqueue w (handle_queue_enqueue p r w).1
  unfolding handle_queue_enqueue
  handle_queue_enqueue-Stays r w = elim (Result-cases (p.codec.decode enqueue_job_request r.body)) [
    | inr (x, e) ↦ rw (e, handle_queue_enqueue) (untouched _ w)
    | inl (req, e) ↦ rw (e, handle_queue_enqueue) (enqueued w _)
  ]

  handle_webhook_enqueue-Stays :
      (r : Request) (w : World p)
      → Footprint scope_webhook_enqueue w (handle_webhook_enqueue p r w).1
  unfolding handle_webhook_enqueue
  handle_webhook_enqueue-Stays r w =
      elim (Result-cases (p.codec.decode webhook_enqueue_request r.body)) [
        | inr (x, e) ↦ rw (e, handle_webhook_enqueue) (untouched _ w)
        | inl (req, e) ↦ rw (e, handle_webhook_enqueue) (hooked_up w _)
      ]

  handle_rate_limit_allow-Stays :
      (r : Request) (w : World p)
      → Footprint scope_rate_limit_allow w (handle_rate_limit_allow p r w).1
  unfolding handle_rate_limit_allow
  handle_rate_limit_allow-Stays r w =
      elim (Result-cases (p.codec.decode rate_limit_allow_request r.body)) [
        | inr (x, e) ↦ rw (e, handle_rate_limit_allow) (untouched _ w)
        | inl (req, e) ↦
            elim (Result-cases
              (p.limiter.allow p.ctx req.key req.capacity req.refill w.buckets).0) [
                | inr (x, f) ↦ rw (e, f, handle_rate_limit_allow) (counted w _)
                | inl (x, f) ↦ rw (e, f, handle_rate_limit_allow) (counted w _)
              ]
      ]

  handle_store_write-Stays :
      (r : Request) (w : World p) → Footprint scope_store_write w (handle_store_write p r w).1
  unfolding handle_store_write
  handle_store_write-Stays r w =
      elim (Bool-cases ((get "vhost" r.query =ₛ "") || (get "mailbox" r.query =ₛ ""))) [
        | inl e ↦ rw (e, handle_store_write) (untouched _ w)
        | inr e ↦
            elim (Result-cases
              (p.store.write p.ctx (get "vhost" r.query) (get "mailbox" r.query) r.body
                w.stored).0) [
                  | inl (ref, f) ↦ rw (e, f, handle_store_write) (written w _)
                  | inr (x, f) ↦ rw (e, f, handle_store_write) (written w _)
                ]
      ]

  handle_store_read-Stays :
      (r : Request) (w : World p) → Footprint scope_store_read w (handle_store_read p r w).1
  unfolding handle_store_read
  handle_store_read-Stays r w =
      elim (Bool-cases (
        (get "vhost" r.query =ₛ "")
        || ((get "mailbox" r.query =ₛ "") || (get "key" r.query =ₛ "")))) [
          | inl e ↦ rw (e, handle_store_read) (untouched _ w)
          | inr e ↦ elim (Result-cases (p.store.read p.ctx (ref_in r.query) w.stored)) [
            | inl (rc, f) ↦ rw (e, f, handle_store_read) (untouched _ w)
            | inr (x, f) ↦ rw (e, f, handle_store_read) (untouched _ w)
          ]
        ]

  -- A handler stays in the footprint of its scope.
  Stays : Route p → Type 0
  Stays route = (r : Request) (w : World p) → Footprint route.scope w (route.next r w).1

  routes-Stays : All Stays (routes p)
  unfolding routes Stays
  routes-Stays = (
    handle_vhost-Stays,
    (
      handle_authenticate-Stays,
      (
        handle_store_write-Stays,
        (
          handle_store_read-Stays,
          (
            handle_store_list-Stays,
            (
              handle_store_update_flags-Stays,
              (
                handle_queue_enqueue-Stays,
                (handle_rate_limit_allow-Stays, (handle_webhook_enqueue-Stays, tt)),
              ),
            ),
          ),
        ),
      ),
    ),
  )

  -- A request changes nothing, or it stays in the footprint of a scope that its token's role has.
  Guarded : Request → World p → World p → Type 0
  Guarded r w w' =
      (w' ≡ w)
      ⊎ ((scope : String) × (has_scope (role_of p.tokens r.token) scope ≡ true)
          × Footprint scope w w')

  authorize-Guarded :
      (route : Route p)
      → Stays route
      → (r : Request) (w : World p) → Guarded r w (authorize p route.scope route.next r w).1
  unfolding authorize Guarded Stays
  authorize-Guarded route stays r w = elim (Bool-cases (r.token =ₛ "")) [
    | inl e ↦ rw (e, authorize) (inl refl)
    | inr e ↦ elim (Bool-cases (role_of p.tokens r.token =ₛ "")) [
      | inl f ↦ rw (e, f, authorize) (inl refl)
      | inr f ↦ elim (Bool-cases (has_scope (role_of p.tokens r.token) route.scope)) [
        | inl g ↦ rw (e, f, g, authorize) (inr (route.scope, g, stays r w))
        | inr g ↦ rw (e, f, g, authorize) (inl refl)
      ]
    ]
  ]

  serve-Guarded :
      (rest : List (Route p))
      → All Stays rest
      → (r : Request) (w : World p) → Guarded r w (serve p rest r w).1
  unfolding serve Guarded
  serve-Guarded [] stay r w = inl refl
  serve-Guarded (route ∷ rest) (stays, stay) r w =
      elim (Bool-cases (matches p route.method route.path r)) [
        | inl e ↦ rw (e, serve) (authorize-Guarded route stays r w)
        | inr e ↦ rw (e, serve) (serve-Guarded rest stay r w)
      ]

  -- Which roles can change which part.
  pub record Confined (role : String) (w w' : World p) : Type 0 where
    pub stored :
        role ≢ role_smtp_inbound
        → role ≢ role_smtp_submission
        → role ≢ role_imap
        → w'.stored ≡ w.stored
    pub buckets : role ≢ role_smtp_inbound → role ≢ role_smtp_submission → w'.buckets ≡ w.buckets
    pub queued : role ≢ role_smtp_submission → w'.queued ≡ w.queued
    pub hooked : role ≢ role_smtp_inbound → w'.hooked ≡ w.hooked

  only_submission_enqueues :
      (role : String) → has_scope role scope_queue_enqueue ≡ true → role ≡ role_smtp_submission
  unfolding has_scope role_scopes
  only_submission_enqueues role h = ground (
    arith,
    h,
    eq_iff role role_smtp_inbound,
    eq_iff role role_smtp_submission,
    eq_iff role role_imap,
  )

  only_inbound_fires :
      (role : String) → has_scope role scope_webhook_enqueue ≡ true → role ≡ role_smtp_inbound
  unfolding has_scope role_scopes
  only_inbound_fires role h = ground (
    arith,
    h,
    eq_iff role role_smtp_inbound,
    eq_iff role role_smtp_submission,
    eq_iff role role_imap,
  )

  only_smtp_counts :
      (role : String)
      → has_scope role scope_rate_limit_allow ≡ true
      → role ≢ role_smtp_inbound
      → role ≡ role_smtp_submission
  unfolding has_scope role_scopes
  only_smtp_counts role h n = ground (
    arith,
    h,
    n,
    eq_iff role role_smtp_inbound,
    eq_iff role role_smtp_submission,
    eq_iff role role_imap,
  )

  only_three_roles :
      (role scope : String)
      → has_scope role scope ≡ true
      → role ≢ role_smtp_inbound
      → role ≢ role_smtp_submission
      → role ≡ role_imap
  unfolding has_scope role_scopes
  only_three_roles role scope h n m = ground (
    arith,
    h,
    n,
    m,
    eq_iff role role_smtp_inbound,
    eq_iff role role_smtp_submission,
    eq_iff role role_imap,
  )

  Guarded-Confined :
      (r : Request) (w w' : World p) → Guarded r w w' → Confined (role_of p.tokens r.token) w w'
  unfolding Guarded
  Guarded-Confined r w w' (inl e) = record {
    stored = λ a b c. ap (λ x. x.stored) e;
    buckets = λ a b. ap (λ x. x.buckets) e;
    queued = λ a. ap (λ x. x.queued) e;
    hooked = λ a. ap (λ x. x.hooked) e;
  }
  Guarded-Confined r w w' (inr (scope, h, f)) =
      let role = role_of p.tokens r.token in
      record {
        stored = λ a b c. absurd (c (only_three_roles role scope h a b));
        buckets = λ a b.
            f.buckets (λ e. b (only_smtp_counts role (subst (λ s. has_scope role s ≡ true) e h) a));
        queued = λ a.
            f.queued
              (λ e. a (only_submission_enqueues role (subst (λ s. has_scope role s ≡ true) e h)));
        hooked = λ a.
            f.hooked (λ e. a (only_inbound_fires role (subst (λ s. has_scope role s ≡ true) e h)));
      }

  -- Whatever a request says, only a token of the submission role can change the queue, only one of
  -- the inbound role can fire a webhook, only those two can draw on the rate limits, and no token that
  -- is not of one of the three roles can change a stored message.
  pub handle-Confined :
      (r : Request) (w : World p) → Confined (role_of p.tokens r.token) w (handle p r w).1
  unfolding handle Guarded
  handle-Confined r w = Guarded-Confined r w _ (serve-Guarded (routes p) routes-Stays r w)
