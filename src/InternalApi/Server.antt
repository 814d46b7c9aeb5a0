-- ===== src/InternalApi/Server.antt =====
-- internal/internalapi/server.go: the server, its guard and its nine handlers.
use envelope.Prelude.{
  ℕ, Bool, true, false, ◌&&◌, ◌||◌, Option, none, some, String, ◌<>◌, ◌=ₛ◌, List, [], ◌∷◌, map,
  if◌then◌else◌,
}
use envelope.Prelude.Dict.{Dict, lookup}
use envelope.Context.{Context, Error, plain, message, Result, ok, err}
use envelope.Storage.{MessageRef, MessageMeta, Store}
use envelope.Directory.{Vhost, Directory}
use envelope.Queue.{Job}
use envelope.Webhook.{Payload}
use envelope.Smtp.Limits.{Limiter}
use envelope.InternalApi.{
  VhostDto, VhostResponse, WriteResponse, MessageMetaDto, UpdateFlagsRequest, EnqueueJobRequest,
  Shape, error_response, vhost_request, vhost_response, authenticate_request, authenticate_response,
  write_response, list_request, list_response, update_flags_request, enqueue_job_request,
  rate_limit_allow_request, rate_limit_allow_response, webhook_enqueue_request, Dto, Codec,
  rsa_key_to_pem, scope_directory_vhost, scope_directory_authenticate, scope_store_write,
  scope_store_read, scope_store_list, scope_store_update_flags, scope_queue_enqueue,
  scope_rate_limit_allow, scope_webhook_enqueue, role_smtp_inbound, role_smtp_submission, role_imap,
}

-- The query is the list of parameters that URL.Query reads.
pub record Request : Type 0 where
  pub method : String
  pub path : String
  pub query : Dict String
  pub token : String
  pub body : String

pub record Response : Type 0 where
  pub status : ℕ
  pub content : String

-- What the server runs on: `read_before` is what a stored body's reader gives before it fails,
-- `no_route` what http.ServeMux answers to a request that no pattern matches, and `ctx` the context
-- of the requests.
pub record Parts : Type 1 where
  pub codec : Codec
  pub dir : Directory
  pub store : Store
  pub read_before : MessageRef → store.State → String
  pub limiter : Limiter
  pub Queued : Type 0
  pub enqueue : Context → Job → Queued → Option Error × Queued
  pub Hooked : Type 0
  pub fire : Context → String → String → Payload → Hooked → Option Error × Hooked
  pub no_route : Request → Response
  pub ctx : Context
  pub tokens : Dict String

pub record World (p : Parts) : Type 0 where
  pub stored : p.store.State
  pub buckets : p.limiter.State
  pub queued : p.Queued
  pub hooked : p.Hooked

abbrev pub has : String → List String → Bool
has scope [] = false
has scope (s ∷ scopes) = (s =ₛ scope) || has scope scopes

unfoldable pub role_scopes : String → List String
role_scopes role =
    if role =ₛ role_smtp_inbound
    then (scope_directory_vhost ∷ scope_store_write ∷ scope_rate_limit_allow ∷ scope_webhook_enqueue
        ∷ [])
    else if role =ₛ role_smtp_submission
    then (scope_directory_vhost ∷ scope_directory_authenticate ∷ scope_store_write
        ∷ scope_queue_enqueue ∷ scope_rate_limit_allow ∷ [])
    else if role =ₛ role_imap
    then (scope_directory_authenticate ∷ scope_store_read ∷ scope_store_list
        ∷ scope_store_update_flags ∷ [])
    else []

-- roleScopes[role][scope]
unfoldable pub has_scope : String → String → Bool
has_scope role scope = has scope (role_scopes role)

-- The loop of authorize over the tokens: "" where none is the request's.
unfoldable pub role_of : Dict String → String → String
role_of tokens token = elim (lookup token tokens) [ none ↦ "" | some role ↦ role ]

-- url.Values.Get
abbrev pub get : String → Dict String → String
get name query = elim (lookup name query) [ none ↦ "" | some value ↦ value ]

-- The message that the query of a read names.
abbrev pub ref_in : Dict String → MessageRef
ref_in query = record {
  vhost = get "vhost" query;
  mailbox = get "mailbox" query;
  key = get "key" query;
}

unfoldable pub job_of : EnqueueJobRequest → Job
job_of req = record {
  id = req.id;
  vhost = req.vhost;
  from = req.from;
  to = req.to;
  body_ref = req.body_ref;
  attempts = 0;
  next_attempt_at = req.next_attempt_at;
  last_error = "";
  correlation_id = req.correlation_id;
}

unfoldable pub meta_dto : MessageMeta → MessageMetaDto
meta_dto m = record {
  vhost = m.ref.vhost;
  mailbox = m.ref.mailbox;
  key = m.ref.key;
  size = m.size;
  flags = m.flags;
  created_at = m.created_at;
}

unfoldable pub flags_ref : UpdateFlagsRequest → MessageRef
flags_ref req = record { vhost = req.vhost; mailbox = req.mailbox; key = req.key }

unfoldable pub write_response_of : MessageRef → WriteResponse
write_response_of ref = record { vhost = ref.vhost; mailbox = ref.mailbox; key = ref.key }

module _ (p : Parts) where
  unfoldable pub write_json : ℕ → (s : Shape) → Dto s → Response
  write_json code s v = record { status = code; content = p.codec.encode s v }

  unfoldable pub write_error : ℕ → Error → Response
  write_error code e = write_json code error_response (message p.codec.smtp_text e)

  -- w.WriteHeader(http.StatusOK)
  abbrev pub accepted : Response
  accepted = record { status = 200; content = "" }

  unfoldable pub vhost_dto : Vhost → VhostDto
  unfolding rsa_key_to_pem
  vhost_dto v = record {
    id = v.id;
    domain = v.domain;
    active = v.active;
    dkim_selector = v.dkim_selector;
    dkim_key_pem = elim v.dkim_key [ none ↦ "" | some key ↦ rsa_key_to_pem p.codec key ];
    max_message_bytes = v.max_message_bytes;
    daily_quota = v.daily_quota;
    spam_reject_threshold = v.spam_reject_threshold;
    spam_quarantine_threshold = v.spam_quarantine_threshold;
    retention_days = v.retention_days;
  }

  unfoldable pub vhost_answer : Option Vhost → VhostResponse
  vhost_answer none = record { found = false; vhost = none }
  vhost_answer (some v) = record { found = true; vhost = some (vhost_dto v) }

  unfoldable pub handle_vhost : Request → World p → Response × World p
  unfolding write_json write_error
  handle_vhost r w = elim (p.codec.decode vhost_request r.body) [
    | err e ↦ (write_error 400 e, w)
    | ok domain ↦ (write_json 200 vhost_response (vhost_answer (p.dir.vhost domain)), w)
  ]

  unfoldable pub handle_authenticate : Request → World p → Response × World p
  unfolding write_json write_error
  handle_authenticate r w = elim (p.codec.decode authenticate_request r.body) [
    | err e ↦ (write_error 400 e, w)
    | ok req ↦ (
      write_json 200 authenticate_response
          (p.dir.authenticate req.vhost req.local_part req.password),
      w,
    )
  ]

  unfoldable pub handle_store_write : Request → World p → Response × World p
  unfolding write_json write_error
  handle_store_write r w =
      let vhost = get "vhost" r.query in
      let mailbox = get "mailbox" r.query in
      if (vhost =ₛ "") || (mailbox =ₛ "")
      then (write_error 400 (plain "internalapi: vhost and mailbox query params are required"), w)
      else (let (result, stored) = p.store.write p.ctx vhost mailbox r.body w.stored in
          let after = record w { stored = stored } in
          elim result [
            | err e ↦ (write_error 500 e, after)
            | ok ref ↦ (write_json 200 write_response (write_response_of ref), after)
          ])

  -- The result of io.Copy is dropped, so that a reader which fails ends the body without an error.
  unfoldable pub copied : MessageRef → Result String → p.store.State → String
  copied ref (ok body) s = body
  copied ref (err e) s = p.read_before ref s

  unfoldable pub handle_store_read : Request → World p → Response × World p
  unfolding write_json write_error
  handle_store_read r w =
      let ref = ref_in r.query in
      if (ref.vhost =ₛ "") || ((ref.mailbox =ₛ "") || (ref.key =ₛ ""))
      then (
        write_error 400 (plain "internalapi: vhost, mailbox, and key query params are required"),
        w,
      )
      else elim (p.store.read p.ctx ref w.stored) [
        | err e ↦ (write_error 404 e, w)
        | ok rc ↦ (record { status = 200; content = copied ref rc w.stored }, w)
      ]

  unfoldable pub handle_store_list : Request → World p → Response × World p
  unfolding write_json write_error
  handle_store_list r w = elim (p.codec.decode list_request r.body) [
    | err e ↦ (write_error 400 e, w)
    | ok req ↦ elim (p.store.list_mailbox p.ctx req.vhost req.mailbox w.stored) [
      | err e ↦ (write_error 500 e, w)
      | ok metas ↦ (write_json 200 list_response (map meta_dto metas), w)
    ]
  ]

  -- The answer to a call that returns only an error.
  unfoldable pub done_or_error : Option Error → Response
  unfolding write_json write_error
  done_or_error none = accepted
  done_or_error (some e) = write_error 500 e

  unfoldable pub handle_store_update_flags : Request → World p → Response × World p
  unfolding write_json write_error
  handle_store_update_flags r w = elim (p.codec.decode update_flags_request r.body) [
    | err e ↦ (write_error 400 e, w)
    | ok req ↦
        let (refused, stored) = p.store.update_flags p.ctx (flags_ref req) req.flags w.stored in
        (done_or_error refused, record w { stored = stored })
  ]

  unfoldable pub handle_queue_enqueue : Request → World p → Response × World p
  unfolding write_json write_error
  handle_queue_enqueue r w = elim (p.codec.decode enqueue_job_request r.body) [
    | err e ↦ (write_error 400 e, w)
    | ok req ↦
        let (refused, queued) = p.enqueue p.ctx (job_of req) w.queued in
        (done_or_error refused, record w { queued = queued })
  ]

  unfoldable pub handle_rate_limit_allow : Request → World p → Response × World p
  unfolding write_json write_error
  handle_rate_limit_allow r w = elim (p.codec.decode rate_limit_allow_request r.body) [
    | err e ↦ (write_error 400 e, w)
    | ok req ↦
        let (result, buckets) = p.limiter.allow p.ctx req.key req.capacity req.refill w.buckets in
        let after = record w { buckets = buckets } in
        elim result [
          | err e ↦ (write_error 500 e, after)
          | ok allowed ↦ (write_json 200 rate_limit_allow_response allowed, after)
        ]
  ]

  unfoldable pub handle_webhook_enqueue : Request → World p → Response × World p
  unfolding write_json write_error
  handle_webhook_enqueue r w = elim (p.codec.decode webhook_enqueue_request r.body) [
    | err e ↦ (write_error 400 e, w)
    | ok req ↦
        let (refused, hooked) = p.fire p.ctx req.vhost req.event_type req.payload w.hooked in
        (done_or_error refused, record w { hooked = hooked })
  ]

  unfoldable pub authorize :
      String → (Request → World p → Response × World p) → Request → World p → Response × World p
  unfolding write_json write_error
  authorize scope next r w =
      if r.token =ₛ ""
      then (write_error 401 (plain "internalapi: missing X-Envelope-Internal-Token"), w)
      else (let role = role_of p.tokens r.token in
          let answer = next r w in
          if role =ₛ ""
          then (write_error 401 (plain "internalapi: token not recognized"), w)
          else if has_scope role scope
          then answer
          else (
            write_error 403
                (plain ("internalapi: role " <> (role <> (" is not granted " <> scope)))),
            w,
          ))

  -- A pattern of http.ServeMux: GET takes HEAD too.
  abbrev pub matches : String → String → Request → Bool
  matches method path r =
      ((r.method =ₛ method) || ((method =ₛ "GET") && (r.method =ₛ "HEAD"))) && (r.path =ₛ path)

  -- Handler: the request at the first pattern that matches. No two patterns overlap.
  pub record Route : Type 0 where
    pub method : String
    pub path : String
    pub scope : String
    pub next : Request → World p → Response × World p

  unfoldable pub routes : List Route
  routes =
      record {
        method = "POST";
        path = "/internal/v1/directory/vhost";
        scope = scope_directory_vhost;
        next = handle_vhost;
      }
      ∷ record {
        method = "POST";
        path = "/internal/v1/directory/authenticate";
        scope = scope_directory_authenticate;
        next = handle_authenticate;
      }
      ∷ record {
        method = "POST";
        path = "/internal/v1/store/write";
        scope = scope_store_write;
        next = handle_store_write;
      }
      ∷ record {
        method = "GET";
        path = "/internal/v1/store/read";
        scope = scope_store_read;
        next = handle_store_read;
      }
      ∷ record {
        method = "POST";
        path = "/internal/v1/store/list";
        scope = scope_store_list;
        next = handle_store_list;
      }
      ∷ record {
        method = "POST";
        path = "/internal/v1/store/updateflags";
        scope = scope_store_update_flags;
        next = handle_store_update_flags;
      }
      ∷ record {
        method = "POST";
        path = "/internal/v1/queue/enqueue";
        scope = scope_queue_enqueue;
        next = handle_queue_enqueue;
      }
      ∷ record {
        method = "POST";
        path = "/internal/v1/ratelimit/allow";
        scope = scope_rate_limit_allow;
        next = handle_rate_limit_allow;
      }
      ∷ record {
        method = "POST";
        path = "/internal/v1/webhook/enqueue";
        scope = scope_webhook_enqueue;
        next = handle_webhook_enqueue;
      }
      ∷ []

  unfoldable pub serve : List Route → Request → World p → Response × World p
  serve [] r w = (p.no_route r, w)
  serve (route ∷ rest) r w =
      let answer = authorize route.scope route.next r w in
      let later = serve rest r w in if matches route.method route.path r then answer else later

  unfoldable pub handle : Request → World p → Response × World p
  handle r w = serve routes r w
