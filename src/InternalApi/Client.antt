-- ===== src/InternalApi/Client.antt =====
-- internal/internalapi/client.go: the clients of the SMTP and IMAP roles, over the server.
use envelope.Prelude.{
  ℕ, ℤ, Bool, false, Option, none, some, String, ◌<>◌, ◌=ₛ◌, decimal, leb, List, [], ◌∷◌, map,
  if◌then◌else◌,
}
use envelope.Context.{Error, plain, wrap, Result, ok, err}
use envelope.Storage.{MessageRef, MessageMeta}
use envelope.Directory.{Vhost}
use envelope.Queue.{Job}
use envelope.Webhook.{Payload}
use envelope.InternalApi.{
  VhostDto, VhostResponse, WriteResponse, MessageMetaDto, EnqueueJobRequest, UpdateFlagsRequest,
  Shape, error_response, vhost_request, vhost_response, authenticate_request, authenticate_response,
  write_response, list_request, list_response, update_flags_request, enqueue_job_request,
  rate_limit_allow_request, rate_limit_allow_response, webhook_enqueue_request, Dto, Codec,
  pem_to_rsa_key,
}
use envelope.InternalApi.Server.{Request, Response, Parts, World, handle}

-- What the network does to one exchange: nothing, or it loses the request or the reply (the client's
-- timeout counts as the latter).
pub data Fault : Type 0 where
  sound : Fault
  lost_request lost_reply : Error → Fault

unfoldable pub unsupported : String → Error
unsupported method = plain (
    method
    <> (" is not exposed to SMTP-facing roles over the internal API (least-privilege by design, "
        <> "mirroring deploy/postgres/roles.sql's SQL-level grants)"))

unfoldable pub job_request : Job → EnqueueJobRequest
job_request job = record {
  id = job.id;
  vhost = job.vhost;
  from = job.from;
  to = job.to;
  body_ref = job.body_ref;
  next_attempt_at = job.next_attempt_at;
  correlation_id = job.correlation_id;
}

unfoldable pub flags_request : MessageRef → List String → UpdateFlagsRequest
flags_request ref flags = record {
  vhost = ref.vhost;
  mailbox = ref.mailbox;
  key = ref.key;
  flags = flags;
}

unfoldable pub meta_of : MessageMetaDto → MessageMeta
meta_of m = record {
  ref = record { vhost = m.vhost; mailbox = m.mailbox; key = m.key };
  size = m.size;
  flags = m.flags;
  created_at = m.created_at;
}

unfoldable pub ref_of : WriteResponse → MessageRef
ref_of wr = record { vhost = wr.vhost; mailbox = wr.mailbox; key = wr.key }

-- A key that does not parse is left out.
unfoldable pub key_of : Codec → String → Option ℕ
key_of c text =
    if text =ₛ "" then none else elim (pem_to_rsa_key c text) [ err e ↦ none | ok key ↦ some key ]

unfoldable pub vhost_of : Codec → VhostDto → Vhost
unfolding key_of
vhost_of c v = record {
  id = v.id;
  account_id = "";
  domain = v.domain;
  active = v.active;
  dkim_selector = v.dkim_selector;
  dkim_key = key_of c v.dkim_key_pem;
  max_message_bytes = v.max_message_bytes;
  daily_quota = v.daily_quota;
  spam_reject_threshold = v.spam_reject_threshold;
  spam_quarantine_threshold = v.spam_quarantine_threshold;
  retention_days = v.retention_days;
}

-- The vhost of a reply, where it has one.
unfoldable pub vhost_in : Codec → Result VhostResponse → Option Vhost
unfolding vhost_of
vhost_in c (err e) = none
vhost_in c (ok resp) =
    if resp.found then elim resp.vhost [ none ↦ none | some v ↦ some (vhost_of c v) ] else none

module _ (p : Parts) (token : String) where
  -- hc.Do
  unfoldable pub exchange : Fault → Request → World p → Result Response × World p
  exchange (lost_request e) r w = (err e, w)
  exchange sound r w = let (answer, after) = handle p r w in (ok answer, after)
  exchange (lost_reply e) r w = (err e, (handle p r w).1)

  unfoldable pub response_error : String → String → Response → Error
  response_error method path resp =
      let text : String = elim (p.codec.decode error_response resp.content) [
        | err e ↦ ""
        | ok t ↦ t
      ] in
      let code = decimal resp.status in
      let told = if text =ₛ "" then code <> (" " <> p.codec.status_text resp.status) else text in
      plain ("internalapi: " <> (method <> (" " <> (path <> (": " <> (code <> (" " <> told)))))))

  -- The reply, unless its status is an error.
  unfoldable pub reply_of : String → String → Result Response → Result Response
  unfolding response_error
  reply_of method path (err e) =
      err (wrap ("internalapi: " <> (method <> (" " <> (path <> ": ")))) e)
  reply_of method path (ok resp) =
      if leb 300 resp.status then err (response_error method path resp) else ok resp

  unfoldable pub decoded : (s : Shape) → Result Response → Result (Dto s)
  decoded s (err e) = err e
  decoded s (ok resp) = elim (p.codec.decode s resp.content) [
    | err e ↦ err (wrap "internalapi: decode response: " e)
    | ok x ↦ ok x
  ]

  unfoldable pub post : String → (s : Shape) → Dto s → Request
  post path s x = record {
    method = "POST";
    path = path;
    query = [];
    token = token;
    body = p.codec.encode s x;
  }

  -- doJSON, with a respBody.
  unfoldable pub do_json :
      Fault → String → (s : Shape) → Dto s → (t : Shape) → World p → Result (Dto t) × World p
  unfolding decoded reply_of post exchange
  do_json fault path s x t w =
      let (resp, after) = exchange fault (post path s x) w in
      (decoded t (reply_of "POST" path resp), after)

  unfoldable pub error_of : Result Response → Option Error
  error_of (err e) = some e
  error_of (ok resp) = none

  -- doJSON, where respBody is nil.
  unfoldable pub tell : Fault → String → (s : Shape) → Dto s → World p → Option Error × World p
  unfolding error_of reply_of post exchange
  tell fault path s x w =
      let (resp, after) = exchange fault (post path s x) w in
      (error_of (reply_of "POST" path resp), after)

  unfoldable pub vhost : Fault → String → World p → Option Vhost × World p
  unfolding vhost_in do_json
  vhost fault domain w =
      let (resp, after) =
        do_json fault "/internal/v1/directory/vhost" vhost_request domain vhost_response w in
      (vhost_in p.codec resp, after)

  unfoldable pub vhost_active : Fault → String → World p → Bool × World p
  unfolding vhost
  vhost_active fault domain w =
      let (found, after) = vhost fault domain w in
      (elim found [ none ↦ false | some v ↦ v.active ], after)

  unfoldable pub authenticate : Fault → String → String → String → World p → Bool × World p
  unfolding do_json
  authenticate fault vhost local_part password w =
      let (resp, after) =
        do_json fault "/internal/v1/directory/authenticate" authenticate_request
          (record { vhost = vhost; local_part = local_part; password = password })
          authenticate_response w in
      (elim resp [ err e ↦ false | ok b ↦ b ], after)

  unfoldable pub write_request : String → String → String → Request
  write_request vhost mailbox body = record {
    method = "POST";
    path = "/internal/v1/store/write";
    query = ("vhost", vhost) ∷ ("mailbox", mailbox) ∷ [];
    token = token;
    body = body;
  }

  -- The bodies of Write and Read after hc.Do; their errors name the operation in place of the path.
  unfoldable pub reply_to : String → String → Result Response → Result Response
  unfolding response_error
  reply_to method path (err e) = err (wrap "internalapi: store: " e)
  reply_to method path (ok resp) =
      if leb 300 resp.status then err (response_error method path resp) else ok resp

  unfoldable pub write : Fault → String → String → String → World p → Result MessageRef × World p
  unfolding write_request reply_to decoded exchange
  write fault vhost mailbox body w =
      let (resp, after) = exchange fault (write_request vhost mailbox body) w in
      (
        elim (decoded write_response (reply_to "POST" "/internal/v1/store/write" resp)) [
          | err e ↦ err e
          | ok wr ↦ ok (ref_of wr)
        ],
        after,
      )

  unfoldable pub read_request : MessageRef → Request
  read_request ref = record {
    method = "GET";
    path = "/internal/v1/store/read";
    query = ("vhost", ref.vhost) ∷ ("mailbox", ref.mailbox) ∷ ("key", ref.key) ∷ [];
    token = token;
    body = "";
  }

  -- The reader is the response's body, which net/http ends without an error.
  unfoldable pub read : Fault → MessageRef → World p → Result (Result String) × World p
  unfolding read_request reply_to exchange
  read fault ref w =
      let (resp, after) = exchange fault (read_request ref) w in
      (
        elim (reply_to "GET" "/internal/v1/store/read" resp) [
          | err e ↦ err e
          | ok resp ↦ ok (ok resp.content)
        ],
        after,
      )

  unfoldable pub list_mailbox :
      Fault → String → String → World p → Result (List MessageMeta) × World p
  unfolding do_json
  list_mailbox fault vhost mailbox w =
      let (resp, after) =
        do_json fault "/internal/v1/store/list" list_request
          (record { vhost = vhost; mailbox = mailbox }) list_response w in
      (elim resp [ err e ↦ err e | ok metas ↦ ok (map meta_of metas) ], after)

  unfoldable pub update_flags : Fault → MessageRef → List String → World p → Option Error × World p
  unfolding tell
  update_flags fault ref flags w =
      tell fault "/internal/v1/store/updateflags" update_flags_request (flags_request ref flags) w

  unfoldable pub list_vhost : String → World p → Result (List MessageMeta) × World p
  list_vhost vhost w = (err (unsupported "Store.ListVhost"), w)

  unfoldable pub delete_message : MessageRef → World p → Option Error × World p
  delete_message ref w = (some (unsupported "Store.Delete"), w)

  unfoldable pub enqueue : Fault → Job → World p → Option Error × World p
  unfolding tell
  enqueue fault job w =
      tell fault "/internal/v1/queue/enqueue" enqueue_job_request (job_request job) w

  unfoldable pub dequeue : World p → Result (Option Job) × World p
  dequeue w = (err (unsupported "Queue.Dequeue"), w)

  unfoldable pub complete : String → World p → Option Error × World p
  complete id w = (some (unsupported "Queue.Complete"), w)

  unfoldable pub fail : String → Option Error → ℕ → World p → Option Error × World p
  fail id cause next w = (some (unsupported "Queue.Fail"), w)

  unfoldable pub count : World p → Result ℕ × World p
  count w = (err (unsupported "Queue.Count"), w)

  unfoldable pub allow : Fault → String → ℤ → ℤ × ℕ → World p → Result Bool × World p
  unfolding do_json
  allow fault key capacity refill w =
      do_json fault "/internal/v1/ratelimit/allow" rate_limit_allow_request
        (record { key = key; capacity = capacity; refill = refill }) rate_limit_allow_response w

  unfoldable pub fire : Fault → String → String → Payload → World p → Option Error × World p
  unfolding tell
  fire fault vhost event_type payload w =
      tell fault "/internal/v1/webhook/enqueue" webhook_enqueue_request
        (record { vhost = vhost; event_type = event_type; payload = payload }) w
