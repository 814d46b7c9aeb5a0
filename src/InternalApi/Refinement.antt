-- ===== src/InternalApi/Refinement.antt =====
-- The clients against the parts that the server runs on.
pub mod Exchange
pub mod Calls
pub mod Sessions
use envelope.Prelude.{
  ℕ, ℤ, ◌≡◌, ◌≢◌, ◌∙◌, refl, sym, ap, Bool, true, false, Bool-cases, ◌&&◌, ◌||◌, not, inl, inr,
  Option, none, some, Option-cases, String, ◌=ₛ◌, eq_iff, arith, List, [], ◌∷◌, All, map,
  if◌then◌else◌,
}
use envelope.Prelude.Dict.{lookup}
use envelope.Context.{Error, Result, ok, err, Result-cases}
use envelope.Storage.{MessageRef, MessageMeta}
use envelope.Directory.{Vhost}
use envelope.Queue.{Job}
use envelope.Webhook.{Payload}
use envelope.InternalApi.{
  Codec, Survives, KeepsKeys, rsa_key_to_pem, pem_to_rsa_key, Shape, Dto, error_response,
  vhost_request, vhost_response, authenticate_request, authenticate_response, write_response,
  list_request, list_response, update_flags_request, enqueue_job_request, rate_limit_allow_request,
  rate_limit_allow_response, webhook_enqueue_request, scope_directory_vhost,
  scope_directory_authenticate, scope_store_write, scope_store_read, scope_store_list,
  scope_store_update_flags, scope_queue_enqueue, scope_rate_limit_allow, scope_webhook_enqueue,
}
use envelope.InternalApi.Server.{
  ref_in, Request, Response, Parts, World, get, has_scope, role_of, authorize, serve, handle,
  routes, handle_vhost, handle_authenticate, handle_store_write, handle_store_read,
  handle_store_list, handle_store_update_flags, handle_queue_enqueue, handle_rate_limit_allow,
  handle_webhook_enqueue, vhost_answer, vhost_dto, write_response_of, meta_dto, job_of, flags_ref,
  write_json, write_error, done_or_error, copied,
}
use envelope.InternalApi.Client as Client
use envelope.InternalApi.Client.{
  Fault, sound, lost_request, lost_reply, exchange, post, job_request, flags_request, write_request,
  read_request, meta_of, vhost_of, vhost_in, key_of, reply_of, reply_to, decoded, error_of, do_json,
  tell,
}

-- The calls that the clients pass on.
pub data Call : Type 0 where
  ask_vhost ask_active : String → Call
  log_in : String → String → String → Call
  write_message : String → String → String → Call
  read_message : MessageRef → Call
  list_messages : String → String → Call
  set_flags : MessageRef → List String → Call
  queue_job : Job → Call
  take_token : String → ℤ → ℤ × ℕ → Call
  fire_event : String → String → Payload → Call

-- What a caller learns from them: errors are not told apart.
pub data Reply : Type 0 where
  got_vhost : Option Vhost → Reply
  got_bool : Bool → Reply
  got_ref : Option MessageRef → Reply
  got_body : Option (Result String) → Reply
  got_metas : Option (List MessageMeta) → Reply
  got_allowed : Option Bool → Reply

abbrev pub outcome {ℓ} : {A : Type ℓ} → Result A → Option A
outcome (ok a) = some a
outcome (err e) = none

abbrev pub succeeded : Option Error → Bool
succeeded none = true
succeeded (some e) = false

abbrev pub scope_of : Call → String
scope_of (ask_vhost domain) = scope_directory_vhost
scope_of (ask_active domain) = scope_directory_vhost
scope_of (log_in vhost local password) = scope_directory_authenticate
scope_of (write_message vhost mailbox body) = scope_store_write
scope_of (read_message ref) = scope_store_read
scope_of (list_messages vhost mailbox) = scope_store_list
scope_of (set_flags ref flags) = scope_store_update_flags
scope_of (queue_job job) = scope_queue_enqueue
scope_of (take_token key capacity refill) = scope_rate_limit_allow
scope_of (fire_event vhost event_type payload) = scope_webhook_enqueue

-- The account of a vhost is not passed on.
abbrev pub shared : Option Vhost → Option Vhost
shared none = none
shared (some v) = some (record v { account_id = "" })

abbrev pub is_active : Option Vhost → Bool
is_active none = false
is_active (some v) = v.active

module _ (p : Parts) where
  -- The call on the parts themselves.
  abbrev pub direct : Call → World p → Reply × World p
  direct (ask_vhost domain) w = (got_vhost (shared (p.dir.vhost domain)), w)
  direct (ask_active domain) w = (got_bool (is_active (p.dir.vhost domain)), w)
  direct (log_in vhost local password) w = (got_bool (p.dir.authenticate vhost local password), w)
  direct (write_message vhost mailbox body) w =
      let (result, stored) = p.store.write p.ctx vhost mailbox body w.stored in
      (got_ref (outcome result), record w { stored = stored })
  direct (read_message ref) w = (got_body (outcome (p.store.read p.ctx ref w.stored)), w)
  direct (list_messages vhost mailbox) w =
      (got_metas (outcome (p.store.list_mailbox p.ctx vhost mailbox w.stored)), w)
  direct (set_flags ref flags) w =
      let (refused, stored) = p.store.update_flags p.ctx ref flags w.stored in
      (got_bool (succeeded refused), record w { stored = stored })
  direct (queue_job job) w =
      let (refused, queued) = p.enqueue p.ctx job w.queued in
      (got_bool (succeeded refused), record w { queued = queued })
  direct (take_token key capacity refill) w =
      let (result, buckets) = p.limiter.allow p.ctx key capacity refill w.buckets in
      (got_allowed (outcome result), record w { buckets = buckets })
  direct (fire_event vhost event_type payload) w =
      let (refused, hooked) = p.fire p.ctx vhost event_type payload w.hooked in
      (got_bool (succeeded refused), record w { hooked = hooked })

  -- What a client tells its caller when the exchange fails.
  abbrev pub failed : Call → Reply
  failed (ask_vhost domain) = got_vhost none
  failed (ask_active domain) = got_bool false
  failed (log_in vhost local password) = got_bool false
  failed (write_message vhost mailbox body) = got_ref none
  failed (read_message ref) = got_body none
  failed (list_messages vhost mailbox) = got_metas none
  failed (set_flags ref flags) = got_bool false
  failed (queue_job job) = got_bool false
  failed (take_token key capacity refill) = got_allowed none
  failed (fire_event vhost event_type payload) = got_bool false

  -- The call on the parts, under a fault of the network: a lost request changes nothing, and after a
  -- lost reply the change has been made.
  abbrev pub direct_under : Fault → Call → World p → Reply × World p
  direct_under sound c w = direct c w
  direct_under (lost_request e) c w = (failed c, w)
  direct_under (lost_reply e) c w = (failed c, (direct c w).1)

  -- What the wire must carry for the call: bodies that the codec keeps; names that are not empty; a
  -- new job; and a message whose reader does not fail.
  abbrev pub Carries : Call → World p → Type 0
  Carries (ask_vhost domain) w =
      Survives p.codec vhost_request domain
      × Survives p.codec vhost_response (vhost_answer p (p.dir.vhost domain))
  Carries (ask_active domain) w =
      Survives p.codec vhost_request domain
      × Survives p.codec vhost_response (vhost_answer p (p.dir.vhost domain))
  Carries (log_in vhost local password) w =
      Survives p.codec authenticate_request
        (record { vhost = vhost; local_part = local; password = password })
      × Survives p.codec authenticate_response (p.dir.authenticate vhost local password)
  Carries (write_message vhost mailbox body) w =
      ((vhost =ₛ "") ≡ false)
      × ((mailbox =ₛ "") ≡ false)
      × ((ref : MessageRef)
          → (p.store.write p.ctx vhost mailbox body w.stored).0 ≡ ok ref
          → Survives p.codec write_response (write_response_of ref))
  Carries (read_message ref) w =
      ((ref.vhost =ₛ "") ≡ false)
      × ((ref.mailbox =ₛ "") ≡ false)
      × ((ref.key =ₛ "") ≡ false)
      × ((e : Error) → p.store.read p.ctx ref w.stored ≢ ok (err e))
  Carries (list_messages vhost mailbox) w =
      Survives p.codec list_request (record { vhost = vhost; mailbox = mailbox })
      × ((metas : List MessageMeta)
          → p.store.list_mailbox p.ctx vhost mailbox w.stored ≡ ok metas
          → Survives p.codec list_response (map meta_dto metas))
  Carries (set_flags ref flags) w = Survives p.codec update_flags_request (flags_request ref flags)
  Carries (queue_job job) w =
      Survives p.codec enqueue_job_request (job_request job)
      × (job.attempts ≡ 0)
      × (job.last_error ≡ "")
  Carries (take_token key capacity refill) w =
      Survives p.codec rate_limit_allow_request
        (record { key = key; capacity = capacity; refill = refill })
      × ((allowed : Bool)
          → (p.limiter.allow p.ctx key capacity refill w.buckets).0 ≡ ok allowed
          → Survives p.codec rate_limit_allow_response allowed)
  Carries (fire_event vhost event_type payload) w =
      Survives p.codec webhook_enqueue_request
        (record { vhost = vhost; event_type = event_type; payload = payload })

  module _ (token : String) where
    -- The token is one of the server's, of a role that has the scope.
    pub record IsGranted (scope : String) : Type 0 where
      pub given : (token =ₛ "") ≡ false
      pub known : (role_of p.tokens token =ₛ "") ≡ false
      pub granted : has_scope (role_of p.tokens token) scope ≡ true

    -- The same call through the client with the token.
    abbrev pub remote : Fault → Call → World p → Reply × World p
    remote fault (ask_vhost domain) w =
        let (found, after) = Client.vhost p token fault domain w in (got_vhost found, after)
    remote fault (ask_active domain) w =
        let (found, after) = Client.vhost_active p token fault domain w in (got_bool found, after)
    remote fault (log_in vhost local password) w =
        let (known, after) = Client.authenticate p token fault vhost local password w in
        (got_bool known, after)
    remote fault (write_message vhost mailbox body) w =
        let (result, after) = Client.write p token fault vhost mailbox body w in
        (got_ref (outcome result), after)
    remote fault (read_message ref) w =
        let (result, after) = Client.read p token fault ref w in (got_body (outcome result), after)
    remote fault (list_messages vhost mailbox) w =
        let (result, after) = Client.list_mailbox p token fault vhost mailbox w in
        (got_metas (outcome result), after)
    remote fault (set_flags ref flags) w =
        let (refused, after) = Client.update_flags p token fault ref flags w in
        (got_bool (succeeded refused), after)
    remote fault (queue_job job) w =
        let (refused, after) = Client.enqueue p token fault job w in
        (got_bool (succeeded refused), after)
    remote fault (take_token key capacity refill) w =
        let (result, after) = Client.allow p token fault key capacity refill w in
        (got_allowed (outcome result), after)
    remote fault (fire_event vhost event_type payload) w =
        let (refused, after) = Client.fire p token fault vhost event_type payload w in
        (got_bool (succeeded refused), after)
