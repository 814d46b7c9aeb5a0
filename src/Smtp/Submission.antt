-- ===== src/Smtp/Submission.antt =====
-- internal/platform/smtp/submission.go: authenticated submission. The parser of DATA, DKIM signing,
-- the hosts' random identifiers and the clock are parameters.
pub mod Relaying
pub mod Jobs
pub mod Queueing
use envelope.Prelude.{
  ℕ, suc, ◌+◌, ℤ, pos, is_positive, Bool, true, false, not, ◌||◌, Option, none, some, String, ◌<>◌,
  ◌=ₛ◌, List, [], ◌∷◌, ◌++◌, if◌then◌else◌,
}
use envelope.Context.{Context, background, Error, plain, Result, ok, err}
use envelope.Storage.{Store, MessageRef, outbox_mailbox}
use envelope.Directory.{Vhost, Directory, parse_address}
use envelope.Queue.{Job, job_type}
use envelope.Queue.Claims.{Backend, enqueue}
use envelope.Webhook.{Fired, queued_data, new_event_payload, message_queued}
use envelope.Smtp.{Config, refusal}
use envelope.Smtp.Limits.{Limiter, is_denied}

-- What the server runs on. `sign` is dkim.Sign with domain, selector and key.
pub record Parts : Type 1 where
  pub dir : Directory
  pub store : Store
  pub limiter : Limiter
  pub sign : String → String → ℕ → String → Result String
  pub auth_failed : Error

pub record Session : Type 0 where
  pub auth_local : String
  pub auth_vhost : String
  pub from : String
  pub rcpts : List String
  pub correlation_id : String

pub record World (p : Parts) : Type 0 where
  pub stored : p.store.State
  pub buckets : p.limiter.State
  pub jobs : Backend Job
  pub fired : List Fired

-- An SMTPError whose EnhancedCode is not set.
abbrev temporary : String → Error
temporary text = refusal 451 (0, 0, 0) text

abbrev pub seconds_per_day : ℕ
seconds_per_day = 86_400

unfoldable pub new_session : Session
new_session = record {
  auth_local = "";
  auth_vhost = "";
  from = "";
  rcpts = [];
  correlation_id = "";
}

unfoldable pub reset : Session → Session
reset s = record s { from = ""; rcpts = []; correlation_id = "" }

abbrev pub authentication_required : Error
authentication_required = refusal 530 (5, 7, 0) "authentication required"

unfoldable pub mail : String → String → Session → Option Error × Session
mail correlation_id from s =
    if s.auth_local =ₛ ""
    then (some authentication_required, s)
    else (none, record s { correlation_id = correlation_id; from = from })

unfoldable pub rcpt : String → Session → Option Error × Session
rcpt to s = (none, record s { rcpts = s.rcpts ++ to ∷ [] })

unfoldable pub new_job : String → Session → String → String → ℕ → Job
new_job id s to body_ref now = record {
  id = id;
  vhost = s.auth_vhost;
  from = s.from;
  to = to;
  body_ref = body_ref;
  attempts = 0;
  next_attempt_at = now;
  last_error = "";
  correlation_id = s.correlation_id;
}

module _ (p : Parts) (cfg : Config) where
  -- The callback of Auth, for the one mechanism, PLAIN.
  unfoldable pub auth : String → String → Session → Option Error × Session
  auth username password s = elim (parse_address username) [
    | none ↦ (some (plain "smtp: username must be an email address"), s)
    | some (local, vhost) ↦
        if p.dir.authenticate vhost local password
        then (none, record s { auth_local = local; auth_vhost = vhost })
        else (some p.auth_failed, s)
  ]

  quota_exceeded : Error
  quota_exceeded =
      refusal 452 (4, 7, 1) "daily sending quota exceeded for this vhost, try again later"

  unfoldable pub check_quota : Context → Vhost → p.limiter.State → Option Error × p.limiter.State
  unfolding quota_exceeded
  check_quota ctx v buckets =
      if not cfg.quota || not (is_positive v.daily_quota)
      then (none, buckets)
      else (let (allowed, left) =
            p.limiter.allow ctx ("quota:" <> v.id) v.daily_quota (v.daily_quota, seconds_per_day)
              buckets in
          (if is_denied allowed then some quota_exceeded else none, left))

  unfoldable pub fire_queued : Context → Session → ℕ → String → List Fired → List Fired
  fire_queued ctx s now uuid log =
      if cfg.webhooks
      then (log
          ++ record {
            ctx = ctx;
            vhost = s.auth_vhost;
            event_type = message_queued;
            payload =
                new_event_payload uuid message_queued s.auth_vhost now (queued_data s.from s.rcpts);
          }
            ∷ [])
      else log

  -- One turn of the loop of Data.
  unfoldable pub queue_one :
      Context → Session → String → ℕ → String → String → World p → Option Error × World p
  queue_one ctx s signed now id to w =
      let (result, stored) = p.store.write ctx s.auth_vhost outbox_mailbox signed w.stored in
      elim result [
        | err e ↦ (some (temporary "temporary storage failure"), record w { stored = stored })
        | ok ref ↦
            let (refused, jobs) = enqueue job_type ctx (new_job id s to ref.key now) w.jobs in
            let after = record w { stored = stored; jobs = jobs } in
            elim refused [
              | none ↦ (none, after)
              | some e ↦ (some (temporary "queue unavailable"), after)
            ]
      ]

  -- The loop of Data: it returns at the first recipient that fails. `uuids` are the fresh UUIDs.
  unfoldable pub queue_all :
      Context
      → Session
      → String
      → ℕ
      → (ℕ → String)
      → ℕ
      → List String
      → World p
      → Option Error × World p
  queue_all ctx s signed now uuids n [] w = (none, w)
  queue_all ctx s signed now uuids n (to ∷ rest) w =
      let (refused, after) = queue_one ctx s signed now (uuids n) to w in
      let others = queue_all ctx s signed now uuids (suc n) rest after in
      elim refused [ none ↦ others | some e ↦ (some e, after) ]

  unfoldable pub announce :
      Context → Session → ℕ → String → Option Error × World p → Option Error × World p
  announce ctx s now uuid (some e, w) = (some e, w)
  announce ctx s now uuid (none, w) =
      (none, record w { fired = fire_queued ctx s now uuid w.fired })

  unfoldable pub send_signed :
      Context → Session → Result String → ℕ → (ℕ → String) → World p → Option Error × World p
  send_signed ctx s (err e) now uuids w = (some (temporary "DKIM signing failed"), w)
  send_signed ctx s (ok signed) now uuids w =
      announce ctx s now (uuids 0) (queue_all ctx s signed now uuids 1 s.rcpts w)

  unfoldable pub sending_key : Option Vhost → Option (Vhost × ℕ)
  sending_key none = none
  sending_key (some v) = elim v.dkim_key [ none ↦ none | some key ↦ some (v, key) ]

  -- Data, on what io.ReadAll reads.
  unfoldable pub submit :
      Result String → ℕ → (ℕ → String) → Session → World p → Option Error × World p
  unfolding sending_key
  submit (err e) now uuids s w = (some e, w)
  submit (ok body) now uuids s w =
      let ctx = background s.correlation_id in
      elim (sending_key (p.dir.vhost s.auth_vhost)) [
        | none ↦ (some (temporary "no DKIM key configured for sending vhost"), w)
        | some (v, key) ↦
            let (refused, buckets) = check_quota ctx v w.buckets in
            let after = record w { buckets = buckets } in
            elim refused [
              | some e ↦ (some e, after)
              | none ↦ send_signed ctx s (p.sign v.domain v.dkim_selector key body) now uuids after
            ]
      ]
