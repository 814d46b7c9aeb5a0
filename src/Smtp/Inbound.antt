-- ===== src/Smtp/Inbound.antt =====
-- internal/platform/smtp/inbound.go. The parallel slices `rcpts` and `vhosts` are one list of pairs.
pub mod Relay
pub mod Storing
pub mod Events
pub mod Thresholds
pub mod Sizes
use Prim.Native.String.{len}
use envelope.Prelude.{
  ℕ, suc, ◌+◌, ℤ, pos, ltb_ℤ, is_positive, Bool, true, false, ◌&&◌, not, Option, none, some, String,
  ◌<>◌, ◌=ₛ◌, List, [], ◌∷◌, ◌++◌, map, if◌then◌else◌,
}
use envelope.Context.{Context, background, Error, Result, ok, err}
use envelope.Storage.{Store, MessageRef}
use envelope.Directory.{Vhost, Directory, parse_address, mailbox_path}
use envelope.Filter.{Checks, Input, Outcome, Verdict, accept, quarantine, reject, evaluate}
use envelope.Webhook.{Fired, received_data, new_event_payload, message_received}
use envelope.Smtp.{Config, refusal}
use envelope.Smtp.Limits.{Limiter, is_denied}

abbrev pub default_max_message_bytes : ℤ
default_max_message_bytes = pos 26_214_400

-- What the server runs on. A nil IP has no text.
pub record Parts : Type 1 where
  pub checks : Checks
  pub ip_text : checks.Ip → Option String
  pub dir : Directory
  pub store : Store
  pub limiter : Limiter

pub record Session (p : Parts) : Type 0 where
  pub client_ip : p.checks.Ip
  pub helo_domain : String
  pub from : String
  pub rcpts : List (String × Vhost)
  pub correlation_id : String

-- What the sessions of a server share: the messages stored, the limiter's buckets, and the events
-- handed to the Enqueuer.
pub record World (p : Parts) : Type 0 where
  pub stored : p.store.State
  pub buckets : p.limiter.State
  pub fired : List Fired

unfoldable pub rate_limit_error : String → Error
rate_limit_error dimension =
    refusal 450 (4, 7, 1) ("rate limit exceeded for " <> (dimension <> ", try again later"))

unfoldable pub min_positive : ℤ → ℤ → ℤ
min_positive current candidate =
    if not (is_positive candidate)
    then current
    else if not (is_positive current)
    then candidate
    else if ltb_ℤ candidate current
    then candidate
    else current

-- The loop of effectiveThresholds.
unfoldable pub strictest : (Vhost → ℤ) → ℤ → List (String × Vhost) → ℤ
strictest threshold current [] = current
strictest threshold current ((to, v) ∷ rest) =
    strictest threshold (min_positive current (threshold v)) rest

smaller_limit : ℤ → ℤ → ℤ
smaller_limit own limit = if is_positive own && ltb_ℤ own limit then own else limit

-- The loop of effectiveMaxBytes.
unfoldable pub tightest : ℤ → List (String × Vhost) → ℤ
unfolding smaller_limit
tightest limit [] = limit
tightest limit ((to, v) ∷ rest) = tightest (smaller_limit v.max_message_bytes limit) rest

unfoldable pub effective_max_bytes : Config → List (String × Vhost) → ℤ
effective_max_bytes cfg rcpts =
    tightest
      (if is_positive cfg.max_message_bytes
        then cfg.max_message_bytes
        else default_max_message_bytes)
      rcpts

-- `read` is what io.ReadAll makes of the DATA reader.
unfoldable pub read_bounded : Result String → ℤ → Result String
read_bounded (err e) limit = err e
read_bounded (ok body) limit =
    if ltb_ℤ limit (pos (len body))
    then err (refusal 552 (5, 3, 4) "message exceeds maximum size")
    else ok body

-- One more recipient of a vhost; a vhost that is new goes to the end.
unfoldable pub add_recipient :
    String → String → List (String × List String) → List (String × List String)
add_recipient domain rcpt [] = (domain, rcpt ∷ []) ∷ []
add_recipient domain rcpt ((d, rcpts) ∷ groups) =
    if d =ₛ domain
    then (d, rcpts ++ rcpt ∷ []) ∷ groups
    else (d, rcpts) ∷ add_recipient domain rcpt groups

-- recipientsByVhost, in the order of vhostOrder.
unfoldable pub by_vhost :
    List (String × Vhost) → List (String × List String) → List (String × List String)
by_vhost [] groups = groups
by_vhost ((to, v) ∷ rest) groups = by_vhost rest (add_recipient v.domain to groups)

received_event : Context → String → Bool → ℕ → String → String → List String → Fired
received_event ctx from quarantined now uuid domain rcpts = record {
  ctx = ctx;
  vhost = domain;
  event_type = message_received;
  payload =
      new_event_payload uuid message_received domain now (received_data from rcpts quarantined);
}

-- `uuids` are the fresh UUIDs, by the number of the event.
unfoldable pub received_events :
    Context → String → Bool → ℕ → (ℕ → String) → ℕ → List (String × List String) → List Fired
unfolding received_event
received_events ctx from quarantined now uuids n [] = []
received_events ctx from quarantined now uuids n ((domain, rcpts) ∷ groups) =
    received_event ctx from quarantined now (uuids n) domain rcpts
    ∷ received_events ctx from quarantined now uuids (suc n) groups

module _ (p : Parts) (cfg : Config) where
  unfoldable pub new_session : p.checks.Ip → String → Session p
  new_session client_ip helo_domain = record {
    client_ip = client_ip;
    helo_domain = helo_domain;
    from = "";
    rcpts = [];
    correlation_id = "";
  }

  unfoldable pub reset : Session p → Session p
  reset s = record s { from = ""; rcpts = []; correlation_id = "" }

  -- The per-sender half of checkRateLimit.
  check_sender : Context → String → p.limiter.State → Option Error × p.limiter.State
  check_sender ctx from buckets =
      if not (from =ₛ "") && is_positive cfg.rate_limit_sender_capacity
      then (let (allowed, left) =
            p.limiter.allow ctx ("sender:" <> from) cfg.rate_limit_sender_capacity
              (cfg.rate_limit_sender_refill, 1) buckets in
          (if is_denied allowed then some (rate_limit_error "envelope sender") else none, left))
      else (none, buckets)

  check_ip : Context → Option String → String → p.limiter.State → Option Error × p.limiter.State
  unfolding check_sender
  check_ip ctx none from buckets = check_sender ctx from buckets
  check_ip ctx (some ip) from buckets =
      if is_positive cfg.rate_limit_ip_capacity
      then (let (allowed, left) =
            p.limiter.allow ctx ("ip:" <> ip) cfg.rate_limit_ip_capacity
              (cfg.rate_limit_ip_refill, 1) buckets in
          if is_denied allowed
          then (some (rate_limit_error "source IP"), left)
          else check_sender ctx from left)
      else check_sender ctx from buckets

  unfoldable pub check_rate_limit :
      Context → Session p → String → p.limiter.State → Option Error × p.limiter.State
  unfolding check_ip
  check_rate_limit ctx s from buckets =
      if cfg.rate_limiter
      then check_ip ctx (p.ip_text s.client_ip) from buckets
      else (none, buckets)

  -- `correlation_id` is the fresh one of the transaction.
  unfoldable pub mail : String → String → Session p → World p → Option Error × Session p × World p
  mail correlation_id from s w =
      let t = record s { correlation_id = correlation_id } in
      let (refused, buckets) = check_rate_limit (background "") t from w.buckets in
      let after = record w { buckets = buckets } in
      elim refused [ some e ↦ (some e, t, after) | none ↦ (none, record t { from = from }, after) ]

  no_such_domain : Error
  no_such_domain = refusal 550 (5, 1, 1) "no such domain here"

  unfoldable pub rcpt : String → Session p → Option Error × Session p
  unfolding no_such_domain
  rcpt to s = elim (parse_address to) [
    | none ↦ (some (refusal 501 (5, 1, 3) "malformed recipient address"), s)
    | some (local, domain) ↦ elim (p.dir.vhost domain) [
      | none ↦ (some no_such_domain, s)
      | some v ↦
          if v.active
          then (none, record s { rcpts = s.rcpts ++ (to, v) ∷ [] })
          else (some no_such_domain, s)
    ]
  ]

  -- The loop of store: it stops at the first write that fails.
  unfoldable pub store_all :
      Context
      → String
      → String
      → List (String × Vhost)
      → p.store.State
      → Option Error × p.store.State
  store_all ctx body folder [] stored = (none, stored)
  store_all ctx body folder ((to, v) ∷ rest) stored = elim (parse_address to) [
    | none ↦ store_all ctx body folder rest stored
    | some (local, domain) ↦
        let (result, after) = p.store.write ctx v.domain (mailbox_path local folder) body stored in
        elim result [
          | ok ref ↦ store_all ctx body folder rest after
          | err e ↦ (some (refusal 451 (4, 3, 0) "temporary storage failure"), after)
        ]
  ]

  unfoldable pub fire_received :
      Context → Session p → Bool → ℕ → (ℕ → String) → List Fired → List Fired
  fire_received ctx s quarantined now uuids log =
      if cfg.webhooks
      then log ++ received_events ctx s.from quarantined now uuids 0 (by_vhost s.rcpts [])
      else log

  -- The message as the filter sees it, at the thresholds that govern the transaction.
  unfoldable pub input : Session p → String → Input p.checks
  input s body = record {
    body = body;
    mail_from = s.from;
    rcpt_to = map (λ r. r.0) s.rcpts;
    client_ip = s.client_ip;
    helo_domain = s.helo_domain;
    reject_threshold = strictest (λ v. v.spam_reject_threshold) (pos 0) s.rcpts;
    quarantine_threshold = strictest (λ v. v.spam_quarantine_threshold) (pos 0) s.rcpts;
  }

  unfoldable pub after_store :
      Context
      → Session p
      → Bool
      → ℕ
      → (ℕ → String)
      → World p
      → Option Error × p.store.State
      → Option Error × World p
  after_store ctx s quarantined now uuids w (some e, stored) =
      (some e, record w { stored = stored })
  after_store ctx s quarantined now uuids w (none, stored) = (
    none,
    record w { stored = stored; fired = fire_received ctx s quarantined now uuids w.fired },
  )

  unfoldable pub act_on :
      Context
      → Session p
      → ℕ
      → (ℕ → String)
      → World p
      → String
      → String
      → Verdict
      → Option Error × World p
  unfolding after_store
  act_on ctx s now uuids w body reason reject =
      (some (refusal 550 (5, 7, 1) ("message rejected: " <> reason)), w)
  act_on ctx s now uuids w body reason quarantine =
      after_store ctx s true now uuids w (store_all ctx body "Quarantine" s.rcpts w.stored)
  act_on ctx s now uuids w body reason accept =
      after_store ctx s false now uuids w (store_all ctx body "INBOX" s.rcpts w.stored)

  -- Data, on what io.ReadAll reads; the metrics and the log lines are left out.
  unfoldable pub receive :
      Result String → ℕ → (ℕ → String) → Session p → World p → Option Error × World p
  unfolding act_on
  receive read now uuids s w = elim (read_bounded read (effective_max_bytes cfg s.rcpts)) [
    | err e ↦ (some e, w)
    | ok body ↦
        let outcome = evaluate p.checks (input s body) in
        act_on (background s.correlation_id) s now uuids w body outcome.reason outcome.verdict
  ]
