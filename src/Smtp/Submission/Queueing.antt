-- ===== src/Smtp/Submission/Queueing.antt =====
-- The jobs that a submission leaves in the queue.
use envelope.Prelude.{
  ℕ, ◌≤◌, ◌≡◌, ◌≢◌, ◌++◌, ◌<>◌, true, false, is_positive, Option, none, some, String, ◌⊎◌, List, [],
  ◌∷◌, take, length,
}
use envelope.Context.{Context, background, Error, Result, ok}
use envelope.Webhook.{Fired, queued_data}
use envelope.Smtp.Limits.{is_denied}
use envelope.Directory.{Vhost}
use envelope.Smtp.{Config}
use envelope.Smtp.Submission.{Parts, Session, World, seconds_per_day}
use envelope.Smtp.Submission.Jobs.{HasJobs}

module _ (p : Parts) (cfg : Config) where
  module _ (s : Session) (now : ℕ) (uuids : ℕ → String) where
    -- The message was read, signed with the key of the session's vhost, and within its daily quota, if
    -- quotas are enforced and the vhost has one.
    pub record IsAdmitted (read : Result String) (buckets : p.limiter.State) (signed : String)
        : Type 0 where
      pub body : String
      pub vhost : Vhost
      pub key : ℕ
      pub is_read : read ≡ ok body
      pub sending : p.dir.vhost s.auth_vhost ≡ some vhost
      pub has_key : vhost.dkim_key ≡ some key
      pub is_signed : p.sign vhost.domain vhost.dkim_selector key body ≡ ok signed
      pub within_quota :
          cfg.quota ≡ true
          → is_positive vhost.daily_quota ≡ true
          → is_denied
              (p.limiter.allow
                (background s.correlation_id)
                ("quota:" <> vhost.id)
                vhost.daily_quota
                (vhost.daily_quota, seconds_per_day)
                buckets).0
            ≡ false

    -- With webhooks, one message.queued for the session's vhost, sender and recipients.
    abbrev pub Announced : List Fired → List Fired → Type 0
    Announced old new =
        ((cfg.webhooks ≡ false) × (new ≡ old))
        ⊎ ((cfg.webhooks ≡ true)
            × (new
                ≡ old
                  ++ record {
                    ctx = background s.correlation_id;
                    vhost = s.auth_vhost;
                    event_type = "message.queued";
                    payload = record {
                      event_id = uuids 0;
                      event_type = "message.queued";
                      vhost = s.auth_vhost;
                      created_at = now;
                      content = queued_data s.from s.rcpts;
                    };
                  }
                    ∷ []))

    -- What DATA of a submission does, from a session with these recipients.
    pub record Submitted (read : Result String) (w : World p) (r : Option Error × World p)
        : Type 0 where
      pub made : ℕ
      pub made_bound : made ≤ length s.rcpts
      pub signed : String
      pub has_jobs : HasJobs p cfg uuids s signed now 1 (take made s.rcpts) r.1.jobs.jobs
      pub admitted : ((made ≡ 0) × (r.0 ≢ none)) ⊎ IsAdmitted read w.buckets signed
      pub events :
          ((r.0 ≡ none) × (made ≡ length s.rcpts) × Announced w.fired r.1.fired)
          ⊎ ((e : Error) × (r.0 ≡ some e) × (r.1.fired ≡ w.fired))
