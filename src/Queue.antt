-- ===== src/Queue.antt =====
-- internal/queue: the outbound queue. The retry queue that it shares with internal/webhook stands
-- in Claims; jobs.go is here.
pub mod Claims
pub mod Backoff
pub mod Contract
pub mod Postgres
mod Tests
use envelope.Prelude.{ℕ, ◌+◌, ◌≡◌, refl, String, ◌<>◌, quote, Option, none, some}
use envelope.Context.{Error, plain}
use Claims.{RetryJob, IsLawful}

-- An instant is a number of nanoseconds.
pub record Job : Type 0 where
  pub id : String
  pub vhost : String
  pub from : String
  pub to : String
  pub body_ref : String
  pub attempts : ℕ
  pub next_attempt_at : ℕ
  pub last_error : String
  pub correlation_id : String

-- `job.LastError = cause.Error()` if there is a cause.
abbrev or_else : Option String → String → String
or_else none old = old
or_else (some text) old = text

-- What Fail writes to the job.
unfoldable pub reschedule : Job → Option String → ℕ → Job
reschedule job cause next = record job {
  attempts = job.attempts + 1;
  next_attempt_at = next;
  last_error = or_else cause job.last_error;
}

unfoldable pub job_id_required : Error
job_id_required = plain "queue: job ID is required"

unfoldable pub job_not_found : String → Error
job_not_found id = plain ("queue: job " <> quote id <> " not found")

-- MemoryBackend, with its methods in Claims.
unfoldable pub job_type : RetryJob Job
unfolding reschedule job_id_required job_not_found
job_type = record {
  id = λ j. j.id;
  next_attempt_at = λ j. j.next_attempt_at;
  attempts = λ j. j.attempts;
  reschedule = reschedule;
  id_required = job_id_required;
  not_found = job_not_found;
}

pub job_type-IsLawful : IsLawful job_type
unfolding job_type
job_type-IsLawful = record { id_kept = λ j cause t. refl }
