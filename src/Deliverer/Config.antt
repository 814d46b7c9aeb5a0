-- ===== src/Deliverer/Config.antt =====
-- Config of internal/deliverer/deliverer.go, and its defaults. The parts that are not data (queue,
-- store, directory, webhooks, resolver) are arguments of the functions that use them.
use envelope.Prelude.{ℕ, ◌*◌, ℤ, pos, Bool, true, String, ◌≡◌, arith, is_positive, if◌then◌else◌}

abbrev pub second : ℕ
second = 1_000_000_000

abbrev pub default_backoff_base : ℤ
default_backoff_base = pos (30 * second)

abbrev pub default_backoff_max : ℤ
default_backoff_max = pos (1800 * second)

abbrev pub default_max_attempts : ℤ
default_max_attempts = pos 8

abbrev pub default_per_domain_concurrency : ℤ
default_per_domain_concurrency = pos 5

abbrev pub default_port : ℤ
default_port = pos 25

abbrev pub default_dial_timeout : ℤ
default_dial_timeout = pos (30 * second)

abbrev pub default_poll_interval : ℤ
default_poll_interval = pos second

abbrev pub default_queue_depth_sample_interval : ℤ
default_queue_depth_sample_interval = pos (15 * second)

pub record Config : Type 0 where
  -- Whether Webhooks is set.
  pub webhooks : Bool
  pub domain : String
  pub port : ℤ
  pub backoff_base : ℤ
  pub backoff_max : ℤ
  pub max_attempts : ℤ
  pub per_domain_concurrency : ℤ
  pub poll_interval : ℤ
  pub dial_timeout : ℤ
  pub queue_depth_sample_interval : ℤ

abbrev or_default : ℤ → ℤ → ℤ
or_default value default = if is_positive value then value else default

unfoldable pub with_defaults : Config → Config
with_defaults c = record c {
  backoff_base = or_default c.backoff_base default_backoff_base;
  backoff_max = or_default c.backoff_max default_backoff_max;
  max_attempts = or_default c.max_attempts default_max_attempts;
  per_domain_concurrency = or_default c.per_domain_concurrency default_per_domain_concurrency;
  port = or_default c.port default_port;
  poll_interval = or_default c.poll_interval default_poll_interval;
  dial_timeout = or_default c.dial_timeout default_dial_timeout;
  queue_depth_sample_interval =
      or_default c.queue_depth_sample_interval default_queue_depth_sample_interval;
}

-- What a Deliverer relies on in its configuration.
pub record IsUsable (c : Config) : Type 0 where
  pub base : is_positive c.backoff_base ≡ true
  pub cap : is_positive c.backoff_max ≡ true
  pub attempts : is_positive c.max_attempts ≡ true
  pub slots : is_positive c.per_domain_concurrency ≡ true

-- Every configuration is usable once its defaults are filled in.
pub with_defaults-IsUsable : (c : Config) → IsUsable (with_defaults c)
unfolding with_defaults
with_defaults-IsUsable c = ground arith
