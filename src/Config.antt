-- ===== src/Config.antt =====
-- internal/config/config.go: the configuration of the processes from the environment, and the
-- configurations that internal/app/worker and internal/app/api make of it.
pub mod Accepted
mod Tests
use metrics_pipeline_go.Prelude.{
  ℕ, ◌*◌, Bool, true, false, not, ◌&&◌, ◌||◌, Option, none, some, List, [], ◌∷◌, Str, codes, str_eq,
  is_empty, ℤ, pos, eqb_ℤ, leb_ℤ, ltb_ℤ, Result, ok, err, ◌>>=◌, ◌>>◌, fail_if, if◌then◌else◌,
}
use metrics_pipeline_go.Messaging.Backoff.{millisecond, second}
use metrics_pipeline_go.Messaging.Settings.{ConsumerConfig, PublisherConfig}

pub record Config : Type 0 where
  pub service_name : Str
  pub instance_id : Str
  pub http_addr : Str
  pub admin_addr : Str
  pub shutdown_timeout : ℤ
  pub log_level : Str
  pub database_url : Str
  pub amqp_url : Str
  pub amqp_publishers : ℤ
  pub amqp_write_timeout : ℤ
  pub amqp_confirm_timeout : ℤ
  pub amqp_publish_max_attempts : ℤ
  pub amqp_publish_initial_backoff : ℤ
  pub amqp_publish_max_backoff : ℤ
  pub retention_window : ℤ
  pub partition_maintenance_interval : ℤ
  pub worker_consumer_prefetch : ℤ
  pub worker_consumer_batch_max : ℤ
  pub worker_consumer_flush_interval : ℤ

-- The environment with what the code takes from the standard library: ParseDuration, Atoi, TrimSpace and ToLower.
-- `dot_env` says that the .env file was read or is not there.
pub record Environs : Type 0 where
  pub dot_env : Bool
  pub lookup : Str → Option Str
  pub parse_duration : Str → Option ℤ
  pub atoi : Str → Option ℤ
  pub trim_space : Str → Str
  pub to_lower : Str → Str

pub data ConfigError : Type 0 where
  dot_env_failed amqp_url_missing database_url_missing log_level_unknown retention_fixed
        max_backoff_too_small :
      ConfigError
  unparsable must_not_be_empty must_be_positive : Str → ConfigError

abbrev pub hour : ℕ
hour = 3600 * second

abbrev pub default_retention_window : ℤ
default_retention_window = pos (168 * hour)

unfoldable pub requires_amqp : Str → Bool
requires_amqp service_name =
    str_eq service_name (codes "api") || str_eq service_name (codes "worker")

unfoldable pub requires_database : Str → Bool
requires_database service_name =
    str_eq service_name (codes "worker") || str_eq service_name (codes "api")

abbrev pub is_log_level : Str → Bool
is_log_level s =
    str_eq s (codes "debug")
    || str_eq s (codes "info")
    || str_eq s (codes "warn")
    || str_eq s (codes "error")

module _ (env : Environs) where
  abbrev pub blank : Str → Bool
  blank s = is_empty (env.trim_space s)

  abbrev pub nonempty : Str → Str → Result ConfigError (Unit {0})
  nonempty name value = fail_if (blank value) (must_not_be_empty name)

  abbrev pub positive : Str → ℤ → Result ConfigError (Unit {0})
  positive name value = fail_if (leb_ℤ value (pos 0)) (must_be_positive name)

  unfoldable pub validate_config : Config → Result ConfigError (Unit {0})
  unfolding requires_amqp requires_database
  validate_config c = do
    nonempty (codes "SERVICE_NAME") c.service_name
    nonempty (codes "INSTANCE_ID") c.instance_id
    nonempty (codes "HTTP_ADDR") c.http_addr
    nonempty (codes "ADMIN_ADDR") c.admin_addr
    positive (codes "SHUTDOWN_TIMEOUT") c.shutdown_timeout
    fail_if (requires_amqp c.service_name && blank c.amqp_url) amqp_url_missing
    fail_if (requires_database c.service_name && blank c.database_url) database_url_missing
    positive (codes "AMQP_PUBLISHERS") c.amqp_publishers
    positive (codes "AMQP_WRITE_TIMEOUT") c.amqp_write_timeout
    positive (codes "AMQP_CONFIRM_TIMEOUT") c.amqp_confirm_timeout
    positive (codes "AMQP_PUBLISH_MAX_ATTEMPTS") c.amqp_publish_max_attempts
    positive (codes "AMQP_PUBLISH_INITIAL_BACKOFF") c.amqp_publish_initial_backoff
    fail_if (ltb_ℤ c.amqp_publish_max_backoff c.amqp_publish_initial_backoff) max_backoff_too_small
    fail_if (not (eqb_ℤ c.retention_window default_retention_window)) retention_fixed
    positive (codes "PARTITION_MAINTENANCE_INTERVAL") c.partition_maintenance_interval
    positive (codes "WORKER_CONSUMER_PREFETCH") c.worker_consumer_prefetch
    positive (codes "WORKER_CONSUMER_BATCH_MAX") c.worker_consumer_batch_max
    positive (codes "WORKER_CONSUMER_FLUSH_INTERVAL") c.worker_consumer_flush_interval
    fail_if (not (is_log_level c.log_level)) log_level_unknown
    ok tt

  unfoldable pub string_env : Str → Str → Str
  string_env name fallback = elim (env.lookup name) [ none ↦ fallback | some value ↦ value ]

  abbrev pub parsed_or : Str → Option ℤ → Result ConfigError ℤ
  parsed_or name none = err (unparsable name)
  parsed_or name (some value) = ok value

  unfoldable pub duration_env : Str → ℤ → Result ConfigError ℤ
  duration_env name fallback = elim (env.lookup name) [
    | none ↦ ok fallback
    | some value ↦ parsed_or name (env.parse_duration value)
  ]

  unfoldable pub int_env : Str → ℤ → Result ConfigError ℤ
  int_env name fallback = elim (env.lookup name) [
    | none ↦ ok fallback
    | some value ↦ parsed_or name (env.atoi value)
  ]

  -- The part of Load that reads the environment.
  unfoldable pub read_environment : Str → Result ConfigError Config
  unfolding duration_env int_env string_env
  read_environment default_service_name = do
    fail_if (not env.dot_env) dot_env_failed
    shutdown_timeout ← duration_env (codes "SHUTDOWN_TIMEOUT") (pos (15 * second))
    write_timeout ← duration_env (codes "AMQP_WRITE_TIMEOUT") (pos (5 * second))
    confirm_timeout ← duration_env (codes "AMQP_CONFIRM_TIMEOUT") (pos (5 * second))
    initial_backoff ← duration_env (codes "AMQP_PUBLISH_INITIAL_BACKOFF") (pos (100 * millisecond))
    max_backoff ← duration_env (codes "AMQP_PUBLISH_MAX_BACKOFF") (pos second)
    retention_window ← duration_env (codes "RETENTION_WINDOW") default_retention_window
    maintenance_interval ← duration_env (codes "PARTITION_MAINTENANCE_INTERVAL") (pos hour)
    flush_interval ← duration_env (codes "WORKER_CONSUMER_FLUSH_INTERVAL") (pos (100 * millisecond))
    publishers ← int_env (codes "AMQP_PUBLISHERS") (pos 1)
    max_attempts ← int_env (codes "AMQP_PUBLISH_MAX_ATTEMPTS") (pos 3)
    prefetch ← int_env (codes "WORKER_CONSUMER_PREFETCH") (pos 500)
    batch_max ← int_env (codes "WORKER_CONSUMER_BATCH_MAX") (pos 500)
    ok (record {
      service_name = string_env (codes "SERVICE_NAME") default_service_name;
      instance_id = string_env (codes "INSTANCE_ID") (codes "local");
      http_addr = string_env (codes "HTTP_ADDR") (codes ":8080");
      admin_addr = string_env (codes "ADMIN_ADDR") (codes ":8081");
      shutdown_timeout = shutdown_timeout;
      log_level = env.to_lower (string_env (codes "LOG_LEVEL") (codes "info"));
      database_url = string_env (codes "DATABASE_URL") [];
      amqp_url = string_env (codes "AMQP_URL") [];
      amqp_publishers = publishers;
      amqp_write_timeout = write_timeout;
      amqp_confirm_timeout = confirm_timeout;
      amqp_publish_max_attempts = max_attempts;
      amqp_publish_initial_backoff = initial_backoff;
      amqp_publish_max_backoff = max_backoff;
      retention_window = retention_window;
      partition_maintenance_interval = maintenance_interval;
      worker_consumer_prefetch = prefetch;
      worker_consumer_batch_max = batch_max;
      worker_consumer_flush_interval = flush_interval;
    })

  unfoldable pub load : Str → Result ConfigError Config
  unfolding read_environment validate_config
  load default_service_name = do c ← read_environment default_service_name; validate_config c; ok c

-- The configuration of the consumer that the worker makes.
unfoldable pub worker_consumer : Config → ConsumerConfig
worker_consumer c = record {
  url = c.amqp_url;
  prefetch = c.worker_consumer_prefetch;
  batch_max = c.worker_consumer_batch_max;
  flush_interval = c.worker_consumer_flush_interval;
  failure_backoff = pos 0;
  failure_max_backoff = pos 0;
  reconnect_backoff = pos 0;
  reconnect_max_backoff = pos 0;
  shutdown_timeout = c.shutdown_timeout;
  consumer_tag = [];
}

-- The configuration of the publisher that the API makes.
unfoldable pub api_publisher : Config → PublisherConfig
api_publisher c = record {
  url = c.amqp_url;
  publishers = c.amqp_publishers;
  write_timeout = c.amqp_write_timeout;
  confirm_timeout = c.amqp_confirm_timeout;
  max_attempts = c.amqp_publish_max_attempts;
  initial_backoff = c.amqp_publish_initial_backoff;
  max_backoff = c.amqp_publish_max_backoff;
}
