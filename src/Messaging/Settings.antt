-- ===== src/Messaging/Settings.antt =====
-- internal/messaging: withDefaults and validate of ConsumerConfig and PublisherConfig, and the
-- jitter of consumer.go. The topology and the functions that tests replace are left out.
pub mod Usable
mod Tests
use metrics_pipeline_go.Prelude.{
  ℕ, suc, ◌+◌, ◌*◌, ◌/◌, ◌-◌, ◌==◌, Bool, true, false, ◌||◌, List, [], ◌∷◌, Str, codes, is_empty, ℤ,
  pos, eqb_ℤ, leb_ℤ, ltb_ℤ, Result, ok, err, ◌>>=◌, ◌>>◌, fail_if, if◌then◌else◌,
}
use metrics_pipeline_go.Messaging.Backoff.{millisecond, second}

abbrev pub or_default : ℤ → ℕ → ℤ
or_default value standard = if eqb_ℤ value (pos 0) then pos standard else value

pub data SettingsError : Type 0 where
  amqp_url_empty sizes_not_positive durations_not_positive : SettingsError
  failure_max_too_small reconnect_max_too_small sink_required : SettingsError
  publishers_not_positive write_timeout_not_positive confirm_timeout_not_positive : SettingsError
  max_attempts_not_positive initial_backoff_not_positive max_backoff_too_small : SettingsError

pub record ConsumerConfig : Type 0 where
  pub url : Str
  pub prefetch : ℤ
  pub batch_max : ℤ
  pub flush_interval : ℤ
  pub failure_backoff : ℤ
  pub failure_max_backoff : ℤ
  pub reconnect_backoff : ℤ
  pub reconnect_max_backoff : ℤ
  pub shutdown_timeout : ℤ
  pub consumer_tag : Str

unfoldable pub consumer_defaults : ConsumerConfig → ConsumerConfig
consumer_defaults c = record {
  url = c.url;
  prefetch = or_default c.prefetch 500;
  batch_max = or_default c.batch_max 500;
  flush_interval = or_default c.flush_interval (100 * millisecond);
  failure_backoff = or_default c.failure_backoff (100 * millisecond);
  failure_max_backoff = or_default c.failure_max_backoff (30 * second);
  reconnect_backoff = or_default c.reconnect_backoff (100 * millisecond);
  reconnect_max_backoff = or_default c.reconnect_max_backoff (5 * second);
  shutdown_timeout = or_default c.shutdown_timeout (5 * second);
  consumer_tag = if is_empty c.consumer_tag then codes "metrics-worker" else c.consumer_tag;
}

unfoldable pub validate_consumer : ConsumerConfig → Result SettingsError (Unit {0})
validate_consumer c = do
  fail_if (is_empty c.url) amqp_url_empty
  fail_if (leb_ℤ c.prefetch (pos 0) || leb_ℤ c.batch_max (pos 0)) sizes_not_positive
  fail_if
      (leb_ℤ c.flush_interval (pos 0)
        || leb_ℤ c.failure_backoff (pos 0)
        || leb_ℤ c.reconnect_backoff (pos 0)
        || leb_ℤ c.shutdown_timeout (pos 0))
      durations_not_positive
  fail_if (ltb_ℤ c.failure_max_backoff c.failure_backoff) failure_max_too_small
  fail_if (ltb_ℤ c.reconnect_max_backoff c.reconnect_backoff) reconnect_max_too_small
  ok tt

-- NewRabbitMQMetricConsumer: the configuration that the consumer keeps.
unfoldable pub new_metric_consumer : ConsumerConfig → Bool → Result SettingsError ConsumerConfig
unfolding consumer_defaults validate_consumer
new_metric_consumer config has_sink = do
  validate_consumer (consumer_defaults config)
  if has_sink then ok (consumer_defaults config) else err sink_required

-- The durations and counts of PublisherConfig.
pub record PublisherConfig : Type 0 where
  pub url : Str
  pub publishers : ℤ
  pub write_timeout : ℤ
  pub confirm_timeout : ℤ
  pub max_attempts : ℤ
  pub initial_backoff : ℤ
  pub max_backoff : ℤ

unfoldable pub publisher_defaults : PublisherConfig → PublisherConfig
publisher_defaults c = record {
  url = c.url;
  publishers = or_default c.publishers 1;
  write_timeout = or_default c.write_timeout (5 * second);
  confirm_timeout = or_default c.confirm_timeout (5 * second);
  max_attempts = or_default c.max_attempts 3;
  initial_backoff = or_default c.initial_backoff (100 * millisecond);
  max_backoff = or_default c.max_backoff second;
}

unfoldable pub validate_publisher : PublisherConfig → Result SettingsError (Unit {0})
validate_publisher c = do
  fail_if (is_empty c.url) amqp_url_empty
  fail_if (leb_ℤ c.publishers (pos 0)) publishers_not_positive
  fail_if (leb_ℤ c.write_timeout (pos 0)) write_timeout_not_positive
  fail_if (leb_ℤ c.confirm_timeout (pos 0)) confirm_timeout_not_positive
  fail_if (leb_ℤ c.max_attempts (pos 0)) max_attempts_not_positive
  fail_if (leb_ℤ c.initial_backoff (pos 0)) initial_backoff_not_positive
  fail_if (ltb_ℤ c.max_backoff c.initial_backoff) max_backoff_too_small
  ok tt

-- The configuration that NewRabbitMQMetricBatchPublisher keeps, if it gets as far as opening sessions.
unfoldable pub publisher_settings : PublisherConfig → Result SettingsError PublisherConfig
unfolding publisher_defaults validate_publisher
publisher_settings config = do
  validate_publisher (publisher_defaults config)
  ok (publisher_defaults config)

-- jitterDuration of a duration that is not negative; `random n` is rand.Int64N, a number below n.
unfoldable pub jitter_duration : (ℕ → ℕ) → ℕ → ℕ
jitter_duration random duration =
    let half = duration / 2 in if half == 0 then duration else half + random (duration - half + 1)
